-- ===== src/World/Samples.antt =====
-- Surroundings and a world at which the tests run.
use bs_notify_hub.Prelude.{some, [], ◌==◌, ◌*◌, false}
use bs_notify_hub.Prelude.Int.{pos}
use bs_notify_hub.World.{World, Env}

-- Surroundings in which the second call of the database fails.
abbrev pub shaky : Env
shaky = record {
  now = 1000;
  fails = λ n. n == 1;
  uuid_parse = λ s. some 0;
  uuid_string = λ n. "id";
  scan_int64 = λ s. some (pos 0);
  print_int64 = λ n. "0";
  encode = λ m. "{}";
  online = λ tenant. [];
  trace_id = "trace";
  user_notify_ttl_seconds = pos 60;
  tenant_notify_ttl_seconds = pos 120;
  tie_rank = λ n id. n * id;
}

abbrev pub quiet_env : Env
quiet_env = record shaky { fails = λ n. false; uuid_parse = λ s. some 5 }

abbrev pub empty_world : World
empty_world = record {
  db = record { records = []; statuses = []; watermarks = [] };
  cache = record { counters = []; sets = [] };
  broker = record { capacity = 10; queue = [] };
  tasks = [];
  calls = 0;
  next_id = 5;
}

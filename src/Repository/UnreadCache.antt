-- ===== src/Repository/UnreadCache.antt =====
-- internal/repository/unread_cache.go and pkg/lua/batch_get_unread.lua: the Redis commands.
pub mod Sets
use bs_notify_hub.Prelude.Map
use bs_notify_hub.Prelude.{
  ℕ, ◌-◌, String, Bool, true, false, Option, none, some, List, [], ◌∷◌, ◌++◌, same, string_key,
  length, count_where, if◌then◌else◌, ltb, ◌==◌,
}
use bs_notify_hub.Prelude.Int.{ℤ, pos, negsuc, ◌+ℤ◌, ltb_ℤ}
use bs_notify_hub.World.{Cache, Env, DbError, ok, M, call, pure, read_cache, write_cache}

-- SISMEMBER
unfoldable pub is_member : String → List String → Bool
is_member a [] = false
is_member a (x ∷ xs) = if same x a then true else is_member a xs

unfoldable pub set_add : String → List String → List String
unfolding is_member
set_add a xs = if is_member a xs then xs else xs ++ a ∷ []

-- SADD of several members, one after another
unfoldable pub set_add_all : List String → List String → List String
unfolding set_add
set_add_all [] xs = xs
set_add_all (a ∷ as_) xs = set_add_all as_ (set_add a xs)

-- A missing key reads as 0, or as the empty set.
abbrev pub counter_of : Option ℤ → ℤ
counter_of none = pos 0
counter_of (some n) = n

abbrev pub set_of : Option (List String) → List String
set_of none = []
set_of (some xs) = xs

abbrev pub counter_at : String → Cache → ℤ
counter_at key c = counter_of (Map.get key c.counters)

abbrev pub set_at : String → Cache → List String
set_at key c = set_of (Map.get key c.sets)

abbrev pub put_counter : String → ℤ → Cache → Cache
put_counter key n c = record c { counters = Map.put key n c.counters }

abbrev pub put_set : String → List String → Cache → Cache
put_set key xs c = record c { sets = Map.put key xs c.sets }

-- SINTERCARD 2 total op
unfoldable pub inter_card : List String → List String → ℕ
unfolding is_member
inter_card total op = count_where (λ a. is_member a op) total

-- decrWithFloorLua
unfoldable pub decr_floor : ℤ → ℤ
unfolding ◌+ℤ◌
decr_floor v = let v' = v +ℤ negsuc 0 in if ltb_ℤ v' (pos 0) then pos 0 else v'

-- sDiffCountLua; total_count - inter_count is not negative, so its floor changes nothing
unfoldable pub diff_count : List String → List String → ℕ
unfolding inter_card
diff_count total op = if length total == 0 then 0 else length total - inter_card total op

-- one key of batchIncrIfExistLua: the new value, or -1
abbrev pub incr_if_exist : Option ℤ → ℤ
incr_if_exist none = negsuc 0
incr_if_exist (some n) = n +ℤ pos 1

abbrev pub incr_counters : String → Option ℤ → Cache → Cache
incr_counters key none c = c
incr_counters key (some n) c = put_counter key (n +ℤ pos 1) c

unfoldable pub incr_all : List String → Cache → List ℤ × Cache
unfolding ◌+ℤ◌
incr_all [] c = ([], c)
incr_all (key ∷ keys) c =
    let old = Map.get key c.counters in
    let (results, c') = incr_all keys (incr_counters key old c) in (incr_if_exist old ∷ results, c')

-- the loop of batch_get_unread.lua over ARGV, three keys at a time
unfoldable pub unread_pairs : List String → List String → Cache → List ℤ
unfolding inter_card ◌+ℤ◌
unread_pairs total (p_key ∷ t_key ∷ op_key ∷ rest) c =
    counter_at p_key c
    ∷ (counter_at t_key c
        +ℤ pos (
            length total
            - (if ltb 0 (length total) then inter_card total (set_at op_key c) else 0)))
    ∷ unread_pairs total rest c
unread_pairs total _ c = []

-- the writes of BatchSetPipeline
unfoldable pub set_all : List (String × ℤ) → Cache → Cache
set_all [] c = c
set_all ((key, n) ∷ kv) c = set_all kv (put_counter key n c)

module _ (env : Env) where
  unfoldable pub incr : String → M DbError (Unit {0})
  unfolding ◌+ℤ◌
  incr key = call env (write_cache λ c. put_counter key (counter_at key c +ℤ pos 1) c)

  unfoldable pub decr_with_floor : String → M DbError ℤ
  unfolding decr_floor
  decr_with_floor key = call env λ w.
      let v = decr_floor (counter_at key w.cache) in
      (ok v, record w { cache = put_counter key v w.cache })

  unfoldable pub set : String → ℤ → M DbError (Unit {0})
  set key val = call env (write_cache (put_counter key val))

  -- SADD returns how many members are new.
  unfoldable pub s_add : String → String → M DbError ℕ
  unfolding set_add
  s_add key member = call env λ w.
      let old = set_at key w.cache in
      (
        ok (if is_member member old then 0 else 1),
        record w { cache = put_set key (set_add member old) w.cache },
      )

  unfoldable pub s_card : String → M DbError ℕ
  s_card key = call env (read_cache λ c. length (set_at key c))

  -- DEL for no ids; else a pipeline that fills a temporary key and renames it.
  unfoldable pub safe_replace_set : String → List String → M DbError (Unit {0})
  unfolding set_add_all
  safe_replace_set key [] = call env (write_cache λ c. record c { sets = Map.remove key c.sets })
  safe_replace_set key (id ∷ ids) = call env (write_cache (put_set key (set_add_all (id ∷ ids) [])))

  unfoldable pub batch_set_pipeline : List (String × ℤ) → M DbError (Unit {0})
  unfolding set_all
  batch_set_pipeline [] = pure tt
  batch_set_pipeline (e ∷ kv) = call env (write_cache (set_all (e ∷ kv)))

  -- With the script loaded: the retry after NOSCRIPT is not modelled.
  unfoldable pub batch_incr_if_exist : List String → M DbError (List ℤ)
  unfolding incr_all
  batch_incr_if_exist [] = pure []
  batch_incr_if_exist (key ∷ keys) =
      call env λ w.
        let (results, c) = incr_all (key ∷ keys) w.cache in (ok results, record w { cache = c })

  unfoldable pub get : String → M DbError ℤ
  get key = call env (read_cache (counter_at key))

  unfoldable pub s_diff_count : String → String → M DbError ℕ
  unfolding diff_count
  s_diff_count total_key op_key =
      call env (read_cache λ c. diff_count (set_at total_key c) (set_at op_key c))

  unfoldable pub batch_get_unread_dual : String → List String → M DbError (List ℤ)
  unfolding unread_pairs
  batch_get_unread_dual total_key keys =
      call env (read_cache λ c. unread_pairs (set_at total_key c) keys c)

  -- SUNIONSTORE op op total
  unfoldable pub sync_tenant_broadcast_to_op : String → String → M DbError ℕ
  unfolding set_add_all
  sync_tenant_broadcast_to_op bcast_key op_key = call env λ w.
      let xs = set_add_all (set_at bcast_key w.cache) (set_at op_key w.cache) in
      (ok (length xs), record w { cache = put_set op_key xs w.cache })

-- ===== src/Service/Tasks.antt =====
-- The goroutines that the services start, run to their end in some order.
use bs_notify_hub.Prelude.{List, [], ◌∷◌}
use bs_notify_hub.World.{World, Env, DbError, Task, send_notify, once_op, batch_op, M}
use bs_notify_hub.Logic.Sender
use bs_notify_hub.Service.Status

module _ (env : Env) where
  unfoldable pub run_task : Task → M DbError (Unit {0})
  run_task (send_notify r) = Sender.send_notify env r
  run_task (once_op r user) = Status.once_op_cache_and_send env r user
  run_task (batch_op user tenant category) = Status.batch_op_cache_and_send env user tenant category

  -- the goroutines that wait, in the order in which they were started
  unfoldable pub run_list : List Task → World → World
  unfolding run_task
  run_list [] w = w
  run_list (t ∷ ts) w = run_list ts (run_task t w).1

  unfoldable pub run_tasks : World → World
  unfolding run_list
  run_tasks w = run_list w.tasks (record w { tasks = [] })

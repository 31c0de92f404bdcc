-- ===== src/Tests/Worker.antt =====
-- The theorems on the pool: a worker receives a task before its submitter has counted it.
use photo_core.Base.{String, List, [], ◌∷◌, refl, arith}
use photo_core.Worker.{
  Task, Pool, new_pool, send, receive, activate, unqueue, sends, receives, activates, unqueues,
  Reachable, start, after_step,
}
use photo_core.Worker.Drains.{CanDrain, Reachable-CanDrain}
use photo_core.Worker.Laws.{IsBalanced, Reachable-IsBalanced}

abbrev task : Task
task = record {
  id = "t1";
  type = "generate_thumbnail";
  priority = 1;
  media_id = "c1";
  media_path = "";
  size = "small";
  created_at = 5;
  attempts = 0;
}

abbrev kinds : List String
kinds = "generate_thumbnail" ∷ []

abbrev pool : Pool
pool = new_pool 4 1 10 kinds

abbrev sent_pool : Pool
sent_pool = send task pool

abbrev received_pool : Pool
received_pool = receive task [] sent_pool

abbrev activated_pool : Pool
activated_pool = activate [] task [] received_pool

abbrev early_pool : Pool
early_pool = unqueue [] task [] activated_pool

steps : Unit {0}
unfolding new_pool send receive activate unqueue
steps = tt

early-Reachable : Reachable pool early_pool
unfolding steps
early-Reachable =
    after_step activated_pool _
      (after_step received_pool _
        (after_step sent_pool _ (after_step pool _ start (sends task pool refl (omega arith)))
          (receives task [] sent_pool refl (omega arith)))
        (activates [] task [] received_pool refl))
      (unqueues [] task [] activated_pool refl)

Reachable-IsBalanced_example : IsBalanced early_pool
Reachable-IsBalanced_example = Reachable-IsBalanced 4 1 10 kinds early_pool early-Reachable

sent-Reachable : Reachable pool sent_pool
unfolding steps
sent-Reachable = after_step pool _ start (sends task pool refl (omega arith))

Reachable-CanDrain_example : CanDrain sent_pool
unfolding steps
Reachable-CanDrain_example =
    Reachable-CanDrain 4 1 10 kinds sent_pool sent-Reachable refl (omega arith)

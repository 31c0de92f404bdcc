-- ===== src/Worker/Laws.antt =====
-- What the counters of the pool say in every state that it can reach.
use photo_core.Base.{
  ℤ, pos, negsuc, ℕ, zero, suc, ◌+◌, ◌-◌, ◌≤◌, List, [], ◌∷◌, ◌++◌, ◌≡◌, refl, ap, sym, ◌∙◌, arith,
  Bool-cases, inl, inr, contains, length, length-append, String, ◌&&◌,
}
use photo_core.Worker.{
  increment, decrement, Task, Pool, new_pool, register_handler, send, count_total, count_queued,
  receive, activate, unqueue, process, finish, leave, Step, sends, counts_total, counts_queued,
  receives, activates, unqueues, processes, finishes, registers, cancels, closes, leaves_cancelled,
  leaves_closed, Reachable, start, after_step,
}

-- The integer a - b.
unfoldable pub difference : ℕ → ℕ → ℤ
difference a zero = pos a
difference zero (suc b) = negsuc b
difference (suc a) (suc b) = difference a b

increment-difference : (a b : ℕ) → increment (difference a (suc b)) ≡ difference a b
unfolding difference increment
increment-difference zero zero = refl
increment-difference zero (suc b) = refl
increment-difference (suc a) zero = refl
increment-difference (suc a) (suc b) = increment-difference a b

decrement-difference : (a b : ℕ) → decrement (difference (suc a) b) ≡ difference a b
unfolding difference decrement
decrement-difference a zero = refl
decrement-difference zero (suc zero) = refl
decrement-difference zero (suc (suc b)) = refl
decrement-difference (suc a) (suc b) = decrement-difference a b

difference-suc : (a b : ℕ) → difference (suc a) (suc b) ≡ difference a b
unfolding difference
difference-suc a b = refl

same_difference : {a b c d : ℕ} → a ≡ c → b ≡ d → difference a b ≡ difference c d
same_difference e f = cc

length-middle :
    (before : List Task) (t : Task) (after : List Task)
    → length (before ++ t ∷ after) ≡ suc (length (before ++ after))
length-middle before t after =
    omega (arith, length-append before (t ∷ after), length-append before after)

length-parts :
    (l before : List Task) (t : Task) (after : List Task)
    → l ≡ before ++ t ∷ after
    → length l ≡ suc (length (before ++ after))
length-parts l before t after e = ap length e ∙ length-middle before t after

-- The tasks that a worker has not yet taken off QueuedTasks.
unfoldable pub pending : Pool → ℕ
pending p = length p.queue + length p.received + length p.activated

-- Every task that was sent stands at one place or was counted, and every worker is at one point;
-- QueuedTasks and ActiveWorkers differ from the tasks and workers that they count only by the
-- additions that are still to come.
pub record IsBalanced (p : Pool) : Type 0 where
  pub tasks :
      p.stats.total_tasks + p.sent
      ≡ pending p + length p.running + p.stats.completed_tasks + p.stats.failed_tasks
  pub queued : p.stats.queued_tasks ≡ difference (pending p) (p.sent + p.totalled)
  pub active : p.stats.active_workers ≡ length p.activated + length p.running + p.finishing
  pub capacity : length p.queue ≤ p.queue_size
  pub workers :
      p.waiting
        + length p.received
        + length p.activated
        + length p.running
        + p.finishing
        + p.returned
      ≡ p.num_workers

new_pool-IsBalanced :
    (num_cpu n size : ℕ) (handlers : List String) → IsBalanced (new_pool num_cpu n size handlers)
unfolding new_pool pending difference
new_pool-IsBalanced num_cpu n size handlers = record {
  tasks = refl;
  queued = refl;
  active = refl;
  capacity = omega arith;
  workers = omega arith;
}

Step-IsBalanced : (p q : Pool) → Step p q → IsBalanced p → IsBalanced q
unfolding pending send count_total count_queued receive activate unqueue process finish leave
    register_handler
Step-IsBalanced _ _ (sends t p unclosed room) b = record {
  tasks = omega (arith, b.tasks, length-append p.queue (t ∷ []));
  queued =
      b.queued
      ∙ sym (difference-suc (pending p) (p.sent + p.totalled))
      ∙ same_difference (omega (arith, length-append p.queue (t ∷ []))) (omega arith);
  active = b.active;
  capacity = omega (arith, room, length-append p.queue (t ∷ []));
  workers = b.workers;
}
Step-IsBalanced _ _ (counts_total p some) b = record {
  tasks = omega (arith, b.tasks, some);
  queued = b.queued ∙ same_difference refl (omega (arith, some));
  active = b.active;
  capacity = b.capacity;
  workers = b.workers;
}
Step-IsBalanced _ _ (counts_queued p some) b = record {
  tasks = b.tasks;
  queued =
      ap increment (b.queued ∙ same_difference refl (omega (arith, some)))
      ∙ increment-difference (pending p) (p.sent + (p.totalled - 1));
  active = b.active;
  capacity = b.capacity;
  workers = b.workers;
}
Step-IsBalanced _ _ (receives t rest p first some) b =
    let n : length p.queue ≡ suc (length rest) = ap length first in
    record {
      tasks = omega (arith, b.tasks, n);
      queued = b.queued ∙ same_difference (omega (arith, n)) refl;
      active = b.active;
      capacity = omega (arith, b.capacity, n);
      workers = omega (arith, b.workers, some);
    }
Step-IsBalanced _ _ (activates before t after p at) b =
    let n = length-parts p.received before t after at in
    record {
      tasks = omega (arith, b.tasks, n);
      queued = b.queued ∙ same_difference (omega (arith, n)) refl;
      active = omega (arith, b.active);
      capacity = b.capacity;
      workers = omega (arith, b.workers, n);
    }
Step-IsBalanced _ _ (unqueues before t after p at) b =
    let n = length-parts p.activated before t after at in
    record {
      tasks = omega (arith, b.tasks, n);
      queued =
          ap decrement (b.queued ∙ same_difference (omega (arith, n)) refl)
          ∙ decrement-difference (length p.queue + length p.received + length (before ++ after))
              (p.sent + p.totalled);
      active = omega (arith, b.active, n);
      capacity = b.capacity;
      workers = omega (arith, b.workers, n);
    }
Step-IsBalanced _ _ (processes success before t after p at) b =
    let n = length-parts p.running before t after at in
    elim (Bool-cases (contains p.handlers t.type && success)) [
      | inl done ↦ record {
        tasks = rw done (omega (arith, b.tasks, n));
        queued = rw done b.queued;
        active = rw done (omega (arith, b.active, n));
        capacity = b.capacity;
        workers = omega (arith, b.workers, n);
      }
      | inr failed ↦ record {
        tasks = rw failed (omega (arith, b.tasks, n));
        queued = rw failed b.queued;
        active = rw failed (omega (arith, b.active, n));
        capacity = b.capacity;
        workers = omega (arith, b.workers, n);
      }
    ]
Step-IsBalanced _ _ (finishes p some) b = record {
  tasks = b.tasks;
  queued = b.queued;
  active = omega (arith, b.active, some);
  capacity = b.capacity;
  workers = omega (arith, b.workers, some);
}
Step-IsBalanced _ _ (registers type p) b = record {
  tasks = b.tasks;
  queued = b.queued;
  active = b.active;
  capacity = b.capacity;
  workers = b.workers;
}
Step-IsBalanced _ _ (cancels p) b = record {
  tasks = b.tasks;
  queued = b.queued;
  active = b.active;
  capacity = b.capacity;
  workers = b.workers;
}
Step-IsBalanced _ _ (closes p c o) b = record {
  tasks = b.tasks;
  queued = b.queued;
  active = b.active;
  capacity = b.capacity;
  workers = b.workers;
}
Step-IsBalanced _ _ (leaves_cancelled p c some) b = record {
  tasks = b.tasks;
  queued = b.queued;
  active = b.active;
  capacity = b.capacity;
  workers = omega (arith, b.workers, some);
}
Step-IsBalanced _ _ (leaves_closed p c e some) b = record {
  tasks = b.tasks;
  queued = b.queued;
  active = b.active;
  capacity = b.capacity;
  workers = omega (arith, b.workers, some);
}

-- In every state that a new pool can reach, in any interleaving of its submitters and workers,
-- its tasks, workers and counters are in balance, and the queue is within its size.
pub Reachable-IsBalanced :
    (num_cpu n size : ℕ) (handlers : List String) (p : Pool)
    → Reachable (new_pool num_cpu n size handlers) p
    → IsBalanced p
Reachable-IsBalanced num_cpu n size handlers _ start = new_pool-IsBalanced num_cpu n size handlers
Reachable-IsBalanced num_cpu n size handlers _ (after_step q p r step) =
    Step-IsBalanced q p step (Reachable-IsBalanced num_cpu n size handlers q r)

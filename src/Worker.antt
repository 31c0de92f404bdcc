-- ===== src/Worker.antt =====
-- The worker pool of internal/worker/pool.go, as steps between its atomic operations: the send of
-- Submit, each atomic.AddInt64, the receipt of a task, the run of a handler. The state counts the
-- goroutines at each point; an int64 counter that goes below zero is an integer.
pub mod Laws
pub mod Drains
pub mod Thumbnails
use photo_core.Base.{
  ℤ, pos, negsuc, ℕ, zero, suc, ◌+◌, ◌-◌, ◌<◌, String, Bool, true, false, ◌&&◌, List, [], ◌∷◌, ◌++◌,
  ◌≡◌, eqb, if◌then◌else◌, contains, length,
}

unfoldable pub increment : ℤ → ℤ
increment (pos n) = pos (suc n)
increment (negsuc zero) = pos zero
increment (negsuc (suc n)) = negsuc n

unfoldable pub decrement : ℤ → ℤ
decrement (pos zero) = negsuc zero
decrement (pos (suc n)) = pos n
decrement (negsuc n) = negsuc (suc n)

pub record Task : Type 0 where
  pub id : String
  pub type : String
  pub priority : ℕ
  pub media_id : String
  pub media_path : String
  pub size : String
  pub created_at : ℕ
  pub attempts : ℕ

pub record PoolStats : Type 0 where
  pub total_tasks : ℕ
  pub completed_tasks : ℕ
  pub failed_tasks : ℕ
  pub queued_tasks : ℤ
  pub active_workers : ℕ

-- `handlers` are the types with a handler. `sent` and `totalled` count the submitters that have
-- sent their task and have not added to TotalTasks, or to QueuedTasks. A worker waits in its
-- select, or has received a task, has added to ActiveWorkers (`activated`), has taken from
-- QueuedTasks (`running`), has counted the outcome (`finishing`), or has returned.
pub record Pool : Type 0 where
  pub num_workers : ℕ
  pub queue : List Task
  pub queue_size : ℕ
  pub handlers : List String
  pub cancelled : Bool
  pub closed : Bool
  pub sent : ℕ
  pub totalled : ℕ
  pub waiting : ℕ
  pub received : List Task
  pub activated : List Task
  pub running : List Task
  pub finishing : ℕ
  pub returned : ℕ
  pub stats : PoolStats

-- NewPool and Start; a count that is not positive has its default.
unfoldable pub new_pool : ℕ → ℕ → ℕ → List String → Pool
new_pool num_cpu num_workers queue_size handlers =
    let n = if eqb num_workers 0 then num_cpu else num_workers in
    record {
      num_workers = n;
      queue = [];
      queue_size = if eqb queue_size 0 then 1000 else queue_size;
      handlers = handlers;
      cancelled = false;
      closed = false;
      sent = 0;
      totalled = 0;
      waiting = n;
      received = [];
      activated = [];
      running = [];
      finishing = 0;
      returned = 0;
      stats = record {
        total_tasks = 0;
        completed_tasks = 0;
        failed_tasks = 0;
        queued_tasks = pos 0;
        active_workers = 0;
      };
    }

unfoldable pub register_handler : String → Pool → Pool
register_handler type p = record p { handlers = type ∷ p.handlers }

-- `case p.taskQueue <- task`
unfoldable pub send : Task → Pool → Pool
send t p = record p { queue = p.queue ++ t ∷ []; sent = p.sent + 1 }

-- `atomic.AddInt64(&p.stats.TotalTasks, 1)`
unfoldable pub count_total : Pool → Pool
count_total p = record p {
  sent = p.sent - 1;
  totalled = p.totalled + 1;
  stats = record p.stats { total_tasks = p.stats.total_tasks + 1 };
}

-- `atomic.AddInt64(&p.stats.QueuedTasks, 1)`
unfoldable pub count_queued : Pool → Pool
count_queued p = record p {
  totalled = p.totalled - 1;
  stats = record p.stats { queued_tasks = increment p.stats.queued_tasks };
}

-- `case task, ok := <-p.taskQueue`, the queue being `t ∷ rest`
unfoldable pub receive : Task → List Task → Pool → Pool
receive t rest p = record p { queue = rest; waiting = p.waiting - 1; received = t ∷ p.received }

-- `atomic.AddInt64(&p.stats.ActiveWorkers, 1)`; `before` and `after` are the other workers there.
unfoldable pub activate : List Task → Task → List Task → Pool → Pool
activate before t after p = record p {
  received = before ++ after;
  activated = t ∷ p.activated;
  stats = record p.stats { active_workers = p.stats.active_workers + 1 };
}

-- `atomic.AddInt64(&p.stats.QueuedTasks, -1)`
unfoldable pub unqueue : List Task → Task → List Task → Pool → Pool
unqueue before t after p = record p {
  activated = before ++ after;
  running = t ∷ p.running;
  stats = record p.stats { queued_tasks = decrement p.stats.queued_tasks };
}

-- The handler runs, if there is one, and the outcome is counted; `success` is the Success of its
-- result.
unfoldable pub process : Bool → List Task → Task → List Task → Pool → Pool
process success before t after p =
    let done = contains p.handlers t.type && success in
    record p {
      running = before ++ after;
      finishing = p.finishing + 1;
      stats =
          if done
          then record p.stats { completed_tasks = p.stats.completed_tasks + 1 }
          else record p.stats { failed_tasks = p.stats.failed_tasks + 1 };
    }

-- The deferred `atomic.AddInt64(&p.stats.ActiveWorkers, -1)`
unfoldable pub finish : Pool → Pool
finish p = record p {
  finishing = p.finishing - 1;
  waiting = p.waiting + 1;
  stats = record p.stats { active_workers = p.stats.active_workers - 1 };
}

-- A worker returns from its select.
unfoldable pub leave : Pool → Pool
leave p = record p { waiting = p.waiting - 1; returned = p.returned + 1 }

-- The steps, in any order in which their guards allow them. A select takes any case that is
-- ready. A Submit that is refused changes nothing; one that sends on the closed channel panics,
-- which ends the program and is no step.
pub data Step : Pool → Pool → Type 0 where
  sends :
      (t : Task) (p : Pool) → p.closed ≡ false → length p.queue < p.queue_size → Step p (send t p)
  counts_total : (p : Pool) → 0 < p.sent → Step p (count_total p)
  counts_queued : (p : Pool) → 0 < p.totalled → Step p (count_queued p)
  receives :
      (t : Task) (rest : List Task) (p : Pool)
      → p.queue ≡ t ∷ rest
      → 0 < p.waiting
      → Step p (receive t rest p)
  activates :
      (before : List Task) (t : Task) (after : List Task) (p : Pool)
      → p.received ≡ before ++ t ∷ after
      → Step p (activate before t after p)
  unqueues :
      (before : List Task) (t : Task) (after : List Task) (p : Pool)
      → p.activated ≡ before ++ t ∷ after
      → Step p (unqueue before t after p)
  processes :
      (success : Bool) (before : List Task) (t : Task) (after : List Task) (p : Pool)
      → p.running ≡ before ++ t ∷ after
      → Step p (process success before t after p)
  finishes : (p : Pool) → 0 < p.finishing → Step p (finish p)
  registers : (type : String) (p : Pool) → Step p (register_handler type p)
  cancels : (p : Pool) → Step p (record p { cancelled = true })
  closes : (p : Pool) → p.cancelled ≡ true → p.closed ≡ false → Step p (record p { closed = true })
  leaves_cancelled : (p : Pool) → p.cancelled ≡ true → 0 < p.waiting → Step p (leave p)
  leaves_closed : (p : Pool) → p.closed ≡ true → p.queue ≡ [] → 0 < p.waiting → Step p (leave p)

pub data Reachable (p : Pool) : Pool → Type 0 where
  start : Reachable p p
  after_step : (q r : Pool) → Reachable p q → Step q r → Reachable p r

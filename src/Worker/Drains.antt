-- ===== src/Worker/Drains.antt =====
-- That the pool's workers can take every task from the queue.
use photo_core.Base.{
  ℕ, ◌+◌, ◌<◌, ◌≤◌, String, true, false, List, [], ◌∷◌, ◌≡◌, refl, ap, ◌⊎◌, inl, inr, Bool-cases,
  arith, length, eqb,
}
use photo_core.Worker.Laws.{Reachable-IsBalanced}
use photo_core.Worker.{
  Task, Pool, Step, Reachable, start, after_step, receives, activates, unqueues, processes,
  finishes, receive, activate, unqueue, process, finish, new_pool, sends, counts_total,
  counts_queued, registers, cancels, closes, leaves_cancelled, leaves_closed, leave, send,
  count_total, count_queued, register_handler,
}

-- How many tasks have been counted.
unfoldable pub outcomes : Pool → ℕ
outcomes p = p.stats.completed_tasks + p.stats.failed_tasks

pub record CanDrain (p : Pool) : Type 0 where
  pub end : Pool
  pub steps : Reachable p end
  pub empty : end.queue ≡ []
  pub counted : outcomes p + length p.queue ≤ outcomes end

-- A step before a run.
run_behind : (p q r : Pool) → Step p q → Reachable q r → Reachable p r
run_behind p q _ s start = after_step p q start s
run_behind p q _ s (after_step t u run last) = after_step t u (run_behind p q t s run) last

drain_later :
    (p q : Pool) → Step p q → q.queue ≡ p.queue → outcomes p ≤ outcomes q → CanDrain q → CanDrain p
drain_later p q s e more d = record {
  end = d.end;
  steps = run_behind p q d.end s d.steps;
  empty = d.empty;
  counted = omega (arith, d.counted, more, ap length e);
}

-- Runs one behind the other.
joined : (p q r : Pool) → Reachable p q → Reachable q r → Reachable p r
joined p q _ h start = h
joined p q _ h (after_step t u run last) = after_step t u (joined p q t h run) last

handled_pool : Task → List Task → Pool → Pool
handled_pool t rest p = finish (
    process true [] t p.running
      (unqueue [] t p.activated (activate [] t p.received (receive t rest p))))

one_round :
    (t : Task) (rest : List Task) (p : Pool)
    → p.queue ≡ t ∷ rest
    → 0 < p.waiting
    → Reachable p (handled_pool t rest p)
unfolding handled_pool receive activate unqueue process finish
one_round t rest p e free =
    let p₁ = receive t rest p in
    let p₂ = activate [] t p.received p₁ in
    let p₃ = unqueue [] t p.activated p₂ in
    let p₄ = process true [] t p.running p₃ in
    after_step p₄ _
      (after_step p₃ p₄
        (after_step p₂ p₃
          (after_step p₁ p₂ (after_step p p₁ start (receives t rest p e free))
            (activates [] t p.received p₁ refl))
          (unqueues [] t p.activated p₂ refl))
        (processes true [] t p.running p₃ refl))
      (finishes p₄ (omega arith))

from_queue : (tasks : List Task) (p : Pool) → p.queue ≡ tasks → 0 < p.waiting → CanDrain p
unfolding outcomes handled_pool receive activate unqueue process finish
from_queue [] p e free = record {
  end = p;
  steps = start;
  empty = e;
  counted = ground (arith, ap length e);
}
from_queue (t ∷ rest) p e free =
    let q = handled_pool t rest p in
    let d = from_queue rest q refl (omega (arith, free)) in
    record {
      end = d.end;
      steps = joined p q d.end (one_round t rest p e free) d.steps;
      empty = d.empty;
      counted = ground (arith, d.counted, ap length e);
    }

from_waiting : (p : Pool) → 0 < p.waiting → CanDrain p
from_waiting p free = from_queue p.queue p refl free

-- A worker that has a task finishes it first.
from_finishing : (p : Pool) → 0 < p.finishing → CanDrain p
unfolding finish outcomes
from_finishing p busy =
    drain_later p (finish p) (finishes p busy) refl (omega arith)
      (from_waiting (finish p) (omega arith))

from_running : (p : Pool) (t : Task) (rest : List Task) → p.running ≡ t ∷ rest → CanDrain p
unfolding process outcomes
from_running p t rest e =
    let q = process true [] t rest p in
    drain_later p q (processes true [] t rest p e) refl (ground arith)
      (from_finishing q (omega arith))

from_activated : (p : Pool) (t : Task) (rest : List Task) → p.activated ≡ t ∷ rest → CanDrain p
unfolding unqueue outcomes
from_activated p t rest e =
    let q = unqueue [] t rest p in
    drain_later p q (unqueues [] t rest p e) refl (omega arith) (from_running q t p.running refl)

from_received : (p : Pool) (t : Task) (rest : List Task) → p.received ≡ t ∷ rest → CanDrain p
unfolding activate outcomes
from_received p t rest e =
    let q = activate [] t rest p in
    drain_later p q (activates [] t rest p e) refl (omega arith)
      (from_activated q t p.activated refl)

-- A worker returns, and the queue closes, only after Stop.
pub record IsOpen (p : Pool) : Type 0 where
  pub closed : p.closed ≡ true → p.cancelled ≡ true
  pub returned : 0 < p.returned → p.cancelled ≡ true

Step-IsOpen : (p q : Pool) → Step p q → IsOpen p → IsOpen q
unfolding send count_total count_queued receive activate unqueue process finish leave
    register_handler
Step-IsOpen _ _ (sends t p unclosed room) h = record { closed = h.closed; returned = h.returned }
Step-IsOpen _ _ (counts_total p some) h = record { closed = h.closed; returned = h.returned }
Step-IsOpen _ _ (counts_queued p some) h = record { closed = h.closed; returned = h.returned }
Step-IsOpen _ _ (receives t rest p e free) h = record { closed = h.closed; returned = h.returned }
Step-IsOpen _ _ (activates before t after p e) h = record {
  closed = h.closed;
  returned = h.returned;
}
Step-IsOpen _ _ (unqueues before t after p e) h = record {
  closed = h.closed;
  returned = h.returned;
}
Step-IsOpen _ _ (processes success before t after p e) h = record {
  closed = h.closed;
  returned = h.returned;
}
Step-IsOpen _ _ (finishes p some) h = record { closed = h.closed; returned = h.returned }
Step-IsOpen _ _ (registers type p) h = record { closed = h.closed; returned = h.returned }
Step-IsOpen _ _ (cancels p) h = record { closed = λ e. refl; returned = λ e. refl }
Step-IsOpen _ _ (closes p cancelled unclosed) h = record {
  closed = λ e. cancelled;
  returned = h.returned;
}
Step-IsOpen _ _ (leaves_cancelled p cancelled some) h = record {
  closed = h.closed;
  returned = λ e. cancelled;
}
Step-IsOpen _ _ (leaves_closed p closed empty some) h = record {
  closed = h.closed;
  returned = λ e. h.closed closed;
}

Reachable-IsOpen :
    (num_cpu n size : ℕ) (kinds : List String) (p : Pool)
    → Reachable (new_pool num_cpu n size kinds) p
    → IsOpen p
unfolding new_pool
Reachable-IsOpen num_cpu n size kinds _ start = record {
  closed = λ e. ground arith;
  returned = λ e. absurd (omega (arith, e));
}
Reachable-IsOpen num_cpu n size kinds _ (after_step q p r s) =
    Step-IsOpen q p s (Reachable-IsOpen num_cpu n size kinds q r)

list_cases : (l : List Task) → (l ≡ []) ⊎ ((t : Task) × (rest : List Task) × (l ≡ t ∷ rest))
list_cases [] = inl refl
list_cases (t ∷ rest) = inr (t, rest, refl)

some_waits :
    (num_cpu n size : ℕ) (kinds : List String) (p : Pool)
    → Reachable (new_pool num_cpu n size kinds) p
    → p.cancelled ≡ false
    → 0 < p.num_workers
    → length p.received + length p.activated + length p.running + p.finishing ≡ 0
    → 0 < p.waiting
some_waits num_cpu n size kinds p r running some idle =
    let workers = (Reachable-IsBalanced num_cpu n size kinds p r).workers in
    elim (Bool-cases (eqb p.waiting 0)) [
      | inr e ↦ ground arith
      | inl e ↦
          let none_waits : p.waiting ≡ 0 = ground arith in
          let all_left : 0 < p.returned = omega (arith, workers, some, idle, none_waits) in
          absurd (ground (arith, (Reachable-IsOpen num_cpu n size kinds p r).returned all_left))
    ]

-- From every state that a new pool with workers can reach before Stop is called, whatever its
-- submitters and workers are doing, a run leads on to an empty queue, after which at least as many
-- more tasks count as completed or failed as stood in the queue.
pub Reachable-CanDrain :
    (num_cpu n size : ℕ) (kinds : List String) (p : Pool)
    → Reachable (new_pool num_cpu n size kinds) p
    → p.cancelled ≡ false
    → 0 < p.num_workers
    → CanDrain p
Reachable-CanDrain num_cpu n size kinds p r running some = elim (list_cases p.received) [
  | inr (t, rest, e) ↦ from_received p t rest e
  | inl a ↦ elim (list_cases p.activated) [
    | inr (t, rest, e) ↦ from_activated p t rest e
    | inl b ↦ elim (list_cases p.running) [
      | inr (t, rest, e) ↦ from_running p t rest e
      | inl c ↦ elim (Bool-cases (eqb p.finishing 0)) [
        | inr e ↦ from_finishing p (ground arith)
        | inl e ↦
            let done : p.finishing ≡ 0 = ground arith in
            from_waiting p (
              some_waits num_cpu n size kinds p r running some
                (omega (arith, ap length a, ap length b, ap length c, done)))
      ]
    ]
  ]
]

-- ===== src/ThreadPool/Tasks.antt =====
-- Where the tasks of a pool are (src/impl/thread_pool.cpp).
use buildat.Base.{
  ℕ, zero, suc, ◌+◌, ◌≡◌, refl, sym, none, some, List, [], ◌∷◌, ◌++◌, false, if◌then◌else◌, ◌==◌,
  arith, get_elem?, Option-cases, inl, inr,
}
use mathlib.Core.List.{append-nil, append_assoc}
use buildat.ThreadPool.Pool.{
  Task, Place, waiting, woken, running, pushing, exited, Thread, Pool, add_task, grab, step_at,
  step,
}
use buildat.ThreadPool.Totals.{total, total-set}

-- How often tasks with an id stand in a list.
abbrev pub occurrences : ℕ → List Task → ℕ
occurrences id [] = 0
occurrences id (t ∷ ts) = (if t.id == id then 1 else 0) + occurrences id ts

occurrences-append :
    (id : ℕ) (xs ys : List Task) → occurrences id (xs ++ ys) ≡ occurrences id xs + occurrences id ys
occurrences-append id [] ys = omega arith
occurrences-append id (x ∷ xs) ys = omega (arith, occurrences-append id xs ys)

-- The task that a thread works at.
abbrev pub held : Place → List Task
held waiting = []
held woken = []
held (running task calls) = task ∷ []
held (pushing task) = task ∷ []
held exited = []

abbrev pub held_of : ℕ → Thread → ℕ
held_of id w = occurrences id (held w.place)

-- The tasks in a pool: in the input queue, with a thread, in the output queue.
abbrev pub tasks_in : ℕ → Pool → ℕ
tasks_in id s =
    occurrences id s.input_queue + total (held_of id) s.threads + occurrences id s.output_queue

-- What happens to a pool that is not asked to stop: a task is added, or a thread takes its next
-- step, if it has one.
pub data Action : Type 0 where
  adding : Task → Action
  stepping : ℕ → Action

unfoldable pub act : Action → Pool → Pool
act (adding task) s = add_task task s
act (stepping i) s = elim (step i s) [ none ↦ s | some t ↦ t ]

unfoldable pub run : List Action → Pool → Pool
run [] s = s
run (a ∷ as_) s = run as_ (act a s)

abbrev pub added_by : Action → List Task
added_by (adding task) = task ∷ []
added_by (stepping i) = []

-- The tasks added, in order.
abbrev pub added : List Action → List Task
added [] = []
added (a ∷ as_) = added_by a ++ added as_

-- The task that a step takes from the input queue.
abbrev first_of : List Task → List Task
first_of [] = []
first_of (t ∷ ts) = t ∷ []

abbrev pub taken_at : Place → Pool → List Task
taken_at woken s = first_of s.input_queue
taken_at _ s = []

abbrev pub taken_by : Action → Pool → List Task
taken_by (adding task) s = []
taken_by (stepping i) s = elim (get_elem? s.threads i) [ none ↦ [] | some w ↦ taken_at w.place s ]

-- The tasks that the threads begin to work at, in order.
unfoldable pub taken : List Action → Pool → List Task
taken [] s = []
taken (a ∷ as_) s = taken_by a s ++ taken as_ (act a s)

-- Where a step leaves the tasks, and what it takes.
record IsStep (s : Pool) (t : Pool) (task : List Task) : Type 0 where
  kept : (id : ℕ) → tasks_in id t ≡ tasks_in id s
  front : task ++ t.input_queue ≡ s.input_queue

step_at-IsStep :
    (p : Place) (s t : Pool) (i : ℕ) (w : Thread)
    → get_elem? s.threads i ≡ some w
    → w.place ≡ p
    → step_at p i w s ≡ some t
    → IsStep s t (taken_at p s)
unfolding step_at grab
step_at-IsStep waiting s t i w at here h = record {
  kept = λ id. ground (arith, total-set (held_of id) s.threads i w (record w { place = woken }) at);
  front = ground arith;
}
step_at-IsStep woken s t i w at here h = grabbed s.input_queue refl h
  where
    grabbed :
        (l : List Task)
        → s.input_queue ≡ l
        → some (grab i w s) ≡ some t
        → IsStep s t (first_of s.input_queue)
    grabbed [] e h = record {
      kept = λ id. ground (
        arith,
        e,
        total-set (held_of id) s.threads i w (record w { place = waiting }) at,
        total-set (held_of id) s.threads i w (record w { place = exited; running_flag = false }) at,
      );
      front = ground (arith, e);
    }
    grabbed (task ∷ tasks) e h = record {
      kept = λ id. ground (
        arith,
        e,
        total-set (held_of id) s.threads i w (record w { place = running task task.more_calls }) at,
      );
      front = ground (arith, e);
    }
step_at-IsStep (running task (suc calls)) s t i w at here h = record {
  kept = λ id.
      ground
        (arith, total-set (held_of id) s.threads i w (record w { place = running task calls }) at);
  front = ground arith;
}
step_at-IsStep (running task zero) s t i w at here h = record {
  kept = λ id.
      ground (arith, total-set (held_of id) s.threads i w (record w { place = pushing task }) at);
  front = ground arith;
}
step_at-IsStep (pushing task) s t i w at here h = record {
  kept = λ id. ground (
    arith,
    total-set (held_of id) s.threads i w (record w { place = waiting }) at,
    occurrences-append id s.output_queue (task ∷ []),
  );
  front = ground arith;
}
step_at-IsStep exited s t i w at here h = absurd (ground arith)

-- A thread that cannot go on takes no task.
taken_at_stuck :
    (p : Place) (s : Pool) (i : ℕ) (w : Thread) → step_at p i w s ≡ none → taken_at p s ≡ []
unfolding step_at
taken_at_stuck waiting s i w h = refl
taken_at_stuck woken s i w h = absurd cc
taken_at_stuck (running task calls) s i w h = refl
taken_at_stuck (pushing task) s i w h = refl
taken_at_stuck exited s i w h = refl

act-IsStep :
    (a : Action) (s : Pool)
    → ((id : ℕ) → tasks_in id (act a s) ≡ tasks_in id s + occurrences id (added_by a))
      × (taken_by a s ++ (act a s).input_queue ≡ s.input_queue ++ added_by a)
unfolding act add_task step
act-IsStep (adding task) s =
    (λ id. ground (arith, occurrences-append id s.input_queue (task ∷ [])), refl)
act-IsStep (stepping i) s = elim (Option-cases (get_elem? s.threads i)) [
  | inl e ↦ (λ id. ground (arith, e), ground (arith, e, append-nil s.input_queue))
  | inr (w, e) ↦ elim (Option-cases (step_at w.place i w s)) [
    | inl n ↦ (
      λ id. ground (arith, e, n),
      ground (arith, e, n, taken_at_stuck w.place s i w n, append-nil s.input_queue),
    )
    | inr (t, h) ↦
        let v = step_at-IsStep w.place s t i w e refl h in
        (
          λ id. ground (arith, e, h, v.kept id),
          ground (arith, e, h, v.front, append-nil s.input_queue),
        )
  ]
]

tasks_in-run :
    (as_ : List Action) (s : Pool) (id : ℕ)
    → tasks_in id (run as_ s) ≡ tasks_in id s + occurrences id (added as_)
unfolding run
tasks_in-run [] s id = omega arith
tasks_in-run (a ∷ as_) s id = omega (
  arith,
  tasks_in-run as_ (act a s) id,
  (act-IsStep a s).0 id,
  occurrences-append id (added_by a) (added as_),
)

taken-run :
    (as_ : List Action) (s : Pool)
    → taken as_ s ++ (run as_ s).input_queue ≡ s.input_queue ++ added as_
unfolding run taken
taken-run [] s = sym (append-nil s.input_queue)
taken-run (a ∷ as_) s = ground (
  arith,
  taken-run as_ (act a s),
  (act-IsStep a s).1,
  append_assoc (taken_by a s) (taken as_ (act a s)) (run as_ (act a s)).input_queue,
  append_assoc (taken_by a s) (act a s).input_queue (added as_),
  append_assoc s.input_queue (added_by a) (added as_),
)

-- While the pool is not asked to stop, and whatever the order of the calls of add_task() and of its
-- threads' steps, the threads begin to work at tasks in the order in which add_task() got them: the
-- tasks taken, then those still in the input queue, are those that were in it first, then those
-- added. And no task is lost or doubled: what is queued, with a thread or in the output queue
-- afterwards is what was there before and what was added, for each task id as often.
pub run-added :
    (as_ : List Action) (s : Pool)
    → (taken as_ s ++ (run as_ s).input_queue ≡ s.input_queue ++ added as_)
      × ((id : ℕ) → tasks_in id (run as_ s) ≡ tasks_in id s + occurrences id (added as_))
run-added as_ s = (taken-run as_ s, tasks_in-run as_ s)

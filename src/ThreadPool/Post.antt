-- ===== src/ThreadPool/Post.antt =====
-- CThreadPool::run_post() (src/impl/thread_pool.cpp). A call of a task's post() is a reading: what
-- post() returns, the microseconds since run_post() began, and the tasks that threads have put into
-- the output queue meanwhile.
use buildat.Base.{
  ℕ, suc, ◌+◌, ◌-◌, ◌*◌, ◌≤◌, ◌≡◌, refl, ap, Option, none, some, List, [], ◌∷◌, ◌++◌, Bool, true,
  false, if◌then◌else◌, ltb, leb, arith, length, Bool-cases, inl, inr, ◌⊎◌, length-append,
}
use mathlib.Core.List.{append_assoc}
use buildat.ThreadPool.Pool.{Task}

pub record Reading : Type 0 where
  pub done : Bool
  pub elapsed : ℕ
  pub arrived : List Task

-- The tasks that post() was done with, what is left in the queue, and the readings not used.
pub record Posting : Type 0 where
  pub posted : List Task
  pub output_queue : List Task
  pub rest : List Reading

unfoldable pub max_t : ℕ → ℕ
max_t queue_size = if ltb 4 queue_size then 2000 + (queue_size - 4) * 5000 else 2000

abbrev pub with_posted : Task → Option Posting → Option Posting
with_posted task none = none
with_posted task (some r) = some (record r { posted = task ∷ r.posted })

-- Stops for overtime after the call, or is out of tasks.
abbrev pub stopped : Bool → Task → List Task → List Reading → Posting
stopped true task queue rs = record { posted = task ∷ []; output_queue = queue; rest = rs }
stopped false task queue rs = record { posted = []; output_queue = task ∷ queue; rest = rs }

-- The loops, with a task that was popped and the queue behind it. `none`: the readings are used up.
unfoldable pub post_loop : List Reading → Task → ℕ → List Task → Option Posting
post_loop [] task queue_size queue = none
post_loop (r ∷ rs) task queue_size queue = elim (leb (max_t queue_size) r.elapsed) [
  | true ↦ some (stopped r.done task (queue ++ r.arrived) rs)
  | false ↦ elim r.done [
    | false ↦ post_loop rs task queue_size (queue ++ r.arrived)
    | true ↦ elim (queue ++ r.arrived) [
      | [] ↦ some (stopped true task [] rs)
      | next ∷ tasks ↦ with_posted task (post_loop rs next (length (next ∷ tasks)) tasks)
    ]
  ]
]

unfoldable pub run_post : List Reading → List Task → Option Posting
run_post rs [] = some (record { posted = []; output_queue = []; rest = rs })
run_post rs (task ∷ tasks) = post_loop rs task (length (task ∷ tasks)) tasks

abbrev pub arrivals : List Reading → List Task
arrivals [] = []
arrivals (r ∷ rs) = r.arrived ++ arrivals rs

-- Some reading is at or past the time that a queue of that length allows.
abbrev pub HasLate : ℕ → List Reading → Type 0
HasLate bound [] = ⊥
HasLate bound (r ∷ rs) = (max_t bound ≤ r.elapsed) ⊎ HasLate bound rs

-- The outcome is there, and keeps the order of the tasks.
abbrev pub Returns : List Reading → List Task → Option Posting → Type 0
Returns rs queue result =
    (r : Posting) × (result ≡ some r)
    × (queue ++ arrivals rs ≡ r.posted ++ (r.output_queue ++ arrivals r.rest))

max_t-le : (m n : ℕ) → m ≤ n → max_t m ≤ max_t n
unfolding max_t
max_t-le m n h = ground arith

HasLate-le : (rs : List Reading) (m n : ℕ) → m ≤ n → HasLate n rs → HasLate m rs
HasLate-le [] m n h l = l
HasLate-le (r ∷ rs) m n h (inl l) = inl (omega (arith, max_t-le m n h))
HasLate-le (r ∷ rs) m n h (inr l) = inr (HasLate-le rs m n h l)

List-cases : (l : List Task) → (l ≡ []) ⊎ ((x : Task) × (xs : List Task) × (l ≡ x ∷ xs))
List-cases [] = inl refl
List-cases (x ∷ xs) = inr (x, xs, refl)

with_posted-Returns :
    (rs : List Reading) (task : Task) (queue : List Task) (result : Option Posting)
    → Returns rs queue result
    → Returns rs (task ∷ queue) (with_posted task result)
with_posted-Returns rs task queue result (r, e, order) =
    (record r { posted = task ∷ r.posted }, ap (with_posted task) e, ap (λ l. task ∷ l) order)

-- The loop with the next call's reading, from the same loop with the readings after it.
post_loop-Returns :
    (rs : List Reading) (task : Task) (queue_size : ℕ) (queue : List Task)
    → queue_size ≤ suc (length queue)
    → HasLate (suc (length queue) + length (arrivals rs)) rs
    → Returns rs (task ∷ queue) (post_loop rs task queue_size queue)
unfolding post_loop
post_loop-Returns [] task queue_size queue fits late = absurd late
post_loop-Returns (r ∷ rs) task queue_size queue fits late =
    elim (Bool-cases (leb (max_t queue_size) r.elapsed)) [
      | inl over ↦
          (stopped r.done task (queue ++ r.arrived) rs, ground (arith, over), overtime r.done)
      | inr in_time ↦
          let later = in_rest in_time late in
          elim (Bool-cases r.done) [
            | inr not_done ↦
                let (o, e, order) =
                  post_loop-Returns rs task queue_size (queue ++ r.arrived)
                    (omega (arith, length-append queue r.arrived))
                    (HasLate-le rs _ _
                      (omega (
                        arith,
                        length-append queue r.arrived,
                        length-append r.arrived (arrivals rs),
                      ))
                      later) in
                (
                  o,
                  ground (arith, in_time, not_done, e),
                  ground (arith, order, append_assoc queue r.arrived (arrivals rs)),
                )
            | inl is_done ↦ elim (List-cases (queue ++ r.arrived)) [
              | inl e ↦ (
                stopped true task [] rs,
                ground (arith, in_time, is_done, e),
                ground (arith, e, append_assoc queue r.arrived (arrivals rs)),
              )
              | inr (next, tasks, e) ↦
                  let (o, f, order) = with_posted-Returns rs task (next ∷ tasks) _ (
                    post_loop-Returns rs next (length (next ∷ tasks)) tasks (omega arith) (
                      HasLate-le rs _ _
                        (omega (
                          arith,
                          length-append queue r.arrived,
                          ap length e,
                          length-append r.arrived (arrivals rs),
                        ))
                        later)) in
                  (
                    o,
                    ground (arith, in_time, is_done, e, f),
                    ground (arith, order, e, append_assoc queue r.arrived (arrivals rs)),
                  )
            ]
          ]
    ]
  where
    overtime :
        (done : Bool)
        → task ∷ queue ++ (r.arrived ++ arrivals rs)
          ≡ (stopped done task (queue ++ r.arrived) rs).posted
            ++ ((stopped done task (queue ++ r.arrived) rs).output_queue
                ++ arrivals (stopped done task (queue ++ r.arrived) rs).rest)
    overtime true = ground (arith, append_assoc queue r.arrived (arrivals rs))
    overtime false = ground (arith, append_assoc queue r.arrived (arrivals rs))

    in_rest :
        leb (max_t queue_size) r.elapsed ≡ false
        → HasLate (suc (length queue) + length (arrivals (r ∷ rs))) (r ∷ rs)
        → HasLate (suc (length queue) + length (arrivals (r ∷ rs))) rs
    in_rest in_time (inl l) = ground (
      arith,
      in_time,
      l,
      fits,
      max_t-le queue_size (suc (length queue) + length (arrivals (r ∷ rs))),
    )
    in_rest in_time (inr l) = l

-- When some call of post() ends at or past the time that run_post() allows for the tasks in the
-- output queue and all that come in meanwhile, run_post() returns, and then the tasks that post() was
-- done with, followed by the tasks left in the queue, are those that were in the queue, followed by
-- those that threads put there meanwhile, in the same order: a task that is not done stays first.
pub run_post-append :
    (rs : List Reading) (queue : List Task)
    → HasLate (length queue + length (arrivals rs)) rs
    → (r : Posting) × (run_post rs queue ≡ some r)
      × (queue ++ arrivals rs ≡ r.posted ++ (r.output_queue ++ arrivals r.rest))
unfolding run_post
run_post-append rs [] late = (_, refl, refl)
run_post-append rs (task ∷ tasks) late =
    post_loop-Returns rs task (length (task ∷ tasks)) tasks (omega arith) late

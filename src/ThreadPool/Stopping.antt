-- ===== src/ThreadPool/Stopping.antt =====
-- What request_stop() brings about (src/impl/thread_pool.cpp).
use buildat.Base.{
  ℕ, zero, suc, ◌+◌, ◌-◌, ◌≤◌, ◌<◌, ◌≡◌, refl, sym, ap, ◌∙◌, some, List, [], ◌∷◌, map, true, false,
  arith, length, get_elem?, set, Bool-cases, Option-cases, ◌⊎◌, inl, inr,
}
use buildat.ThreadPool.Pool.{
  Place, waiting, woken, running, pushing, exited, Thread, Pool, ask_to_stop, request_stop, grab,
  step_at, step, is_exited, all_exited, join,
}
use buildat.ThreadPool.Totals.{total, total-set, total-le, get_elem?-set_cases}

-- How many steps a thread can still take.
abbrev pub steps_left : Place → ℕ
steps_left waiting = 2
steps_left woken = 1
steps_left (running task calls) = calls + 4
steps_left (pushing task) = 3
steps_left exited = 0

-- Whether it has yet to be woken once more.
abbrev pub to_wake : Place → ℕ
to_wake waiting = 1
to_wake woken = 0
to_wake (running task calls) = 1
to_wake (pushing task) = 1
to_wake exited = 0

abbrev pub left_of : Thread → ℕ
left_of w = steps_left w.place

abbrev pub wake_of : Thread → ℕ
wake_of w = to_wake w.place

-- A pool that stops: no task is left to take, every thread was asked to stop, and each that has to
-- be woken finds a count of the semaphore.
record IsStopping (s : Pool) : Type 0 where
  no_input : s.input_queue ≡ []
  asked : (i : ℕ) (w : Thread) → get_elem? s.threads i ≡ some w → w.stop_requested ≡ true
  poked : total wake_of s.threads ≤ s.tasks_sem

asked-map :
    (ws : List Thread) (i : ℕ) (w : Thread)
    → get_elem? (map ask_to_stop ws) i ≡ some w
    → w.stop_requested ≡ true
asked-map [] i w h = absurd cc
asked-map (x ∷ ws) zero w h = ground arith
asked-map (x ∷ ws) (suc i) w h = asked-map ws i w h

wake-le-length : (ws : List Thread) → total wake_of (map ask_to_stop ws) ≤ length ws
wake-le-length [] = omega arith
wake-le-length (w ∷ ws) = omega (arith, one w.place, wake-le-length ws)
  where
    one : (p : Place) → to_wake p ≤ 1
    one waiting = omega arith
    one woken = omega arith
    one (running task calls) = omega arith
    one (pushing task) = omega arith
    one exited = omega arith

request_stop-IsStopping : (s : Pool) → IsStopping (request_stop s)
unfolding request_stop
request_stop-IsStopping s = record {
  no_input = refl;
  asked = asked-map s.threads;
  poked = omega (arith, wake-le-length s.threads);
}

-- A thread of a pool that stops is replaced.
replaced :
    (s t : Pool) (i : ℕ) (w w' : Thread)
    → IsStopping s
    → get_elem? s.threads i ≡ some w
    → w'.stop_requested ≡ w.stop_requested
    → t.input_queue ≡ []
    → t.threads ≡ set s.threads i w'
    → wake_of w' + s.tasks_sem ≤ wake_of w + t.tasks_sem
    → left_of w' < left_of w
    → IsStopping t × (total left_of t.threads < total left_of s.threads)
replaced s t i w w' v at same none_left there wake less = (
  record {
    no_input = none_left;
    asked = λ j x e.
        elim (get_elem?-set_cases s.threads i j w' x (ap (λ l. get_elem? l j) (sym there) ∙ e)) [
          | inl new ↦ sym (ap (λ x. x.stop_requested) new) ∙ same ∙ v.asked i w at
          | inr old ↦ v.asked j x old
        ];
    poked = omega (
      arith,
      total-set wake_of s.threads i w w' at,
      ap (total wake_of) there,
      v.poked,
      total-le wake_of s.threads i w at,
    );
  },
  omega (arith, total-set left_of s.threads i w w' at, ap (total left_of) there),
)

step_at-IsStopping :
    (p : Place) (s t : Pool) (i : ℕ) (w : Thread)
    → IsStopping s
    → get_elem? s.threads i ≡ some w
    → w.place ≡ p
    → step_at p i w s ≡ some t
    → IsStopping t × (total left_of t.threads < total left_of s.threads)
unfolding step_at grab
step_at-IsStopping waiting s t i w v at here h =
    replaced s t i w (record w { place = woken }) v at refl (ground (arith, v.no_input))
      (ground arith) (ground arith) (ground arith)
step_at-IsStopping woken s t i w v at here h =
    replaced s t i w (record w { place = exited; running_flag = false }) v at refl
      (ground (arith, v.no_input, v.asked i w at)) (ground (arith, v.no_input, v.asked i w at))
      (ground (arith, v.no_input, v.asked i w at)) (ground arith)
step_at-IsStopping (running task (suc calls)) s t i w v at here h =
    replaced s t i w (record w { place = running task calls }) v at refl
      (ground (arith, v.no_input)) (ground arith) (ground arith) (ground arith)
step_at-IsStopping (running task zero) s t i w v at here h =
    replaced s t i w (record w { place = pushing task }) v at refl (ground (arith, v.no_input))
      (ground arith) (ground arith) (ground arith)
step_at-IsStopping (pushing task) s t i w v at here h =
    replaced s t i w (record w { place = waiting }) v at refl (ground (arith, v.no_input))
      (ground arith) (ground arith) (ground arith)
step_at-IsStopping exited s t i w v at here h = absurd (ground arith)

step-IsStopping :
    (s t : Pool) (i : ℕ)
    → IsStopping s
    → step i s ≡ some t
    → IsStopping t × (total left_of t.threads < total left_of s.threads)
unfolding step
step-IsStopping s t i v h = elim (Option-cases (get_elem? s.threads i)) [
  | inl e ↦ absurd (ground arith)
  | inr (w, e) ↦ step_at-IsStopping w.place s t i w v e refl (ground arith)
]

-- A thread that has not exited.
alive :
    (ws : List Thread)
    → all_exited ws ≡ false
    → (i : ℕ) × (w : Thread) × (get_elem? ws i ≡ some w) × (is_exited w.place ≡ false)
unfolding all_exited
alive [] h = absurd cc
alive (w ∷ ws) h = elim (Bool-cases (is_exited w.place)) [
  | inr not_yet ↦ (0, w, refl, not_yet)
  | inl done ↦ let (i, x, e, f) = alive ws (ground arith) in (suc i, x, e, f)
]

moves :
    (p : Place) (s : Pool) (i : ℕ) (w : Thread)
    → is_exited p ≡ false
    → to_wake p ≤ s.tasks_sem
    → (t : Pool) × (step_at p i w s ≡ some t)
unfolding step_at
moves waiting s i w h enough = (
  record s { tasks_sem = s.tasks_sem - 1; threads = set s.threads i (record w { place = woken }) },
  ground arith,
)
moves woken s i w h enough = (_, refl)
moves (running task (suc calls)) s i w h enough = (_, refl)
moves (running task zero) s i w h enough = (_, refl)
moves (pushing task) s i w h enough = (_, refl)
moves exited s i w h enough = absurd cc

-- While a thread has not exited, some thread can go on.
can_go_on :
    (s : Pool)
    → IsStopping s
    → all_exited s.threads ≡ false
    → (i : ℕ) × (t : Pool) × (step i s ≡ some t)
unfolding step
can_go_on s v h =
    let (i, w, e, not_yet) = alive s.threads h in
    let (t, goes) =
      moves w.place s i w not_yet (omega (arith, total-le wake_of s.threads i w e, v.poked)) in
    (i, t, ground (arith, goes, e))

-- A number of steps of the threads, in any order.
pub data Runs (s : Pool) : ℕ → Pool → Type 0 where
  stay : Runs s 0 s
  then_step : {n : ℕ} {t u : Pool} → (i : ℕ) → Runs s n t → step i t ≡ some u → Runs s (suc n) u

Runs-IsStopping :
    {s t : Pool} {n : ℕ}
    → IsStopping s
    → Runs s n t
    → IsStopping t × (n + total left_of t.threads ≤ total left_of s.threads)
Runs-IsStopping v stay = (v, omega arith)
Runs-IsStopping v (then_step {n} {t} {u} i r h) =
    let (v', bound) = Runs-IsStopping v r in
    let (v'', less) = step-IsStopping t u i v' h in (v'', omega arith)

-- After request_stop(), and with no task added since, however the threads take turns: they take
-- no more steps than are left in them, which is at most 4 and the outstanding calls of thread() for
-- each; and as long as join() would wait, some thread can take a step. So join() returns.
pub request_stop-join :
    (s t : Pool) (n : ℕ)
    → Runs (request_stop s) n t
    → (n ≤ total left_of (request_stop s).threads)
      × (((i : ℕ) × (u : Pool) × (step i t ≡ some u)) ⊎ (join t ≡ some (record t { threads = [] })))
unfolding join
request_stop-join s t n r =
    let (v, bound) = Runs-IsStopping (request_stop-IsStopping s) r in
    (
      omega arith,
      elim (Bool-cases (all_exited t.threads)) [
        | inl done ↦ inr (ground arith)
        | inr not_yet ↦ inl (can_go_on t v not_yet)
      ],
    )

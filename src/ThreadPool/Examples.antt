-- ===== src/ThreadPool/Examples.antt =====
-- The thread pool on concrete tasks and threads (src/impl/thread_pool.cpp).
use buildat.Base.{
  ℕ, ◌+◌, ◌≤◌, ◌≡◌, refl, some, List, [], ◌∷◌, ◌++◌, true, false, ◌⊎◌, inl, inr, arith,
}
use buildat.ThreadPool.Pool.{
  Task, Pool, Place, waiting, running, thread_pool, add_task, start, request_stop, grab, step_at,
  step, join,
}
use buildat.ThreadPool.Totals.{total}
use buildat.ThreadPool.Stopping.{left_of, Runs, stay, then_step, request_stop-join}
use buildat.ThreadPool.Tasks.{
  Action, adding, stepping, act, run, added, occurrences, tasks_in, taken, run-added,
}
use buildat.ThreadPool.Post.{max_t, Reading, Posting, run_post, arrivals, run_post-append}

abbrev short_task : Task
short_task = record { id = 1; more_calls = 0 }

abbrev long_task : Task
long_task = record { id = 2; more_calls = 2 }

-- Two threads; one works at a task, and one waits.
abbrev busy_pool : Pool
busy_pool = record {
  input_queue = short_task ∷ [];
  output_queue = [];
  tasks_sem = 1;
  threads =
      record { stop_requested = false; running_flag = true; place = running long_task 1 }
      ∷ record { stop_requested = false; running_flag = true; place = waiting }
      ∷ [];
}

-- The thread that waits is woken, finds no task and exits.
abbrev one_exited : Pool
one_exited = record {
  input_queue = [];
  output_queue = [];
  tasks_sem = 2;
  threads =
      record { stop_requested = true; running_flag = true; place = running long_task 1 }
      ∷ record { stop_requested = true; running_flag = false; place = Place.exited }
      ∷ [];
}

one_exited-Runs : Runs (request_stop busy_pool) 2 one_exited
unfolding request_stop step step_at grab
one_exited-Runs = then_step 1 (then_step 1 stay refl) refl

request_stop-join_example :
    (2 ≤ total left_of (request_stop busy_pool).threads)
    × (((i : ℕ) × (u : Pool) × (step i one_exited ≡ some u))
        ⊎ (join one_exited ≡ some (record one_exited { threads = [] })))
request_stop-join_example = request_stop-join busy_pool one_exited 2 one_exited-Runs

abbrev actions : List Action
actions =
    adding short_task
    ∷ adding long_task
    ∷ stepping 0
    ∷ stepping 1
    ∷ stepping 1
    ∷ stepping 0
    ∷ stepping 1
    ∷ adding short_task
    ∷ []

abbrev started : Pool
started = start 2 thread_pool

-- The second thread takes the first task, since it is the first to look into the queue.
first_tasks : taken actions started ≡ short_task ∷ long_task ∷ []
unfolding taken run act add_task step start step_at grab
first_tasks = refl

run-added_example :
    (taken actions started ++ (run actions started).input_queue
      ≡ started.input_queue ++ added actions)
    × ((id : ℕ)
        → tasks_in id (run actions started) ≡ tasks_in id started + occurrences id (added actions))
run-added_example = run-added actions started

-- The first call is not done; the second is, and the third, of the next task, ends too late.
abbrev readings : List Reading
readings =
    record { done = false; elapsed = 100; arrived = short_task ∷ [] }
    ∷ record { done = true; elapsed = 1500; arrived = [] }
    ∷ record { done = false; elapsed = 2100; arrived = long_task ∷ [] }
    ∷ []

abbrev output_tasks : List Task
output_tasks = long_task ∷ short_task ∷ []

run_post-append_example :
    (r : Posting) × (run_post readings output_tasks ≡ some r)
    × (output_tasks ++ arrivals readings ≡ r.posted ++ (r.output_queue ++ arrivals r.rest))
unfolding max_t
run_post-append_example = run_post-append readings output_tasks (inr (inr (inl (omega arith))))

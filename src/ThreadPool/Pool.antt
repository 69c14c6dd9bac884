-- ===== src/ThreadPool/Pool.antt =====
-- CThreadPool (src/impl/thread_pool.cpp). What a thread does under a mutex is one step, and so is
-- each call of thread(); the step that ends its loop also sets `running` to false and exits. Which
-- thread goes on next is open. A task is module code: what is known of it is how often its thread()
-- is called before it returns true or throws, which is handled alike.
use buildat.Base.{
  ℕ, zero, suc, ◌+◌, Option, none, some, List, [], ◌∷◌, ◌++◌, map, Bool, true, false, if◌then◌else◌,
  length, get_elem?, set, replicate,
}

-- `more_calls`: the calls of thread() that return false.
pub record Task : Type 0 where
  pub id : ℕ
  pub more_calls : ℕ

-- Where a worker stands in run_thread().
pub data Place : Type 0 where
  waiting : Place  -- m_tasks_sem.wait()
  woken : Place  -- before it looks into the input queue
  running : Task → ℕ → Place  -- before a call of thread(); how many return false
  pushing : Task → Place  -- before it locks the pool for the output queue
  exited : Place

-- The thread as the pool sees it, and where it stands.
pub record Thread : Type 0 where
  pub stop_requested : Bool
  pub running_flag : Bool
  pub place : Place

pub record Pool : Type 0 where
  pub input_queue : List Task
  pub output_queue : List Task
  pub tasks_sem : ℕ
  pub threads : List Thread

abbrev pub thread_pool : Pool
thread_pool = record { input_queue = []; output_queue = []; tasks_sem = 0; threads = [] }

-- add_task(), after the loop over pre().
unfoldable pub add_task : Task → Pool → Pool
add_task task s = record s { input_queue = s.input_queue ++ task ∷ []; tasks_sem = suc s.tasks_sem }

abbrev pub new_thread : Thread
new_thread = record { stop_requested = false; running_flag = true; place = waiting }

-- start(), when the system gives all the threads.
unfoldable pub start : ℕ → Pool → Pool
start num_threads s = elim s.threads [
  | [] ↦ record s { threads = replicate num_threads new_thread }
  | _ ∷ _ ↦ s
]

abbrev pub ask_to_stop : Thread → Thread
ask_to_stop w = record w { stop_requested = true }

unfoldable pub request_stop : Pool → Pool
request_stop s = record s {
  input_queue = [];
  threads = map ask_to_stop s.threads;
  tasks_sem = s.tasks_sem + length s.threads;
}

-- A worker has been woken: it takes a task, stops, or waits again.
unfoldable pub grab : ℕ → Thread → Pool → Pool
grab i w s = elim s.input_queue [
  | [] ↦
      if w.stop_requested
      then record s {
        threads = set s.threads i (record w { place = exited; running_flag = false });
      }
      else record s { threads = set s.threads i (record w { place = waiting }) }
  | task ∷ tasks ↦ record s {
    input_queue = tasks;
    threads = set s.threads i (record w { place = running task task.more_calls });
  }
]

-- The next step of the worker `i`, which stands at the place. `none`: it cannot go on.
unfoldable pub step_at : Place → ℕ → Thread → Pool → Option Pool
step_at waiting i w s = elim s.tasks_sem [
  | zero ↦ none
  | suc n ↦
      some (record s { tasks_sem = n; threads = set s.threads i (record w { place = woken }) })
]
step_at woken i w s = some (grab i w s)
step_at (running task (suc calls)) i w s =
    some (record s { threads = set s.threads i (record w { place = running task calls }) })
step_at (running task zero) i w s =
    some (record s { threads = set s.threads i (record w { place = pushing task }) })
step_at (pushing task) i w s = some (record s {
  output_queue = s.output_queue ++ task ∷ [];
  threads = set s.threads i (record w { place = waiting });
})
step_at exited i w s = none

unfoldable pub step : ℕ → Pool → Option Pool
step i s = elim (get_elem? s.threads i) [ none ↦ none | some w ↦ step_at w.place i w s ]

abbrev pub is_exited : Place → Bool
is_exited exited = true
is_exited _ = false

-- join() returns when every thread has exited; it clears the list.
unfoldable pub all_exited : List Thread → Bool
all_exited [] = true
all_exited (w ∷ ws) = if is_exited w.place then all_exited ws else false

unfoldable pub join : Pool → Option Pool
join s = if all_exited s.threads then some (record s { threads = [] }) else none

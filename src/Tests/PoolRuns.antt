-- ===== src/Tests/PoolRuns.antt =====
-- The thread pool at a sample run: one piece of work, the shutdown, and a worker that returns.
use avar.Base.{[], arith, false, refl, true, ℕ, ◌∷◌, ◌≡◌}
use avar.ThreadPool.{
  ThreadPool, Reachable, created, after, at_start, begin_destroy, destroys, submits,
  thread_pool_submit, worker_round, works,
}
use avar.ThreadPool.Draining.{IsConsistent, Reachable-IsConsistent, returned-started}

abbrev finished : ThreadPool ℕ
finished = record {
  queue = [];
  shutdown = true;
  submitted = 5 ∷ [];
  started = 5 ∷ [];
  returned = 1;
}

finished-Reachable : Reachable finished
unfolding created thread_pool_submit begin_destroy worker_round
finished-Reachable =
    let submitted = (thread_pool_submit created 5).1 in
    let shut = begin_destroy submitted in
    let taken = (worker_round shut).1 in
    after (after (after (after at_start (submits created 5)) (destroys submitted)) (works shut))
      (works taken)

refused_run : (thread_pool_submit finished 6).0 ≡ false
unfolding thread_pool_submit
refused_run = refl

Reachable-IsConsistent_example : IsConsistent finished
Reachable-IsConsistent_example = Reachable-IsConsistent finished-Reachable

returned-started_example : finished.started ≡ finished.submitted
returned-started_example = returned-started finished-Reachable (omega arith)

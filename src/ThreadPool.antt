-- ===== src/ThreadPool.antt =====
-- src/thread_pool.c: the queue of work and what its workers and clients do to it. What runs under the
-- lock of the pool is one step; the list from `head` to `tail` is a list.
pub mod Draining
use avar.Base.{Bool, List, Option, [], false, if◌then◌else◌, none, some, true, ℕ, ◌++◌, ◌+◌, ◌∷◌}

-- The pool, with three things that only this model records: the work that was accepted, the work that
-- workers took, and how many workers have returned.
pub record ThreadPool {ℓ} (W : Type ℓ) : Type ℓ where
  pub queue : List W
  pub shutdown : Bool
  pub submitted : List W
  pub started : List W
  pub returned : ℕ

-- What a worker does after its turn under the lock.
pub data Turn {ℓ} (W : Type ℓ) : Type ℓ where
  wait : Turn W
  leave : Turn W
  run : W → Turn W

module _ {ℓ} {W : Type ℓ} where
  unfoldable pub thread_pool_push_locked : ThreadPool W → W → ThreadPool W
  thread_pool_push_locked pool work = record pool {
    queue = pool.queue ++ work ∷ [];
    submitted = pool.submitted ++ work ∷ [];
  }

  unfoldable pub thread_pool_pop_locked : ThreadPool W → Option W × ThreadPool W
  thread_pool_pop_locked pool = elim pool.queue [
    | [] ↦ (none, pool)
    | work ∷ rest ↦ (some work, record pool { queue = rest; started = pool.started ++ work ∷ [] })
  ]

  -- `task` is not NULL, and there is memory for the entry.
  unfoldable pub thread_pool_submit : ThreadPool W → W → Bool × ThreadPool W
  unfolding thread_pool_push_locked
  thread_pool_submit pool work =
      if pool.shutdown then (false, pool) else (true, thread_pool_push_locked pool work)

  -- A round of the loop of `thread_pool_worker`.
  unfoldable pub worker_round : ThreadPool W → Turn W × ThreadPool W
  unfolding thread_pool_pop_locked
  worker_round pool = elim (thread_pool_pop_locked pool).0 [
    | some work ↦ (run work, (thread_pool_pop_locked pool).1)
    | none ↦
        if pool.shutdown
        then (leave, record pool { returned = pool.returned + 1 })
        else (wait, pool)
  ]

  -- The first thing that `thread_pool_destroy` does.
  unfoldable pub begin_destroy : ThreadPool W → ThreadPool W
  begin_destroy pool = record pool { shutdown = true }

  -- The pool that `thread_pool_create` leaves.
  unfoldable pub created : ThreadPool W
  created = record { queue = []; shutdown = false; submitted = []; started = []; returned = 0 }

-- The steps of clients, of workers and of the thread that destroys the pool, in any order.
pub data Step {ℓ} {W : Type ℓ} : ThreadPool W → ThreadPool W → Type ℓ where
  submits : (pool : ThreadPool W) (work : W) → Step pool (thread_pool_submit pool work).1
  works : (pool : ThreadPool W) → Step pool (worker_round pool).1
  destroys : (pool : ThreadPool W) → Step pool (begin_destroy pool)

pub data Reachable {ℓ} {W : Type ℓ} : ThreadPool W → Type ℓ where
  at_start : Reachable created
  after : {pool next : ThreadPool W} → Reachable pool → Step pool next → Reachable next

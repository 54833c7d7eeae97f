-- ===== src/ThreadPool/Draining.antt =====
-- Work is taken in the order in which it came, and none is left when a worker returns.
use mathlib.Core.Bool.{false≢true}
use avar.Base.{
  Bool, List, [], ap, append_assoc, append_nil, arith, false, inl, inr, refl, sym, true, ◌++◌, ◌<◌,
  ◌∙◌, ◌∷◌, ◌≡◌, ◌⊎◌,
}
use avar.ThreadPool.{
  ThreadPool, Reachable, Step, after, at_start, begin_destroy, created, destroys, submits,
  thread_pool_pop_locked, thread_pool_submit, worker_round, works,
}

module _ {ℓ} {W : Type ℓ} where
  -- What holds of the pool between two steps.
  pub record IsConsistent (pool : ThreadPool W) : Type ℓ where
    pub in_order : pool.submitted ≡ pool.started ++ pool.queue
    pub drained : pool.returned ≡ 0 ⊎ ((pool.shutdown ≡ true) × (pool.queue ≡ []))

  abbrev holds_some : List W → Bool
  holds_some [] = false
  holds_some (w ∷ ws) = true

  abbrev with_queue : ThreadPool W → List W → Bool → ThreadPool W
  with_queue pool queue shutdown = record pool { queue = queue; shutdown = shutdown }

  submit_case :
      (pool : ThreadPool W) (work : W) (shutdown : Bool)
      → IsConsistent (with_queue pool pool.queue shutdown)
      → IsConsistent (thread_pool_submit (with_queue pool pool.queue shutdown) work).1
  unfolding thread_pool_submit
  submit_case pool work true v = v
  submit_case pool work false v = record {
    in_order =
        ap (λ ws. ws ++ work ∷ []) v.in_order ∙ append_assoc pool.started pool.queue (work ∷ []);
    drained = elim v.drained [
      | inl none_returned ↦ inl none_returned
      | inr (shut, empty) ↦ absurd (false≢true shut)
    ];
  }

  round_case :
      (pool : ThreadPool W) (queue : List W) (shutdown : Bool)
      → IsConsistent (with_queue pool queue shutdown)
      → IsConsistent (worker_round (with_queue pool queue shutdown)).1
  unfolding worker_round thread_pool_pop_locked
  round_case pool [] true v = record { in_order = v.in_order; drained = inr (refl, refl) }
  round_case pool [] false v = v
  round_case pool (work ∷ queue) shutdown v = record {
    in_order = v.in_order ∙ sym (append_assoc pool.started (work ∷ []) queue);
    drained = elim v.drained [
      | inl none_returned ↦ inl none_returned
      | inr (shut, empty) ↦ absurd (false≢true (ap holds_some (sym empty)))
    ];
  }

  Step-IsConsistent :
      {pool next : ThreadPool W} → Step pool next → IsConsistent pool → IsConsistent next
  unfolding begin_destroy
  Step-IsConsistent (submits pool work) v = submit_case pool work pool.shutdown v
  Step-IsConsistent (works pool) v = round_case pool pool.queue pool.shutdown v
  Step-IsConsistent (destroys pool) v = record {
    in_order = v.in_order;
    drained = elim v.drained [
      | inl none_returned ↦ inl none_returned
      | inr (shut, empty) ↦ inr (refl, empty)
    ];
  }

  -- In every state that the steps of clients, workers and the destroying thread reach, the
  -- accepted work is the taken work followed by the queue, and either no worker has returned
  -- or the pool is shut down with an empty queue.
  pub Reachable-IsConsistent : {pool : ThreadPool W} → Reachable pool → IsConsistent pool
  unfolding created
  Reachable-IsConsistent at_start = record { in_order = refl; drained = inl refl }
  Reachable-IsConsistent (after r s) = Step-IsConsistent s (Reachable-IsConsistent r)

  -- In every state that the steps of clients, workers and the destroying thread reach, once a
  -- worker has returned, the work that workers took is exactly the accepted work, in the order
  -- in which it was accepted.
  pub returned-started :
      {pool : ThreadPool W} → Reachable pool → 0 < pool.returned → pool.started ≡ pool.submitted
  returned-started {pool} r pos =
      let v = Reachable-IsConsistent r in
      elim v.drained [
        | inl none_returned ↦ absurd (omega arith)
        | inr (shut, empty) ↦
            sym (v.in_order ∙ ap (λ q. pool.started ++ q) empty ∙ append_nil pool.started)
      ]

-- ===== src/Queue/Dispatch/Limit.antt =====
-- How many downloads `queue_dispatch` starts.
use avar.Base.{
  Bool, Bool-cases, Option-cases, [], arith, if◌then◌else◌, inl, inr, length, length-append, ltb,
  not, refl, suc, zero, ℕ, ◌&&◌, ◌+◌, ◌-◌, ◌||◌, ◌∷◌, ◌≡◌, ◌≤◌, ◌⊎◌,
}
use avar.Proxy.{is_empty}
use avar.Config.Arrays.{get_config_array_size}
use avar.Queue.Dispatch.{
  Dispatched, count_active, in_queue, queue_dispatch, queue_max_concurrent, start_at, start_from,
  status_at, queue_is_started, startable,
}
use avar.Queue.{items_key, text_is}
use avar.CString.{Text, lit}
use avar.Cjson.{Cjson}
use avar.Config.{Config}

module _ ⦃cj : Cjson⦄ where
  -- How many of the items from an index on are downloads of the queue in progress.
  abbrev pub downloading : ℕ → Config → Text → ℕ → ℕ
  downloading zero config queue_id i = 0
  downloading (suc rounds) config queue_id i =
      let rest = downloading rounds config queue_id (i + 1) in
      if in_queue config queue_id i && text_is (lit "downloading") (status_at config i)
      then rest + 1
      else rest

  -- The first loop stops where it reaches the limit.
  count_active-downloading :
      (max_concurrent rounds : ℕ) (config : Config) (queue_id : Text) (i active : ℕ)
      → active ≤ max_concurrent
      → (count_active max_concurrent rounds config queue_id i active ≤ max_concurrent)
        × ((count_active max_concurrent rounds config queue_id i active ≡ max_concurrent)
            ⊎ (count_active max_concurrent rounds config queue_id i active
                ≡ active + downloading rounds config queue_id i))
  unfolding count_active
  count_active-downloading max_concurrent zero config queue_id i active h = (h, inr (omega arith))
  count_active-downloading max_concurrent (suc rounds) config queue_id i active h =
      let c = in_queue config queue_id i && text_is (lit "downloading") (status_at config i) in
      elim (Bool-cases (ltb active max_concurrent)) [
        | inr full ↦ ground (arith, full, h)
        | inl room ↦ elim (Bool-cases c) [
          | inl here ↦
              let rest =
                count_active-downloading max_concurrent rounds config queue_id (i + 1) (active + 1)
                  (ground (arith, room)) in
              ground (arith, room, here, rest)
          | inr other ↦
              let rest =
                count_active-downloading max_concurrent rounds config queue_id (i + 1) active h in
              ground (arith, room, other, rest)
        ]
      ]

  module _ (start_scheduled : Config → Text → Bool × Config) where
    start_at-active :
        (d : Dispatched) (queue_id : Text) (i : ℕ)
        → let d' = start_at start_scheduled d queue_id i in
          (d'.active ≤ d.active + 1) × (d'.active + length d.started ≡ d.active + length d'.started)
    unfolding start_at
    start_at-active d queue_id i = elim (Option-cases (startable d.config queue_id i)) [
      | inl e ↦ ground (arith, e)
      | inr (id, e) ↦ ground (arith, e, length-append d.started (id ∷ []))
    ]

    start_from-active :
        (max_concurrent rounds : ℕ) (d : Dispatched) (queue_id : Text) (i : ℕ)
        → d.active ≤ max_concurrent
        → let d' = start_from start_scheduled max_concurrent rounds d queue_id i in
          (d'.active ≤ max_concurrent)
          × (d'.active + length d.started ≡ d.active + length d'.started)
    unfolding start_from
    start_from-active max_concurrent zero d queue_id i h = (h, refl)
    start_from-active max_concurrent (suc rounds) d queue_id i h =
        elim (Bool-cases (ltb d.active max_concurrent)) [
          | inr full ↦ ground (arith, full, h)
          | inl room ↦
              let here = start_at-active d queue_id i in
              let rest =
                start_from-active max_concurrent rounds (start_at start_scheduled d queue_id i)
                  queue_id (i + 1) (ground (arith, room, here)) in
              ground (arith, room, here, rest)
        ]

    -- queue_dispatch starts at most as many downloads as the limit of the queue exceeds its
    -- downloads in progress, whatever download_start_scheduled does to the configuration.
    pub length-queue_dispatch :
        (config : Config) (queue_id : Text)
        → length (queue_dispatch start_scheduled config queue_id).started
          ≤ queue_max_concurrent config queue_id
            - downloading (get_config_array_size config items_key) config queue_id 0
    unfolding queue_dispatch
    length-queue_dispatch config queue_id =
        let max_concurrent = queue_max_concurrent config queue_id in
        let count = get_config_array_size config items_key in
        let first =
          count_active-downloading max_concurrent count config queue_id 0 0 (omega arith) in
        let active = count_active max_concurrent count config queue_id 0 0 in
        let run =
          start_from-active max_concurrent count
            (record { active = active; started = []; config = config }) queue_id 0 first.0 in
        elim (Bool-cases (is_empty queue_id || not (queue_is_started config queue_id))) [
          | inl stopped ↦ ground (arith, stopped)
          | inr open_queue ↦ ground (arith, open_queue, first, run)
        ]

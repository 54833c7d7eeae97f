-- ===== src/Download/Control.antt =====
-- src/download.c: pausing, resuming, starting and stopping a download by its identifier.
use mathlib.Core.Option
use avar.Base.{
  Bool, List, Option, [], false, if◌then◌else◌, none, not, some, suc, true, zero, ℕ, ◌&&◌, ◌+◌,
  ◌||◌, ◌∷◌,
}
use avar.Config.Arrays.{get_config_array_item_field, get_config_array_size}
use avar.Queue.Dispatch.{queue_is_started}
use avar.Proxy.{is_empty}
use avar.Download.{find_download_item_index, update_download_item_status}
use avar.CString.{Text, lit, str_eq, is_some}
use avar.Cjson.{Cjson}
use avar.Config.{Config}
use avar.Queue.{text_is, items_key}

-- What others set in a job that runs.
pub record ActiveJob : Type 0 where
  pub item_id : Text
  pub pause_requested : Bool
  pub cancel_requested : Bool

-- The index of the job.
unfoldable pub active_jobs_find : List ActiveJob → Text → Option ℕ
active_jobs_find [] item_id = none
active_jobs_find (job ∷ jobs) item_id =
    let rest = Option.map suc (active_jobs_find jobs item_id) in
    if str_eq job.item_id item_id then some 0 else rest

abbrev pub change_job : ℕ → (ActiveJob → ActiveJob) → List ActiveJob → List ActiveJob
change_job i f [] = []
change_job zero f (job ∷ jobs) = f job ∷ jobs
change_job (suc i) f (job ∷ jobs) = job ∷ change_job i f jobs

module _ ⦃cj : Cjson⦄ where
  -- The status of the item, where there is one and it has a status.
  abbrev pub status_of : Config → Text → Option Text
  status_of config id =
      Option.bind (find_download_item_index config id true)
        (λ index. get_config_array_item_field config items_key index (lit "status"))

  abbrev pub queue_runs : Config → Option Text → Bool
  queue_runs config none = false
  queue_runs config (some queue_id) = not (is_empty queue_id) && queue_is_started config queue_id

  abbrev pub queue_waits : Config → Option Text → Bool
  queue_waits config none = false
  queue_waits config (some queue_id) =
      not (is_empty queue_id) && not (queue_is_started config queue_id)

  unfoldable pub download_scheduler_spawn_blocked : Config → Option Text → Option Text → Bool
  unfolding queue_is_started
  download_scheduler_spawn_blocked config none queue_id = true
  download_scheduler_spawn_blocked config (some status) queue_id =
      str_eq status (lit "stopped") || (str_eq status (lit "queued") && queue_waits config queue_id)

  unfoldable pub download_should_resume_on_startup : Config → Option Text → Option Text → Bool
  unfolding queue_is_started
  download_should_resume_on_startup config none queue_id = false
  download_should_resume_on_startup config (some status) queue_id =
      str_eq status (lit "downloading")
      || (str_eq status (lit "queued") && queue_runs config queue_id)

  -- `spawn` is `spawn_download_by_id` with no proxy; its last argument is `force_start`.
  module _ (spawn : Config → Text → Bool → Bool × Config) where
    -- The round of `download_resume_interrupted` for an index.
    unfoldable pub resume_item : Config → List ActiveJob → ℕ → Config
    unfolding download_should_resume_on_startup active_jobs_find get_config_array_item_field
    resume_item config jobs i =
        let field = get_config_array_item_field config items_key i in
        elim (field (lit "id")) [
          | none ↦ config
          | some id ↦
              if download_should_resume_on_startup config (field (lit "status"))
                  (field (lit "queueId"))
                && not (is_some (active_jobs_find jobs id))
              then (spawn config id false).1
              else config
        ]

    -- `jobs_at` has the active jobs as they are in the round for an index.
    unfoldable pub resume_from : ℕ → Config → (ℕ → List ActiveJob) → ℕ → Config
    unfolding resume_item
    resume_from zero config jobs_at i = config
    resume_from (suc rounds) config jobs_at i =
        resume_from rounds (resume_item config (jobs_at i) i) jobs_at (i + 1)

    unfoldable pub download_resume_interrupted : Config → (ℕ → List ActiveJob) → Config
    unfolding resume_from get_config_array_size
    download_resume_interrupted config jobs_at =
        resume_from (get_config_array_size config items_key) config jobs_at 0

    unfoldable pub download_resume : Config → Text → Bool × Config
    unfolding find_download_item_index get_config_array_item_field
    download_resume config id =
        if text_is (lit "paused") (status_of config id)
        then spawn config id true
        else (false, config)

    unfoldable pub download_start_scheduled : Config → Text → Bool × Config
    unfolding find_download_item_index get_config_array_item_field
    download_start_scheduled config id =
        if text_is (lit "queued") (status_of config id)
        then spawn config id false
        else (false, config)

    unfoldable pub download_start : Config → Text → Bool × Config
    unfolding find_download_item_index get_config_array_item_field
    download_start config id =
        let status = status_of config id in
        if text_is (lit "queued") status
          || text_is (lit "paused") status
          || text_is (lit "failed") status
          || text_is (lit "stopped") status
        then spawn config id true
        else (false, config)

  module _ (persists : ℕ → Bool) (sync : Config → Text → Config) where
    -- The result, the active jobs and the configuration.
    unfoldable pub download_pause :
        Config → List ActiveJob → Text → Bool × (List ActiveJob × Config)
    unfolding active_jobs_find update_download_item_status get_config_array_item_field
    download_pause config jobs id = elim (active_jobs_find jobs id) [
      | some i ↦ (true, (change_job i (λ job. record job { pause_requested = true }) jobs, config))
      | none ↦
          let (done, config') =
            update_download_item_status persists sync config id (lit "paused") in
          if text_is (lit "downloading") (status_of config id)
          then (done, (jobs, config'))
          else (false, (jobs, config))
    ]

    unfoldable pub download_stop : Config → List ActiveJob → Text → Bool × (List ActiveJob × Config)
    unfolding active_jobs_find update_download_item_status
    download_stop config jobs id = elim (active_jobs_find jobs id) [
      | some i ↦ (true, (change_job i (λ job. record job { cancel_requested = true }) jobs, config))
      | none ↦
          let (done, config') =
            update_download_item_status persists sync config id (lit "stopped") in
          (done, (jobs, config'))
    ]

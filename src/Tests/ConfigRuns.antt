-- ===== src/Tests/ConfigRuns.antt =====
-- The configuration on sample documents.
use mathlib.Core.Option
use avar.Base.{
  Option, [], false, if◌then◌else◌, inl, inr, none, refl, some, true, ℕ, ◌++◌, ◌==◌, ◌||◌, ◌∷◌, ◌≡◌,
}
use avar.Config.Arrays.Removal.{HasText, IsThinned}
use avar.Config.Arrays.Laws.{IsArrayAt}
use avar.Config.Arrays.Operations.{
  IsStored, append_config_array_item-IsStored, remove_config_array_items_where-items,
}
use avar.Queue.{items_key}
use avar.CString.{Text, lit}
use avar.Config.Paths.{reach, Diverge}
use avar.Config.{set_config, get_config, split_key, get_config_from_env}
use avar.Config.Values.{get_config-set_config, get_config-set_config_other}
use avar.Config.Arrays.{items_at, append_config_array_item, remove_config_array_items_where}
use avar.Tests.Documents.{
  busy, dm, item, documents, Document, string, object, end, member, documents-IsLawful, holding,
}

-- {"dm": {"speed": "9"}}
abbrev speed : Document
speed = object (member (lit "dm") (object (member (lit "speed") (string (lit "9")) end)) end)

abbrev unset : Text → Option Text
unset k = none

path_open :
    reach true speed (split_key (lit "dm.retries"))
    ≡ some (object (member (lit "speed") (string (lit "9")) end), lit "retries")
unfolding split_key
path_open = refl

get_config-set_config_example :
    get_config unset
      (set_config (λ n. true) (holding speed) (lit "dm.retries") (lit "3")).1
      (lit "dm.retries")
    ≡ some (lit "3")
unfolding get_config_from_env
get_config-set_config_example =
    get_config-set_config documents-IsLawful (λ n. true) unset (holding speed) (lit "dm.retries")
      (lit "3") (object (member (lit "speed") (string (lit "9")) end)) (lit "retries") refl
      path_open refl

-- The other key parts from this one at its second segment.
speed_apart : Diverge (split_key (lit "dm.retries")) (split_key (lit "dm.speed"))
unfolding split_key
speed_apart = inr (refl, inl refl)

get_config-set_config_other_example :
    get_config unset
      (set_config (λ n. true) (holding speed) (lit "dm.retries") (lit "3")).1
      (lit "dm.speed")
    ≡ get_config unset (holding speed) (lit "dm.speed")
get_config-set_config_other_example =
    get_config-set_config_other documents-IsLawful (λ n. true) unset (holding speed)
      (lit "dm.retries") (lit "3") (object (member (lit "speed") (string (lit "9")) end))
      (lit "retries") refl path_open (lit "dm.speed") speed_apart

items_there : IsArrayAt true busy.root (split_key items_key) dm (lit "items")
unfolding split_key Option.bind
items_there = record { reached = refl; object = refl; array = inl (_, refl) }

items_found : IsArrayAt false busy.root (split_key items_key) dm (lit "items")
unfolding split_key Option.bind
items_found = record { reached = refl; object = refl; array = inl (_, refl) }

append_config_array_item-IsStored_example :
    let d = item (lit "d") (lit "q2") (lit "queued") in
    let r = append_config_array_item (λ n. true) busy items_key d in
    (r.0 ≡ true) × IsStored busy r.1 r.0 items_key (items_at busy items_key ++ d ∷ [])
append_config_array_item-IsStored_example =
    append_config_array_item-IsStored (λ n. true) documents-IsLawful busy items_key dm (lit "items")
      (item (lit "d") (lit "q2") (lit "queued")) refl items_there

remove_config_array_items_where-items_example :
    let r = remove_config_array_items_where (λ n. true) busy items_key (lit "queueId") (lit "q1") in
    (gone : ℕ) × IsThinned
      (HasText (lit "queueId") (lit "q1"))
      (items_at busy items_key)
      (items_at r.1 items_key)
      gone
    × (r.0 ≡ (if gone == 0 || true then some gone else none))
remove_config_array_items_where-items_example =
    remove_config_array_items_where-items (λ n. true) documents-IsLawful busy items_key dm
      (lit "items") (lit "queueId") (lit "q1") items_found

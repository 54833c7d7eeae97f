-- ===== src/Download/Snowflake.antt =====
-- src/download.c: identifiers made of the time, the process and a counter.
use mathlib.Core.Option
use mathlib.Core.Option.{some-injective}
use mathlib.Core.Path.{subst}
use Prim.Native.Nat.{bit_or, bit_xor}
use avar.Base.{
  Bool, List, Option, Option-cases, [], ap, arith, false, get_elem?, if◌then◌else◌, inl, inr, leb,
  ltb, mul64, none, some, sub64, suc, sym, true, zero, ℕ, ◌%◌, ◌*◌, ◌++◌, ◌+◌, ◌-◌, ◌/◌, ◌<◌, ◌==◌,
  ◌^◌, ◌∙◌, ◌∷◌, ◌≡◌, ◌≢◌,
}
use avar.Config.Arrays.{get_config_array_item_field, object_at, items_at}
use avar.Queue.Names.{index_where-rest}
use avar.CString.{str_eq_refl}
use avar.Queue.{has_field, index_where, items_key}
use avar.CString.{Text, lit, is_some}
use avar.Cjson.{Cjson}
use avar.Config.{Config}
use avar.Download.{find_download_item_index}

-- `DownloadSnowflakeState`.
pub record Snowflake : Type 0 where
  pub last_ms : ℕ
  pub sequence : ℕ
  pub machine_id : ℕ

-- 2024-01-01, in milliseconds
abbrev pub epoch_ms : ℕ
epoch_ms = 1704067200000

unfoldable pub download_snowflake_mix : ℕ → ℕ
download_snowflake_mix value =
    let m1 = bit_xor value (value / 2 ^ 30) in
    let m2 = mul64 m1 13787848793156543929 in
    let m3 = bit_xor m2 (m2 / 2 ^ 27) in
    let m4 = mul64 m3 10723151780598845931 in bit_xor m4 (m4 / 2 ^ 31)

-- `readings` are what `mg_millis` gives from here on; `none` where they end.
unfoldable pub download_snowflake_wait_next_ms : List ℕ → ℕ → Option ℕ
download_snowflake_wait_next_ms [] last_ms = none
download_snowflake_wait_next_ms (now ∷ readings) last_ms =
    let rest = download_snowflake_wait_next_ms readings last_ms in
    if leb now last_ms then rest else some now

-- The time and the counter of the next identifier.
unfoldable pub tick : Snowflake → ℕ → List ℕ → Option Snowflake
unfolding download_snowflake_wait_next_ms
tick s reading readings =
    let now = if ltb reading s.last_ms then s.last_ms else reading in
    let waited =
      Option.map (λ later. record s { last_ms = later; sequence = 0 })
        (download_snowflake_wait_next_ms readings s.last_ms) in
    if now == s.last_ms
    then (if ltb 4095 (s.sequence + 1)
        then waited
        else some (record s { sequence = s.sequence + 1 }))
    else some (record s { last_ms = now; sequence = 0 })

-- The identifier of a state.
unfoldable pub raw_id : Snowflake → ℕ
raw_id s =
    bit_or (bit_or (mul64 (sub64 s.last_ms epoch_ms) (2 ^ 22)) (s.machine_id * 2 ^ 12)) s.sequence

unfoldable pub download_snowflake_next : Snowflake → ℕ → List ℕ → Option (ℕ × Snowflake)
unfolding tick raw_id
download_snowflake_next s reading readings =
    Option.map (λ next. (raw_id next, next)) (tick s reading readings)

-- A lower-case hexadecimal digit.
abbrev pub hex_digit : ℕ → ℕ
hex_digit d = if ltb d 10 then b'0' + d else b'a' + (d - 10)

-- The last digits of a number, so many: `%016llx` has 16.
unfoldable pub hex_onto : ℕ → ℕ → Text → Text
hex_onto zero n text = text
hex_onto (suc digits) n text = hex_onto digits (n / 16) (hex_digit (n % 16) ∷ text)

unfoldable pub id_text : ℕ → Text
unfolding hex_onto
id_text mixed = lit "dl-" ++ hex_onto 16 mixed []

-- What the clock gives to one attempt: the first reading, and those of a wait.
abbrev pub Readings : Type 0
Readings = ℕ × List ℕ

module _ ⦃cj : Cjson⦄ where
  open cj use {Json}

  -- The loop of `download_generate_id`, one attempt for each of the readings, 32 in all.
  unfoldable pub download_generate_id : Config → Snowflake → List Readings → Option Text × Snowflake
  unfolding download_snowflake_next download_snowflake_mix id_text find_download_item_index
  download_generate_id config s [] = (none, s)
  download_generate_id config s (r ∷ attempts) = elim (download_snowflake_next s r.0 r.1) [
    | none ↦ (none, s)
    | some (raw, next) ↦
        let generated = id_text (download_snowflake_mix raw) in
        let rest = download_generate_id config next attempts in
        if is_some (find_download_item_index config generated true)
        then rest
        else (some generated, next)
  ]

  index_where-none :
      (q : Json → Bool) (items : List Json) (i : ℕ) (item : Json)
      → index_where q items ≡ none
      → get_elem? items i ≡ some item
      → q item ≡ false
  unfolding index_where
  index_where-none q [] i item h at_i = absurd (ground (arith, at_i))
  index_where-none q (x ∷ items) zero item h at_i =
      let same : x ≡ item = some-injective x item at_i in
      subst (λ y. q y ≡ false) same (index_where-rest q x items h).0
  index_where-none q (x ∷ items) (suc i) item h at_i =
      index_where-none q items i item (index_where-rest q x items h).1 at_i

  -- An identifier that is not found is in the field of no item.
  not_found-field :
      (config : Config) (id : Text) (i : ℕ)
      → find_download_item_index config id true ≡ none
      → get_config_array_item_field config items_key i (lit "id") ≢ some id
  unfolding find_download_item_index get_config_array_item_field object_at has_field Option.bind
  not_found-field config id i h read =
      let items = items_at config items_key in
      elim (Option-cases (get_elem? items i)) [
        | inl none_ ↦ ground (arith, none_, read)
        | inr (item, at_i) ↦
            let other = index_where-none (has_field (lit "id") id) items i item h at_i in
            ground (arith, at_i, read, other, str_eq_refl id)
      ]

  -- No item of the list of downloads has the identifier that download_generate_id returns:
  -- get_config_array_item_field reads it from the id of none, at any index, whatever the clock
  -- reads and the configuration holds.
  pub download_generate_id-unused :
      (config : Config) (s : Snowflake) (attempts : List Readings) (id : Text) (i : ℕ)
      → (download_generate_id config s attempts).0 ≡ some id
      → get_config_array_item_field config items_key i (lit "id") ≢ some id
  unfolding download_generate_id
  download_generate_id-unused config s [] id i h = absurd (ground (arith, h))
  download_generate_id-unused config s (r ∷ attempts) id i h =
      elim (Option-cases (download_snowflake_next s r.0 r.1)) [
        | inl e ↦ absurd (ground (arith, e, h))
        | inr (made, e) ↦
            let generated = id_text (download_snowflake_mix made.0) in
            elim (Option-cases (find_download_item_index config generated true)) [
              | inr (found, taken) ↦
                  download_generate_id-unused config made.1 attempts id i
                    (ground (arith, e, taken, h))
              | inl free ↦
                  let same : generated ≡ id =
                    some-injective generated id (ground (arith, e, free, h)) in
                  not_found-field config id i
                    (ap (λ t. find_download_item_index config t true) (sym same) ∙ free)
            ]
      ]

-- The times and counters are in the order of the identifiers.
abbrev pub rank : Snowflake → ℕ
rank s = s.last_ms * 4096 + s.sequence

wait_next_ms-later :
    (readings : List ℕ) (last_ms now : ℕ)
    → download_snowflake_wait_next_ms readings last_ms ≡ some now
    → last_ms < now
unfolding download_snowflake_wait_next_ms
wait_next_ms-later [] last_ms now h = absurd (ground (arith, h))
wait_next_ms-later (r ∷ readings) last_ms now h =
    ground (arith, h, wait_next_ms-later readings last_ms now)

tick-rank :
    (s : Snowflake) (reading : ℕ) (readings : List ℕ) (next : Snowflake)
    → s.sequence < 4096
    → tick s reading readings ≡ some next
    → (rank s < rank next) × (next.sequence < 4096) × (next.machine_id ≡ s.machine_id)
unfolding tick
tick-rank s reading readings next fits h =
    elim (Option-cases (download_snowflake_wait_next_ms readings s.last_ms)) [
      | inl e ↦ ground (arith, e, h)
      | inr (later, e) ↦ ground (arith, e, h, wait_next_ms-later readings s.last_ms later e)
    ]

-- Every call of download_snowflake_next that returns moves the pair of its time and its
-- counter strictly up in the lexicographic order, keeps the counter in its 12 bits and keeps
-- the machine identifier, whatever the clock reads, backward steps included. The counter is in
-- 12 bits before.
pub download_snowflake_next-rank :
    (s : Snowflake) (reading : ℕ) (readings : List ℕ) (raw : ℕ) (next : Snowflake)
    → s.sequence < 4096
    → download_snowflake_next s reading readings ≡ some (raw, next)
    → (rank s < rank next) × (next.sequence < 4096) × (next.machine_id ≡ s.machine_id)
unfolding download_snowflake_next
download_snowflake_next-rank s reading readings raw next fits h =
    elim (Option-cases (tick s reading readings)) [
      | inl e ↦ absurd (ground (arith, e, h))
      | inr (n, e) ↦
          let same : n ≡ next =
            ap (λ (y : ℕ × Snowflake). y.1)
              (some-injective (raw_id n, n) (raw, next) (ground (arith, e, h))) in
          subst (λ y. (rank s < rank y) × (y.sequence < 4096) × (y.machine_id ≡ s.machine_id)) same
            (tick-rank s reading readings n fits e)
    ]

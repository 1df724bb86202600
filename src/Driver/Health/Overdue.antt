-- ===== src/Driver/Health/Overdue.antt =====
-- The state that the health check of internal/driver/status_check.go sets. No code of the repository
-- stores a value of type uint32 in the resource `period`: `parseDefaultValue` makes none, and no row
-- of the table of parameters has that name.
use device_wiresink_go.Prelude.{
  ℕ, ◌+◌, ◌*◌, ◌^◌, ◌<◌, ◌||◌, ◌≡◌, refl, sym, ap, ap₂, ◌∙◌, arith, ltb, Bool, false, List, [], ◌∷◌,
  map, Option, none, some, if◌then◌else◌, Bool-cases, inl, inr, Text, codes, text_eq, text_eq_iff,
  lookup,
}
use device_wiresink_go.Value.{Value, uint8, int64, uint32}
use device_wiresink_go.Config.Values.{Values, get_device_value, set_device_value}
use device_wiresink_go.Config.Values.ReadBack.{get_device_value-set_device_value}
use device_wiresink_go.Driver.Health.{
  monitored, new_state, check_device, check_devices, key_of, health_tick,
}

-- For clock readings before 2262 the arithmetic on int64 does not overflow: a device is overdue,
-- state 1, exactly where more than twice its period of seconds has gone by since its last data.
pub new_state-overdue :
    (now last_ts period : ℕ)
    → now < 2 ^ 63
    → last_ts < 2 ^ 63
    → period < 2 ^ 32
    → new_state now last_ts period ≡ (if ltb (last_ts + 2 * period * 1000000000) now then 1 else 0)
unfolding new_state
new_state-overdue now last_ts period h k p = ground arith

abbrev state : Text
state = codes "state"

module _ (now : ℕ) (values : Values) where
  abbrev pub watched : Text → Option (ℕ × ℕ)
  watched d =
      monitored (get_device_value d (codes "lastDataTimestamp") values)
        (get_device_value d (codes "period") values)

  -- What a check leaves in the resource `s` of `e`, by what it found of the device.
  abbrev found : Text → Text → Option (ℕ × ℕ) → Option Value
  found e s none = get_device_value e s values
  found e s (some (last_ts, period)) =
      if text_eq state s
      then some (uint8 (new_state now last_ts period))
      else get_device_value e s values

  -- The value of a resource after a check of all devices, by the values before it: the resource
  -- `state` of a device that has a time stamp and a period is set, and nothing else.
  abbrev pub checked : Text → Text → Option Value
  checked e s = found e s (watched e)

  get_device_value-by :
      (d e s : Text) (o : Option (ℕ × ℕ))
      → get_device_value e s (elim o as (λ p. Values) [
        | none ↦ values
        | some (last_ts, period) ↦
            set_device_value d state (uint8 (new_state now last_ts period)) values
      ])
        ≡ (if text_eq d e then found e s o else get_device_value e s values)
  get_device_value-by d e s none = ground arith
  get_device_value-by d e s (some (last_ts, period)) = ground (
    arith,
    get_device_value-set_device_value d state e s (uint8 (new_state now last_ts period)) values,
  )

  get_device_value-check_device :
      (d e s : Text)
      → get_device_value e s (check_device now d values)
        ≡ (if text_eq d e then checked e s else get_device_value e s values)
  unfolding check_device
  get_device_value-check_device d e s = elim (Bool-cases (text_eq d e)) [
    | inl same ↦
        get_device_value-by d e s (watched d)
        ∙ rw same (ap (λ (x : Text). found e s (watched x)) ((text_eq_iff d e).0 same))
    | inr other ↦ get_device_value-by d e s (watched d) ∙ rw other refl
  ]

  pub found-other :
      (e s : Text) (o : Option (ℕ × ℕ))
      → text_eq state s ≡ false
      → found e s o ≡ get_device_value e s values
  found-other e s none h = refl
  found-other e s (some (last_ts, period)) h = rw h refl

  kept :
      (d e s : Text)
      → text_eq state s ≡ false
      → get_device_value e s (check_device now d values) ≡ get_device_value e s values
  kept d e s h = ground (arith, get_device_value-check_device d e s, found-other e s (watched e) h)

  checked-unlisted :
      (e s : Text) → lookup e values ≡ none → checked e s ≡ get_device_value e s values
  unfolding get_device_value
  checked-unlisted e s h = ground arith

abbrev mentions : Text → List Text → Bool
mentions e [] = false
mentions e (d ∷ ds) = text_eq d e || mentions e ds

-- A check leaves alone what it goes by.
checked-check_device :
    (now : ℕ) (d e s : Text) (values : Values)
    → checked now (check_device now d values) e s ≡ checked now values e s
checked-check_device now d e s values =
    let after : Values = check_device now d values in
    let same : watched now after e ≡ watched now values e =
      ap₂ monitored (kept now values d e (codes "lastDataTimestamp") (unfold text_eq in refl))
        (kept now values d e (codes "period") (unfold text_eq in refl)) in
    rw same (by_watched (watched now values e) refl)
  where
    by_watched :
        (o : Option (ℕ × ℕ))
        → watched now values e ≡ o
        → found now (check_device now d values) e s o ≡ found now values e s o
    by_watched none h = get_device_value-check_device now values d e s ∙ rw h (ground arith)
    by_watched (some (last_ts, period)) h = ground (arith, kept now values d e s)

get_device_value-check_devices :
    (now : ℕ) (ds : List Text) (e s : Text) (values : Values)
    → get_device_value e s (check_devices now ds values)
      ≡ (if mentions e ds then checked now values e s else get_device_value e s values)
unfolding check_devices
get_device_value-check_devices now [] e s values = refl
get_device_value-check_devices now (d ∷ ds) e s values = ground (
  arith,
  get_device_value-check_devices now ds e s (check_device now d values),
  checked-check_device now d e s values,
  get_device_value-check_device now values d e s,
)

mentions-keys :
    (e : Text) (values : Values) → mentions e (map key_of values) ≡ false → lookup e values ≡ none
unfolding lookup
mentions-keys e [] h = refl
mentions-keys e ((d, resources) ∷ rest) h = ground (arith, mentions-keys e rest)

-- After a tick the state that the check computes is set, and nothing else.
pub get_device_value-checked :
    (now : ℕ) (e s : Text) (values : Values)
    → get_device_value e s (health_tick now values) ≡ checked now values e s
unfolding health_tick
get_device_value-checked now e s values = elim (Bool-cases (mentions e (map key_of values))) [
  | inl listed ↦ get_device_value-check_devices now (map key_of values) e s values ∙ rw listed refl
  | inr missing ↦
      get_device_value-check_devices now (map key_of values) e s values
      ∙ rw missing (sym (checked-unlisted now values e s (mentions-keys e values missing)))
]

-- The state that a time stamp of type int64 and a period of type uint32 give: 1 where more than twice
-- the period of seconds has gone by, and 0 otherwise. Values of other types leave the old state.
abbrev pub due : ℕ → Option Value → Option Value → Option Value → Option Value
due now (some (int64 last_ts)) (some (uint32 period)) old =
    some (uint8 (if ltb (last_ts + 2 * period * 1000000000) now then 1 else 0))
due now ts period old = old

-- The time stamp is not negative, and the period has 32 bits.
abbrev pub InRange : Option Value → Option Value → Type 0
InRange (some (int64 last_ts)) (some (uint32 period)) = (last_ts < 2 ^ 63) × (period < 2 ^ 32)
InRange ts period = Unit {0}

found-due :
    (now : ℕ) (values : Values) (e s : Text) (ts period : Option Value)
    → now < 2 ^ 63
    → InRange ts period
    → found now values e s (monitored ts period) ≡ (
        if text_eq state s
        then due now ts period (get_device_value e s values)
        else get_device_value e s values)
found-due now values e s (some (int64 last_ts)) (some (uint32 period)) h (early, small) =
    rw (new_state-overdue now last_ts period h early small) refl
found-due now values e s ts period h range = ground arith

-- For a clock before 2262, and a device whose time stamp and period, where they are an int64 and a
-- uint32, have at most 63 and 32 bits: after a tick the resource `state` of the device is 1 where
-- more than twice the period of seconds has gone by since the time stamp, and 0 otherwise, if the
-- time stamp is an int64 and the period a uint32; with other types it is as before, and so is every
-- other resource, whatever the order in which the devices are checked.
pub get_device_value-health_tick :
    (now : ℕ) (e s : Text) (values : Values)
    → now < 2 ^ 63
    → InRange
        (get_device_value e (codes "lastDataTimestamp") values)
        (get_device_value e (codes "period") values)
    → get_device_value e s (health_tick now values) ≡ (
        if text_eq (codes "state") s
        then due now
            (get_device_value e (codes "lastDataTimestamp") values)
            (get_device_value e (codes "period") values)
            (get_device_value e s values)
        else get_device_value e s values)
get_device_value-health_tick now e s values h range =
    get_device_value-checked now e s values ∙ found-due now values e s _ _ h range

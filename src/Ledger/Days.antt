-- ===== src/Ledger/Days.antt =====
-- The day of the ledger, against the rules of the Gregorian calendar.
pub mod Era
use dock_neighbor_hub.Shared.{
  ℕ, ◌+◌, ◌-◌, ◌*◌, ◌/◌, ◌%◌, ◌≡◌, ◌≤◌, ◌<◌, ◌⊎◌, inl, inr, Bool, true, false, ◌&&◌, ◌||◌, not,
  refl, sym, ap, ◌∙◌, leb, ltb, ◌==◌, if◌then◌else◌, arith, Bool-cases,
}
use dock_neighbor_hub.Ledger.{Date, civil_from_days}
use dock_neighbor_hub.Ledger.Days.Era.{
  next_day, is_leap, month_days, date_in_era, date_in_era_next, era_turns,
}

-- A date some eras later.
later : ℕ → Date → Date
later era d = record d { year = d.year + era * 400 }

civil_from_days-date_in_era :
    (z : ℕ)
    → civil_from_days z ≡ later ((z + 719468) / 146097) (date_in_era ((z + 719468) % 146097))
unfolding civil_from_days later date_in_era
civil_from_days-date_in_era z = ground arith

is_leap-era : (era y : ℕ) → is_leap (y + era * 400) ≡ is_leap y
is_leap-era era y = ground arith

next_day-later : (era : ℕ) (d : Date) → next_day (later era d) ≡ later era (next_day d)
unfolding later
next_day-later era d = ground (arith, is_leap-era era d.year)

-- Where the day after is in the same era, and where it opens the next one.
same_era :
    (z : ℕ)
    → (z + 719468) % 146097 < 146096
    → civil_from_days (z + 1)
      ≡ later ((z + 719468) / 146097) (date_in_era ((z + 719468) % 146097 + 1))
same_era z lt =
    let q : (z + 1 + 719468) / 146097 ≡ (z + 719468) / 146097 = omega (arith, lt) in
    let r : (z + 1 + 719468) % 146097 ≡ (z + 719468) % 146097 + 1 = omega (arith, lt) in
    rw (civil_from_days-date_in_era (z + 1), q, r) refl

next_era :
    (z : ℕ)
    → (z + 719468) % 146097 ≡ 146096
    → civil_from_days (z + 1) ≡ later ((z + 719468) / 146097 + 1) (date_in_era 0)
next_era z e =
    let q : (z + 1 + 719468) / 146097 ≡ (z + 719468) / 146097 + 1 = omega (arith, e) in
    let r : (z + 1 + 719468) % 146097 ≡ 0 = omega (arith, e) in
    rw (civil_from_days-date_in_era (z + 1), q, r) refl

later_turns :
    (era : ℕ) → later (era + 1) (date_in_era 0) ≡ later era (next_day (date_in_era 146096))
unfolding later date_in_era
later_turns era = ground arith

-- The day after a day since the epoch has the date that follows in the Gregorian calendar.
pub civil_from_days-next_day : (z : ℕ) → civil_from_days (z + 1) ≡ next_day (civil_from_days z)
civil_from_days-next_day z =
    let era : ℕ = (z + 719468) / 146097 in
    let doe : ℕ = (z + 719468) % 146097 in
    elim (Bool-cases (ltb doe 146096)) [
      | inl lt ↦
          rw
            (
              same_era z (ground arith),
              civil_from_days-date_in_era z,
              next_day-later era (date_in_era doe),
              date_in_era_next doe (ground arith),
            )
            refl
      | inr ge ↦
          let last : doe ≡ 146096 = ground arith in
          rw
            (
              next_era z last,
              civil_from_days-date_in_era z,
              last,
              next_day-later era (date_in_era 146096),
              later_turns era,
            )
            refl
    ]

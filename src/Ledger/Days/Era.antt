-- ===== src/Ledger/Days/Era.antt =====
-- The dates of one era of four hundred years, day by day, against the rules of the Gregorian
-- calendar. The era is checked in sixteen stretches of 9131 days.
use dock_neighbor_hub.Shared.{
  ℕ, ◌+◌, ◌-◌, ◌*◌, ◌/◌, ◌%◌, ◌≡◌, ◌<◌, inl, inr, Bool, true, ◌&&◌, ◌||◌, not, refl, leb, ltb, ◌==◌,
  ==_iff, if◌then◌else◌, arith, zero, suc, Bool-cases, Bool-cases,
}
use dock_neighbor_hub.Ledger.{Date}

abbrev pub is_leap : ℕ → Bool
is_leap y = (y % 4 == 0) && (not (y % 100 == 0) || y % 400 == 0)

abbrev pub month_days : ℕ → ℕ → ℕ
month_days y m =
    if m == 2
    then (if is_leap y then 29 else 28)
    else if m == 4 || m == 6 || m == 9 || m == 11
    then 30
    else 31

-- The day after a date.
abbrev pub next_day : Date → Date
next_day d =
    if ltb d.day (month_days d.year d.month)
    then record d { day = d.day + 1 }
    else if ltb d.month 12
    then record d { month = d.month + 1; day = 1 }
    else record { year = d.year + 1; month = 1; day = 1 }

-- The date of a day of the four-hundred-year era that starts on 0000-03-01.
unfoldable pub date_in_era : ℕ → Date
date_in_era doe =
    let yoe : ℕ = (doe - doe / 1460 + doe / 36524 - doe / 146096) / 365 in
    let doy : ℕ = doe - (365 * yoe + yoe / 4 - yoe / 100) in
    let mp : ℕ = (5 * doy + 2) / 153 in
    let m : ℕ = if ltb mp 10 then mp + 3 else mp - 9 in
    record {
      year = if leb m 2 then yoe + 1 else yoe;
      month = m;
      day = doy - (153 * mp + 2) / 5 + 1;
    }

same : Date → Date → Bool
same a b = a.year == b.year && a.month == b.month && a.day == b.day

follows : ℕ → Bool
unfolding same date_in_era
follows doe = same (date_in_era (doe + 1)) (next_day (date_in_era doe))

-- The test holds of each of the `n` numbers from `start` on.
all_from : (ℕ → Bool) → ℕ → ℕ → Bool
all_from p zero start = true
all_from p (suc n) start = p (start + n) && all_from p n start

HoldsBelow : (ℕ → Bool) → ℕ → Type 0
HoldsBelow p n = (i : ℕ) → i < n → p i ≡ true

all_from-HoldsBelow :
    (p : ℕ → Bool) (n start : ℕ)
    → all_from p n start ≡ true
    → HoldsBelow p start
    → HoldsBelow p (start + n)
unfolding all_from HoldsBelow
all_from-HoldsBelow p zero start h below i lt = below i (omega (arith, lt))
all_from-HoldsBelow p (suc n) start h below i lt = elim (Bool-cases (i == start + n)) [
  | inl e ↦ ground (arith, (==_iff i (start + n)).0 e)
  | inr e ↦ all_from-HoldsBelow p n start (ground arith) below i (ground arith)
]

stretch_0 : all_from follows 9131 0 ≡ true
unfolding all_from follows
stretch_0 = refl

stretch_1 : all_from follows 9131 9131 ≡ true
unfolding all_from follows
stretch_1 = refl

stretch_2 : all_from follows 9131 18262 ≡ true
unfolding all_from follows
stretch_2 = refl

stretch_3 : all_from follows 9131 27393 ≡ true
unfolding all_from follows
stretch_3 = refl

stretch_4 : all_from follows 9131 36524 ≡ true
unfolding all_from follows
stretch_4 = refl

stretch_5 : all_from follows 9131 45655 ≡ true
unfolding all_from follows
stretch_5 = refl

stretch_6 : all_from follows 9131 54786 ≡ true
unfolding all_from follows
stretch_6 = refl

stretch_7 : all_from follows 9131 63917 ≡ true
unfolding all_from follows
stretch_7 = refl

stretch_8 : all_from follows 9131 73048 ≡ true
unfolding all_from follows
stretch_8 = refl

stretch_9 : all_from follows 9131 82179 ≡ true
unfolding all_from follows
stretch_9 = refl

stretch_10 : all_from follows 9131 91310 ≡ true
unfolding all_from follows
stretch_10 = refl

stretch_11 : all_from follows 9131 100441 ≡ true
unfolding all_from follows
stretch_11 = refl

stretch_12 : all_from follows 9131 109572 ≡ true
unfolding all_from follows
stretch_12 = refl

stretch_13 : all_from follows 9131 118703 ≡ true
unfolding all_from follows
stretch_13 = refl

stretch_14 : all_from follows 9131 127834 ≡ true
unfolding all_from follows
stretch_14 = refl

stretch_15 : all_from follows 9131 136965 ≡ true
unfolding all_from follows
stretch_15 = refl

era_follows : HoldsBelow follows 146096
unfolding HoldsBelow
era_follows = all_from-HoldsBelow follows 9131 136965 stretch_15 (
    all_from-HoldsBelow follows 9131 127834 stretch_14 (
      all_from-HoldsBelow follows 9131 118703 stretch_13 (
        all_from-HoldsBelow follows 9131 109572 stretch_12 (
          all_from-HoldsBelow follows 9131 100441 stretch_11 (
            all_from-HoldsBelow follows 9131 91310 stretch_10 (
              all_from-HoldsBelow follows 9131 82179 stretch_9 (
                all_from-HoldsBelow follows 9131 73048 stretch_8 (
                  all_from-HoldsBelow follows 9131 63917 stretch_7 (
                    all_from-HoldsBelow follows 9131 54786 stretch_6 (
                      all_from-HoldsBelow follows 9131 45655 stretch_5 (
                        all_from-HoldsBelow follows 9131 36524 stretch_4 (
                          all_from-HoldsBelow follows 9131 27393 stretch_3 (
                            all_from-HoldsBelow follows 9131 18262 stretch_2 (
                              all_from-HoldsBelow follows 9131 9131 stretch_1 (
                                all_from-HoldsBelow follows 9131 0 stretch_0
                                  (λ i lt. absurd (omega (arith, lt))))))))))))))))))

same_eq : (a b : Date) → same a b ≡ true → a ≡ b
unfolding same
same_eq a b h = ground (arith, ==_iff a.year b.year, ==_iff a.month b.month, ==_iff a.day b.day)

-- Within an era each day but the last is followed by the next day of the calendar.
pub date_in_era_next : (doe : ℕ) → doe < 146096 → date_in_era (doe + 1) ≡ next_day (date_in_era doe)
unfolding follows HoldsBelow
date_in_era_next doe lt =
    same_eq (date_in_era (doe + 1)) (next_day (date_in_era doe)) (era_follows doe lt)

-- And the last day of an era by the first of the next one.
pub era_turns : next_day (date_in_era 146096) ≡ record (date_in_era 0) { year = 400 }
unfolding date_in_era
era_turns = refl

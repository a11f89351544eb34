-- ===== src/Ledger.antt =====
-- daemon/src/cycle.rs: the calendar day of an instant, and the daily ledger of water used.
pub mod Days
use dock_neighbor_hub.Shared.{
  ℕ, ◌+◌, ◌-◌, ◌*◌, ◌/◌, ◌%◌, Option, none, some, String, decimal, ltb, leb, str_eq, ◌<>◌,
  if◌then◌else◌,
}
use dock_neighbor_hub.Float.{Float64}
use dock_neighbor_hub.Cycle.{Ended, is_washdown}

-- A civil date: year, month from 1, day from 1.
pub record Date : Type 0 where
  pub year : ℕ
  pub month : ℕ
  pub day : ℕ

-- From the days since 1970-01-01, which for every instant from the epoch on are not negative.
unfoldable pub civil_from_days : ℕ → Date
civil_from_days days =
    let z : ℕ = days + 719468 in
    let era : ℕ = z / 146097 in
    let doe : ℕ = z % 146097 in
    let yoe : ℕ = (doe - doe / 1460 + doe / 36524 - doe / 146096) / 365 in
    let y : ℕ = yoe + era * 400 in
    let doy : ℕ = doe - (365 * yoe + yoe / 4 - yoe / 100) in
    let mp : ℕ = (5 * doy + 2) / 153 in
    let d : ℕ = doy - (153 * mp + 2) / 5 + 1 in
    let m : ℕ = if ltb mp 10 then mp + 3 else mp - 9 in
    record { year = if leb m 2 then y + 1 else y; month = m; day = d }

-- `{n:02}` and `{n:04}`.
pub pad2 : ℕ → String
pad2 n = if ltb n 10 then "0" <> decimal n else decimal n

pub pad4 : ℕ → String
pad4 n =
    if ltb n 10
    then "000" <> decimal n
    else if ltb n 100
    then "00" <> decimal n
    else if ltb n 1000
    then "0" <> decimal n
    else decimal n

unfoldable pub day_key : ℕ → String
unfolding pad2 pad4
day_key at_ms =
    let date = civil_from_days (at_ms / 86400000) in
    pad4 date.year <> "-" <> pad2 date.month <> "-" <> pad2 date.day

pub record Ledger (V : Type 0) : Type 0 where
  pub day : String
  pub volume_l : V

module _ {V : Type 0} ⦃f : Float64 V⦄ where
  unfoldable pub apply_to_ledger : Option (Ledger V) → Ended V → Ledger V
  apply_to_ledger ledger ended =
      let today = day_key ended.ended_at in
      let base : V = elim ledger [
        | none ↦ f.lit 0 0
        | some l ↦ if str_eq l.day today then l.volume_l else f.lit 0 0
      ] in
      record {
        day = today;
        volume_l = f.add_f base (if is_washdown ended.mode then f.lit 0 0 else ended.volume_l);
      }

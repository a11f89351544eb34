-- ===== src/CloseWatch.antt =====
-- daemon/src/close_watch.rs: the decision about one valve that has been told to close and has not
-- yet been seen shut. Times are milliseconds since the epoch, as natural numbers: the source
-- floors each difference at 0, which is the subtraction of ℕ. `attempts` is a `u32`.
pub mod Schedule
use dock_neighbor_hub.Shared.{
  ℕ, ◌+◌, ◌-◌, ◌*◌, ◌/◌, min, max, Bool, true, false, not, ◌&&◌, List, [], ◌∷◌, none, some, String,
  ltb, leb, if◌then◌else◌, u32, length, get_elem?, last_or, decimal,
}
use dock_neighbor_hub.Cycle.{EndReason}

pub data CloseCause : Type 0 where
  flood volume_cap manual : CloseCause

-- `CloseCause::as_str`.
unfoldable pub cause_str : CloseCause → String
cause_str flood = "flood"
cause_str volume_cap = "volume_cap"
cause_str manual = "manual"

unfoldable pub end_reason : CloseCause → EndReason
end_reason flood = EndReason.flood_shutoff
end_reason volume_cap = EndReason.volume_cap
end_reason manual = EndReason.manual

abbrev pub is_flood : CloseCause → Bool
is_flood flood = true
is_flood volume_cap = false
is_flood manual = false

unfoldable pub overrides : CloseCause → CloseCause → Bool
overrides self other = is_flood self && not (is_flood other)

pub record CloseSchedule : Type 0 where
  pub confirm_within_ms : ℕ
  pub retry_at_ms : List ℕ
  pub then_every_ms : ℕ
  pub alert_at_ms : ℕ
  pub give_up_ms : ℕ

abbrev pub sec : ℕ
sec = 1000

-- `CloseSchedule::PRODUCTION`.
abbrev pub production : CloseSchedule
production = record {
  confirm_within_ms = 10 * sec;
  retry_at_ms = (5 * sec) ∷ (10 * sec) ∷ (20 * sec) ∷ (40 * sec) ∷ [];
  then_every_ms = 60 * sec;
  alert_at_ms = 300 * sec;
  give_up_ms = 1800 * sec;
}

pub record CloseWatch : Type 0 where
  pub cause : CloseCause
  pub first_ms : ℕ
  pub last_ms : ℕ
  pub attempts : ℕ
  pub alerted : Bool

unfoldable pub opened : CloseCause → ℕ → CloseWatch
opened cause at_ms = record {
  cause = cause;
  first_ms = at_ms;
  last_ms = at_ms;
  attempts = 1;
  alerted = false;
}

pub data CloseStep : Type 0 where
  confirmed reissue wait gave_up : CloseStep

unfoldable pub alert_due : CloseSchedule → CloseWatch → Bool → ℕ → Bool
alert_due s w watering now_ms = watering && not w.alerted && leb s.alert_at_ms (now_ms - w.first_ms)

-- The offset of the attempt after the `i`-th re-issue, on the named offsets and past them.
offset_at : ℕ → List ℕ → ℕ → ℕ → ℕ
offset_at fallback retry then_every i = elim (get_elem? retry i) [
  | some ms ↦ ms
  | none ↦ last_or retry fallback + (i - length retry + 1) * then_every
]

unfoldable pub due_at_ms : CloseSchedule → ℕ → ℕ
unfolding offset_at
due_at_ms s n = if leb n 1 then 0 else offset_at 0 s.retry_at_ms s.then_every_ms (n - 2)

unfoldable pub close_step : CloseSchedule → CloseWatch → Bool → ℕ → CloseStep
close_step s w watering now_ms =
    let elapsed = now_ms - w.first_ms in
    if not watering
    then confirmed
    else if leb s.give_up_ms elapsed
    then gave_up
    else if leb (due_at_ms s (u32 (w.attempts + 1))) elapsed
    then reissue
    else wait

-- `i64::MAX`.
abbrev pub i64_max : ℕ
i64_max = 9223372036854775807

unfoldable pub next_look_ms : CloseSchedule → CloseWatch → ℕ → ℕ
next_look_ms s w now_ms =
    let due = w.first_ms + due_at_ms s (u32 (w.attempts + 1)) in
    let confirm_by = w.last_ms + s.confirm_within_ms in
    let give_up_at = w.first_ms + s.give_up_ms in
    let alert_at = if w.alerted then i64_max else w.first_ms + s.alert_at_ms in
    let target = if ltb now_ms confirm_by then min due confirm_by else due in
    let target' = if ltb now_ms alert_at then min target alert_at else target in
    max (min target' give_up_at - now_ms) 1

abbrev pub close_unconfirmed_event : String
close_unconfirmed_event = "linktap.valve.close_unconfirmed"

abbrev pub close_confirmed_late_event : String
close_confirmed_late_event = "linktap.valve.close_confirmed_late"

unfoldable pub unconfirmed_params : CloseWatch → ℕ → List (String × String)
unconfirmed_params w now_ms =
    ("cause", cause_str w.cause)
    ∷ ("attempts", decimal w.attempts)
    ∷ ("secs", decimal ((now_ms - w.first_ms) / sec))
    ∷ []

-- ===== src/CloseDriver/Passes.antt =====
-- What a run of passes over one closing valve does, while nobody else takes the slot.
use dock_neighbor_hub.Shared.{
  ℕ, suc, ◌+◌, ◌≡◌, ◌∙◌, Bool, true, false, List, [], ◌∷◌, ◌++◌, Option, none, some, String, arith,
  if◌then◌else◌, lookup, str_eq, str_eq_self, ◌&&◌, u32,
}
use dock_neighbor_hub.CloseWatch.{
  CloseSchedule, CloseWatch, confirmed, reissue, wait, gave_up, alert_due, close_step,
  close_unconfirmed_event, close_confirmed_late_event,
}
use dock_neighbor_hub.CloseDriver.{
  Closes, Effect, note_stop, note_stop_abandoned, send_stop, report_event, drive_one, tell_owner,
  act_on_step, settle_close, close_report,
}
use dock_neighbor_hub.CloseDriver.Slots.{settle_close-holds, lookup-settle_close}

-- The abstract pass over one slot: the watch that is left, and what is sent.
abbrev pub told_watch : CloseSchedule → CloseWatch → Bool → ℕ → CloseWatch
told_watch sched w watering now_ms =
    if alert_due sched w watering now_ms then record w { alerted = true } else w

abbrev pub watch_acted : CloseSchedule → CloseWatch → Bool → ℕ → Option CloseWatch
watch_acted sched w watering now_ms = elim (close_step sched w watering now_ms) [
  | confirmed ↦ none
  | gave_up ↦ none
  | wait ↦ some w
  | reissue ↦ some (record w { attempts = u32 (w.attempts + 1); last_ms = now_ms })
]

-- How often an effect list tells the owner of a failed close, corrects that, or sends a stop.
abbrev pub alerts : List Effect → ℕ
alerts [] = 0
alerts (report_event r ∷ es) = (if str_eq r.event close_unconfirmed_event then 1 else 0) + alerts es
alerts (note_stop id r ∷ es) = alerts es
alerts (note_stop_abandoned id ∷ es) = alerts es
alerts (send_stop id ∷ es) = alerts es

abbrev pub corrections : List Effect → ℕ
corrections [] = 0
corrections (report_event r ∷ es) =
    (if str_eq r.event close_confirmed_late_event then 1 else 0) + corrections es
corrections (note_stop id r ∷ es) = corrections es
corrections (note_stop_abandoned id ∷ es) = corrections es
corrections (send_stop id ∷ es) = corrections es

abbrev pub stops : List Effect → ℕ
stops [] = 0
stops (send_stop id ∷ es) = suc (stops es)
stops (note_stop id r ∷ es) = stops es
stops (note_stop_abandoned id ∷ es) = stops es
stops (report_event r ∷ es) = stops es

abbrev pub count : Bool → ℕ
count true = 1
count false = 0

settle_close_won :
    (closes : Closes) (id : String) (was : CloseWatch) (next : Option CloseWatch)
    → lookup id closes ≡ some was
    → let r = settle_close closes id was next in (r.0 ≡ true) × (lookup id r.1 ≡ next)
settle_close_won closes id was next h =
    let won = (settle_close-holds closes id was next).1 h in
    (won, lookup-settle_close closes id id was next ∙ rw (won, str_eq_self id))

-- What a part of a pass leaves in the slot, and how much of each kind it sends.
pub record Sent (id : String) (closes : Closes) (es : List Effect) (slot : Option CloseWatch)
    (a c t : ℕ) : Type 0 where
  pub left : lookup id closes ≡ slot
  pub alerted : alerts es ≡ a
  pub corrected : corrections es ≡ c
  pub stopped : stops es ≡ t

tell_owner-Sent :
    (sched : CloseSchedule) (closes : Closes) (id : String) (w : CloseWatch) (watering : Bool)
    (now_ms : ℕ)
    → lookup id closes ≡ some w
    → let r = tell_owner sched closes id w watering now_ms in
      (r.0 ≡ some (told_watch sched w watering now_ms))
      × Sent id r.1 r.2
          (some (told_watch sched w watering now_ms))
          (count (alert_due sched w watering now_ms))
          0
          0
unfolding tell_owner close_report
tell_owner-Sent sched closes id w watering now_ms h =
    let won = settle_close_won closes id w (some (record w { alerted = true })) h in ground arith

unfoldable pub is_reissue : CloseSchedule → CloseWatch → Bool → ℕ → Bool
is_reissue sched w watering now_ms = elim (close_step sched w watering now_ms) [
  | reissue ↦ true
  | _ ↦ false
]

unfoldable pub is_confirmed : CloseSchedule → CloseWatch → Bool → ℕ → Bool
is_confirmed sched w watering now_ms = elim (close_step sched w watering now_ms) [
  | confirmed ↦ true
  | _ ↦ false
]

act_on_step-Sent :
    (sched : CloseSchedule) (closes : Closes) (id : String) (w : CloseWatch) (watering : Bool)
    (now_ms : ℕ) (soonest : Option ℕ)
    → lookup id closes ≡ some w
    → let r = act_on_step sched closes id w watering now_ms soonest in
      Sent id r.0 r.1
        (watch_acted sched w watering now_ms)
        0
        (count (is_confirmed sched w watering now_ms && w.alerted))
        (count (is_reissue sched w watering now_ms))
unfolding act_on_step close_report is_reissue is_confirmed
act_on_step-Sent sched closes id w watering now_ms soonest h =
    let dropped = settle_close_won closes id w none h in
    let kept =
      settle_close_won closes id w
        (some (record w { attempts = u32 (w.attempts + 1); last_ms = now_ms })) h in
    ground arith

pub alerts-append : (es fs : List Effect) → alerts (es ++ fs) ≡ alerts es + alerts fs
alerts-append [] fs = omega arith
alerts-append (report_event r ∷ es) fs = omega (arith, alerts-append es fs)
alerts-append (note_stop id r ∷ es) fs = alerts-append es fs
alerts-append (note_stop_abandoned id ∷ es) fs = alerts-append es fs
alerts-append (send_stop id ∷ es) fs = alerts-append es fs

pub corrections-append :
    (es fs : List Effect) → corrections (es ++ fs) ≡ corrections es + corrections fs
corrections-append [] fs = omega arith
corrections-append (report_event r ∷ es) fs = omega (arith, corrections-append es fs)
corrections-append (note_stop id r ∷ es) fs = corrections-append es fs
corrections-append (note_stop_abandoned id ∷ es) fs = corrections-append es fs
corrections-append (send_stop id ∷ es) fs = corrections-append es fs

pub stops-append : (es fs : List Effect) → stops (es ++ fs) ≡ stops es + stops fs
stops-append [] fs = omega arith
stops-append (send_stop id ∷ es) fs = omega (arith, stops-append es fs)
stops-append (note_stop id r ∷ es) fs = stops-append es fs
stops-append (note_stop_abandoned id ∷ es) fs = stops-append es fs
stops-append (report_event r ∷ es) fs = stops-append es fs

Sent-append :
    {id : String} {closes closes' : Closes} {es fs : List Effect} {slot slot' : Option CloseWatch}
    {a c t a' c' t' : ℕ}
    → Sent id closes es slot a c t
    → Sent id closes' fs slot' a' c' t'
    → Sent id closes' (es ++ fs) slot' (a + a') (c + c') (t + t')
Sent-append {es} {fs} p q = record {
  left = q.left;
  alerted = omega (arith, alerts-append es fs, p.alerted, q.alerted);
  corrected = omega (arith, corrections-append es fs, p.corrected, q.corrected);
  stopped = omega (arith, stops-append es fs, p.stopped, q.stopped);
}

-- An unanswered status read counts as a valve that is still open.
abbrev pub seen_watering : Option Bool → Bool
seen_watering none = true
seen_watering (some b) = b

pub drive_one-Sent :
    (sched : CloseSchedule) (closes : Closes) (id : String) (w : CloseWatch) (status : Option Bool)
    (now_ms : ℕ) (soonest : Option ℕ)
    → lookup id closes ≡ some w
    → let r = drive_one sched closes id w status now_ms soonest in
      let watering = seen_watering status in
      let told = told_watch sched w watering now_ms in
      Sent id r.0 r.1
        (watch_acted sched told watering now_ms)
        (count (alert_due sched w watering now_ms) + 0)
        (0 + count (is_confirmed sched told watering now_ms && told.alerted))
        (0 + count (is_reissue sched told watering now_ms))
unfolding drive_one
drive_one-Sent sched closes id w none now_ms soonest h =
    let (e, told) = tell_owner-Sent sched closes id w true now_ms h in
    rw (e, drive_one)
      (Sent-append told (act_on_step-Sent sched _ id _ true now_ms soonest told.left))
drive_one-Sent sched closes id w (some b) now_ms soonest h =
    let (e, told) = tell_owner-Sent sched closes id w b now_ms h in
    rw (e, drive_one) (Sent-append told (act_on_step-Sent sched _ id _ b now_ms soonest told.left))

-- Passes over one valve, each from a fresh snapshot, until its slot is empty.
unfoldable pub pass_run :
    CloseSchedule → String → List (Option Bool × ℕ) → Closes → Closes × List Effect
pass_run sched id [] closes = (closes, [])
pass_run sched id ((status, now_ms) ∷ rest) closes = elim (lookup id closes) [
  | none ↦ (closes, [])
  | some w ↦
      let (closes', es, _) = drive_one sched closes id w status now_ms none in
      let (closes'', fs) = pass_run sched id rest closes' in (closes'', es ++ fs)
]

-- ===== src/CloseDriver.antt =====
-- daemon/src/hub_server.rs, the closing of valves: `claim_close`, `settle_close`, `drive_closes`.
-- The slots are the map `valve_closes`. What the code sends or hands to the LinkTap runtime is a
-- list of effects, in order; log lines are left out. A gateway's answer and the clock are arguments.
pub mod Slots
pub mod Passes
pub mod Runs
use dock_neighbor_hub.Shared.{
  ℕ, suc, ◌+◌, ◌≡◌, ◌↔◌, min, max, Bool, true, false, not, ◌&&◌, List, [], ◌∷◌, ◌++◌, Option, none,
  some, String, ◌<>◌, ◌==◌, arith, if◌then◌else◌, u32, lookup, insert, remove,
}
use dock_neighbor_hub.Cycle.{EndReason}
use dock_neighbor_hub.Linktap.{Report, normalize_dev_id}
use dock_neighbor_hub.CloseWatch.{
  CloseCause, CloseSchedule, CloseWatch, CloseStep, flood, volume_cap, manual, confirmed, reissue,
  wait, gave_up, overrides, end_reason, opened, alert_due, close_step, next_look_ms,
  unconfirmed_params, close_unconfirmed_event, close_confirmed_late_event,
}

-- `rt.valve_closes`.
abbrev pub Closes : Type 0
Closes = List (String × CloseWatch)

pub data Effect : Type 0 where
  note_stop : String → EndReason → Effect
  note_stop_abandoned : String → Effect
  send_stop : String → Effect
  report_event : Report → Effect

-- `#[derive(PartialEq)]` of the cause and of the watch.
cause_eq : CloseCause → CloseCause → Bool
cause_eq flood flood = true
cause_eq volume_cap volume_cap = true
cause_eq manual manual = true
cause_eq _ _ = false

bool_eq : Bool → Bool → Bool
bool_eq true b = b
bool_eq false b = not b

pub watch_eq : CloseWatch → CloseWatch → Bool
unfolding cause_eq bool_eq
watch_eq a b =
    cause_eq a.cause b.cause
    && a.first_ms == b.first_ms
    && a.last_ms == b.last_ms
    && a.attempts == b.attempts
    && bool_eq a.alerted b.alerted

pub watch_eq_iff : (a b : CloseWatch) → (watch_eq a b ≡ true) ↔ (a ≡ b)
unfolding watch_eq
watch_eq_iff a b = ground arith

-- The slot is claimed and the run marked before anything is sent.
claim : Closes → String → CloseCause → ℕ → Bool × Closes × List Effect
claim closes id cause now_ms =
    (true, insert id (opened cause now_ms) closes, note_stop id (end_reason cause) ∷ [])

unfoldable pub claim_close : Closes → String → CloseCause → ℕ → Bool × Closes × List Effect
unfolding claim
claim_close closes dev_id cause now_ms =
    let id = normalize_dev_id dev_id in
    elim (lookup id closes) [
      | none ↦ claim closes id cause now_ms
      | some open_close ↦
          if overrides cause open_close.cause
          then claim closes id cause now_ms
          else (false, closes, [])
    ]

-- `closes.get(id) == Some(&was)`.
holds : Closes → String → CloseWatch → Bool
holds closes id was = elim (lookup id closes) [ none ↦ false | some w ↦ watch_eq w was ]

unfoldable pub settle_close : Closes → String → CloseWatch → Option CloseWatch → Bool × Closes
unfolding holds
settle_close closes id was next =
    if holds closes id was
    then (true, elim next [ none ↦ remove id closes | some w ↦ insert id w closes ])
    else (false, closes)

close_report : String → String → CloseWatch → ℕ → Report
close_report id event w now_ms = record {
  device = "lt_" <> id;
  event = event;
  params = unconfirmed_params w now_ms;
  token = none;
}

-- The owner is told, if it is time: `none` is the `continue` of a lost slot.
unfoldable pub tell_owner :
    CloseSchedule
    → Closes
    → String
    → CloseWatch
    → Bool
    → ℕ
    → Option CloseWatch × Closes × List Effect
unfolding close_report
tell_owner sched closes id w watering now_ms =
    let next = record w { alerted = true } in
    let (settled, closes') = settle_close closes id w (some next) in
    if alert_due sched w watering now_ms
    then if settled
      then (
        some next,
        closes',
        report_event (close_report id close_unconfirmed_event next now_ms) ∷ [],
      )
      else (none, closes', [])
    else (some w, closes, [])

-- `soonest`, joined with one more nap.
abbrev pub sooner : Option ℕ → ℕ → Option ℕ
sooner none ms = some ms
sooner (some s) ms = some (min s ms)

-- The `match` on the decision.
unfoldable pub act_on_step :
    CloseSchedule
    → Closes
    → String
    → CloseWatch
    → Bool
    → ℕ
    → Option ℕ
    → Closes × List Effect × Option ℕ
unfolding close_report
act_on_step sched closes id w watering now_ms soonest = elim (close_step sched w watering now_ms) [
  | confirmed ↦
      let (settled, closes') = settle_close closes id w none in
      (
        closes',
        if settled && w.alerted
            then report_event (close_report id close_confirmed_late_event w now_ms) ∷ []
            else [],
        soonest,
      )
  | wait ↦ (closes, [], sooner soonest (next_look_ms sched w now_ms))
  | reissue ↦
      let next = record w { attempts = u32 (w.attempts + 1); last_ms = now_ms } in
      let (settled, closes') = settle_close closes id w (some next) in
      if settled
      then (closes', send_stop id ∷ [], sooner soonest (next_look_ms sched next now_ms))
      else (closes', [], soonest)
  | gave_up ↦
      let (settled, closes') = settle_close closes id w none in
      (closes', if settled then note_stop_abandoned id ∷ [] else [], soonest)
]

-- One valve of a pass. `status` is what its `cmd 3` reply says; no answer counts as still open.
unfoldable pub drive_one :
    CloseSchedule
    → Closes
    → String
    → CloseWatch
    → Option Bool
    → ℕ
    → Option ℕ
    → Closes × List Effect × Option ℕ
drive_one sched closes id w status now_ms soonest =
    let watering : Bool = elim status [ none ↦ true | some b ↦ b ] in
    let (w', closes', told) = tell_owner sched closes id w watering now_ms in
    elim w' [
      | none ↦ (closes', told, soonest)
      | some watch ↦
          let (closes'', done, nap) = act_on_step sched closes' id watch watering now_ms soonest in
          (closes'', told ++ done, nap)
    ]

-- The loop over the snapshot. `gateway` answers for each valve, with the time of the answer.
unfoldable pub drive_pending :
    CloseSchedule
    → (String → Option Bool × ℕ)
    → Closes
    → List (String × CloseWatch)
    → Option ℕ
    → Closes × List Effect × Option ℕ
drive_pending sched gateway closes [] soonest = (closes, [], soonest)
drive_pending sched gateway closes ((id, w) ∷ pending) soonest =
    let (status, now_ms) = gateway id in
    let (closes', done, soonest') = drive_one sched closes id w status now_ms soonest in
    let (closes'', rest, soonest'') = drive_pending sched gateway closes' pending soonest' in
    (closes'', done ++ rest, soonest'')

-- `drive_closes`: with no gateway configured every watch is dropped. The nap is at least 1 ms.
unfoldable pub drive_closes :
    CloseSchedule → Option (String → Option Bool × ℕ) → Closes → Closes × List Effect × Option ℕ
drive_closes sched none closes = ([], [], none)
drive_closes sched (some gateway) closes =
    let (closes', done, soonest) = drive_pending sched gateway closes closes none in
    (closes', done, elim soonest [ none ↦ none | some ms ↦ some (max ms 1) ])

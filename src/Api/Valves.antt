-- ===== src/Api/Valves.antt =====
-- daemon/src/hub_server.rs: `do_valve`, from the caller's role to the record of the run, with the
-- slots of CloseDriver and the runtime of LinktapRuntime. The commands sent are effects, the
-- gateway's unit and reply the world's answers.
pub mod Gates
use dock_neighbor_hub.Shared.{
  ℕ, Bool, true, false, not, ◌&&◌, ◌||◌, Option, none, some, List, [], ◌∷◌, String, ◌<>◌, is_empty,
  if◌then◌else◌, str_eq, any, ltb, is_some,
}
use dock_neighbor_hub.Float.{Float64}
use dock_neighbor_hub.Linktap.{VolUnit, normalize_dev_id, from_litres}
use dock_neighbor_hub.Cycle.{Mode, washdown, from_wire, is_washdown}
use dock_neighbor_hub.LinktapRuntime.{Runtime, unwrap_or, note_stop, note_hub_open, profile_for}
use dock_neighbor_hub.CloseWatch.{CloseCause, manual}
use dock_neighbor_hub.CloseDriver as Closing
use dock_neighbor_hub.CloseDriver.{Closes, claim_close}
use dock_neighbor_hub.Access.{may_control}
use dock_neighbor_hub.Store.{LinkTapConfig, read_config}
use dock_neighbor_hub.Api.{
  Caller, Answer, ok_json, refusal, Outcome, World, Rt, Effect, linktap_wake, start_valve,
  stop_valve, ValveReq, ring, reading,
}

-- The gates of `do_valve` that do not look at the action.
unfoldable pub valve_refusal : LinkTapConfig → String → Option (ℕ × String)
unfolding normalize_dev_id
valve_refusal lt dev_id =
    if not lt.allowed
    then some (402, "this vehicle's plan does not include valve control")
    else if is_empty lt.host || is_empty lt.gw_id
    then some (409, "no LinkTap gateway is configured on this hub")
    else if is_empty dev_id
    then some (422, "devId is required")
    else if not (any (λ d. str_eq (normalize_dev_id d) dev_id) lt.dev_ids)
    then some (404, "that valve is not configured on this hub")
    else none

abbrev refused_by_gateway : World → String → Answer
refused_by_gateway w dev_id = refusal 502 (
    "the gateway did not accept that command: "
    <> unwrap_or (w.reply_error dev_id) "the gateway refused the command")

module _ {V : Type 0} where
  -- What `claim_close` marks on the runtime.
  abbrev pub marked : List Closing.Effect → Option (Runtime V) → Option (Runtime V)
  marked es none = none
  marked [] (some r) = some r
  marked (Closing.note_stop id why ∷ es) (some r) = marked es (some (note_stop r id why))
  marked (Closing.note_stop_abandoned id ∷ es) (some r) = marked es (some r)
  marked (Closing.send_stop id ∷ es) (some r) = marked es (some r)
  marked (Closing.report_event e ∷ es) (some r) = marked es (some r)

  unfoldable pub claimed : World → Rt V → String → CloseCause → Bool × Rt V
  claimed w rt dev_id cause =
      let c = claim_close rt.valve_closes dev_id cause w.now_ms in
      (c.0, record rt { valve_closes = c.1; linktap = marked c.2 rt.linktap })

  unfoldable pub close_valve : World → Rt V → String → Rt V × Answer
  unfolding claimed
  close_valve w rt dev_id =
      let c = claimed w rt dev_id manual in
      let sent = ring (stop_valve dev_id) c.1 in
      if not c.0
      then (ring linktap_wake c.1, ok_json)
      else if not (w.reply_ok dev_id)
      then (sent, refused_by_gateway w dev_id)
      else (ring linktap_wake sent, ok_json)

module _ {V : Type 0} ⦃f : Float64 V⦄ where
  -- Whether the caller gave a limit in litres with the mode "washdown", spelled exactly so; the run
  -- itself is recorded by `from_wire`, which also reads other spellings.
  abbrev pub is_capped_washdown : ValveReq V → Bool
  is_capped_washdown req =
      str_eq (unwrap_or req.mode "normal") "washdown" && is_some req.volume_cap_l

  abbrev pub in_gateway_unit : VolUnit → Option V → Option V
  in_gateway_unit unit none = none
  in_gateway_unit unit (some l) = some (from_litres unit l)

  -- The limit that goes out with the command, in the gateway's unit.
  unfoldable pub sent_cap : World → ValveReq V → Option V
  unfolding from_litres
  sent_cap w req =
      if str_eq (unwrap_or req.mode "normal") "washdown"
      then none
      else in_gateway_unit w.vol_unit req.volume_cap_l

  -- The limit that the hub keeps for the run.
  unfoldable pub kept_cap : Runtime V → String → ValveReq V → V
  kept_cap r dev_id req =
      if is_washdown (from_wire (unwrap_or req.mode "normal"))
      then f.lit 0 0
      else unwrap_or req.volume_cap_l (profile_for r dev_id).volume_cap_l

  abbrev noted : World → String → ValveReq V → ℕ → Option (Runtime V) → Option (Runtime V)
  unfolding kept_cap
  noted w dev_id req secs none = none
  noted w dev_id req secs (some r) = some (
      unwrap_or
        (note_hub_open r dev_id w.now_ms (from_wire (unwrap_or req.mode "normal")) secs
          (kept_cap r dev_id req) (unwrap_or req.resume_normal false))
        r)

  unfoldable pub open_valve : World → Rt V → String → ValveReq V → ℕ → Rt V × Answer
  unfolding sent_cap noted kept_cap
  open_valve w rt dev_id req secs =
      let sent = ring (start_valve dev_id secs (sent_cap w req)) rt in
      if not (w.reply_ok dev_id) then (sent, refused_by_gateway w dev_id) else (
        ring linktap_wake (record sent { linktap = noted w dev_id req secs rt.linktap }),
        ok_json,
      )

  unfoldable pub run_valve : World → Rt V → String → ValveReq V → Rt V × Answer
  unfolding close_valve open_valve
  run_valve w rt dev_id req =
      let secs = unwrap_or req.duration_secs 0 in
      if str_eq req.action "close"
      then close_valve w rt dev_id
      else if not (str_eq req.action "open")
      then (rt, refusal 422 ("unknown action '" <> (req.action <> "' — expected open or close")))
      else if not (ltb 0 secs)
      then (rt, refusal 422 "durationSecs is required to open a valve")
      else if is_capped_washdown req
      then (
        rt,
        refusal 422 "a washdown is time-limited only — do not send volumeCapL with mode=washdown",
      )
      else open_valve w rt dev_id req secs

  unfoldable pub do_valve : World → Rt V → Caller → Outcome (ValveReq V) → Rt V × Answer
  unfolding valve_refusal run_valve
  do_valve w rt caller body =
      if not (may_control caller.role)
      then (rt, refusal 403 "controlling a valve needs control access or above")
      else reading rt body (λ req.
        let dev_id = normalize_dev_id req.dev_id in
        elim (valve_refusal (read_config rt.file).linktap dev_id) [
          | some (status, why) ↦ (rt, refusal status why)
          | none ↦ run_valve w rt dev_id req
        ])

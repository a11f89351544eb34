-- ===== src/Api/Settings.antt =====
-- daemon/src/hub_server.rs: `do_config`, `do_token`, `do_clear`, `do_update`, `do_logs`,
-- `do_refresh`, `do_watch`, `do_gps`, `do_gps_discover`; `lease_extend` of daemon/src/cadence.rs.
use dock_neighbor_hub.Shared.{
  ℕ, ◌+◌, max, Bool, true, false, not, ◌&&◌, ◌||◌, Option, none, some, List, [], String, is_empty,
  if◌then◌else◌, trim, ltb, leb, ◌==◌, all, is_some_and, lowercase,
}
use dock_neighbor_hub.Float.{Float64}
use dock_neighbor_hub.LinktapRuntime.{unwrap_or, Print}
use dock_neighbor_hub.Access.{may_administer, may_control, may_view}
use dock_neighbor_hub.KeySync.{booted}
use dock_neighbor_hub.Cadence.{refresh_should_ring, lease_active}
use dock_neighbor_hub.Store.{HubConfig, GpsConfig, read_config, clear_config}
use dock_neighbor_hub.Api.{
  Caller, Answer, ok_json, refusal, Outcome, World, Rt, gps_wake, router_wake, linktap_wake,
  start_update, ConfigReq, GpsReq, ring, note_activity, saved, store, reading,
}

abbrev pub heartbeat_floor_secs : ℕ
heartbeat_floor_secs = 15

abbrev pub nonce_ping_min_secs : ℕ
nonce_ping_min_secs = 60

abbrev pub nonce_ping_max_secs : ℕ
nonce_ping_max_secs = 3600

abbrev pub trimmed : Option String → Option String
trimmed none = none
trimmed (some s) = some (trim s)

abbrev pub nonce_refused : ℕ → Bool
nonce_refused n = not (n == 0) && not (leb nonce_ping_min_secs n && leb n nonce_ping_max_secs)

-- The first check of a request that fails.
unfoldable pub config_refusal : ConfigReq → Option String
config_refusal req =
    if is_some_and req.heartbeat_secs (λ h. ltb h heartbeat_floor_secs)
    then some "heartbeatSecs must be at least 15"
    else if is_some_and req.nonce_ping_secs nonce_refused
    then some "noncePingSecs must be 0 (use the default 900) or between 60 and 3600"
    else if is_some_and req.name (λ n. is_empty (trim n))
    then some "name must not be empty"
    else none

abbrev pub switched_off : Option Bool → Bool → Bool
switched_off none off = off
switched_off (some on) off = not on

unfoldable pub configured : ConfigReq → HubConfig → HubConfig
configured req cfg = record cfg {
  name = unwrap_or (trimmed req.name) cfg.name;
  heartbeat_secs = unwrap_or req.heartbeat_secs cfg.heartbeat_secs;
  nonce_ping_secs = unwrap_or req.nonce_ping_secs cfg.nonce_ping_secs;
  enabled = unwrap_or req.enabled cfg.enabled;
  web_ui_disabled = switched_off req.web_ui_enabled cfg.web_ui_disabled;
  shelly_secret = unwrap_or (trimmed req.shelly_secret) cfg.shelly_secret;
}

-- Omitted or empty keeps what is stored.
abbrev pub kept_secret : Option String → String → String
kept_secret none old = old
kept_secret (some s) old = if is_empty s then old else s

abbrev pub lowered : Option String → Option String
lowered none = none
lowered (some s) = some (lowercase (trim s))

unfoldable pub gps_configured : GpsReq → GpsConfig → GpsConfig
gps_configured req g = record g {
  kind = trim req.kind;
  host = trim req.host;
  port = unwrap_or req.port 0;
  username = unwrap_or (trimmed req.username) g.username;
  password = kept_secret req.password g.password;
  dev_id = trim req.dev_id;
  enabled = unwrap_or req.enabled true;
  protocol = unwrap_or (lowered req.protocol) g.protocol;
}

abbrev pub is_ascii_whitespace : ℕ → Bool
is_ascii_whitespace c = c == 32 || (c == 9 || (c == 10 || (c == 12 || c == 13)))

module _ {V : Type 0} where
  unfoldable pub apply_web_ui_switch : World → Rt V → Bool → Rt V
  apply_web_ui_switch w rt true = record rt {
    web_ui_disabled = false;
    web = if rt.web_ui_disabled then w.bundle else rt.web;
  }
  apply_web_ui_switch w rt false = record rt { web_ui_disabled = true; web = none }

  unfoldable pub switch_if : World → Option Bool → Rt V → Rt V
  unfolding apply_web_ui_switch
  switch_if w none rt = rt
  switch_if w (some on) rt = apply_web_ui_switch w rt on

  -- The interval is published to the relay before the file is written.
  unfoldable pub do_config : World → Rt V → Caller → Outcome ConfigReq → Rt V × Answer
  unfolding config_refusal configured switch_if may_administer
  do_config w rt caller body =
      if not (may_administer caller.role)
      then (rt, refusal 403 "changing the hub's settings needs a co-owner or the owner")
      else reading rt body (λ req. elim (config_refusal req) [
        | some why ↦ (rt, refusal 422 why)
        | none ↦
            let rt' = record rt {
              nonce_ping_secs = unwrap_or req.nonce_ping_secs rt.nonce_ping_secs;
            } in
            store w rt' (configured req (read_config rt.file))
              (λ r. (switch_if w req.web_ui_enabled r, ok_json))
      ])

  unfoldable pub do_token : World → Rt V → Caller → Outcome String → Rt V × Answer
  do_token w rt caller body =
      if not (may_administer caller.role)
      then (rt, refusal 403 "rotating the hub's credential needs a co-owner or the owner")
      else reading rt body (λ token.
        if is_empty token
        then (rt, refusal 422 "token must not be empty")
        else store w rt (record (read_config rt.file) { token = token }) (λ r. (r, ok_json)))

  unfoldable pub do_clear : World → Rt V → Caller → Rt V × Answer
  do_clear w rt caller =
      if not (may_administer caller.role)
      then (rt, refusal 403 "removing the hub needs a co-owner or the owner")
      else saved rt (clear_config w.remove_io rt.file) (λ r. (
        record r { keys = []; key_sync = booted none w.now_ms },
        record { status = 204; error = none },
      ))

  unfoldable pub do_update : World → Rt V → Caller → Rt V × Answer
  do_update w rt caller =
      if not (may_administer caller.role)
      then (rt, refusal 403 "updating the hub needs a co-owner or the owner")
      else if not w.asset
      then (
        rt,
        refusal 501 "remote update is not supported on this platform yet — use the app's installer",
      )
      else (ring start_update rt, ok_json)

  unfoldable pub do_logs : Rt V → Caller → Rt V × Answer
  do_logs rt caller =
      if not (may_control caller.role)
      then (rt, refusal 403 "reading the hub log needs control access or above")
      else (rt, ok_json)

  unfoldable pub do_gps_discover : Rt V → Caller → Rt V × Answer
  do_gps_discover rt caller =
      if not (may_control caller.role)
      then (rt, refusal 403 "finding a GPS source needs control access or above")
      else (rt, ok_json)

  unfoldable pub do_refresh : World → Rt V → Caller → Rt V × Answer
  do_refresh w rt caller =
      if not (may_view caller.role)
      then (rt, refusal 403 "asking the hub to check in needs a member of this vessel")
      else if refresh_should_ring rt.last_refresh_ms w.now_ms
      then (
        note_activity w (record rt { last_refresh_ms = w.now_ms }),
        record { status = 202; error = none },
      )
      else (rt, record { status = 202; error = none })

  unfoldable pub do_gps : World → Rt V → Caller → Outcome GpsReq → Rt V × Answer
  unfolding gps_configured
  do_gps w rt caller body =
      if not (may_administer caller.role)
      then (rt, refusal 403 "configuring the GPS source needs a co-owner or the owner")
      else reading rt body (λ req.
        let cfg = read_config rt.file in
        store w rt (record cfg { gps = gps_configured req cfg.gps })
          (λ r. (ring gps_wake r, ok_json)))

  -- The lease of a member who watches, in floating-point seconds; `print` casts to whole numbers.
  module _ ⦃f : Float64 V⦄ (print : Print V) where
    abbrev clamp : V → V → V → V
    clamp x lo hi = if f.lt_f x lo then lo else if f.lt_f hi x then hi else x

    abbrev lease_secs : Option V → V
    lease_secs none = f.lit 120 0
    lease_secs (some s) = if f.is_finite s then s else f.lit 120 0

    unfoldable pub lease_extend : ℕ → ℕ → Option V → ℕ
    lease_extend current_until_ms now_ms lease_sec =
        let sec = clamp (lease_secs lease_sec) (f.lit 30 0) (f.lit 300 0) in
        max current_until_ms (now_ms + print.as_u64 (f.mul_f sec (f.lit 1000 0)))

    unfoldable pub do_watch :
        World → Rt V → Caller → List ℕ → (List ℕ → Outcome (Option V)) → Rt V × Answer
    unfolding lease_extend
    do_watch w rt caller body parse =
        if not (may_view caller.role)
        then (rt, refusal 403 "watching the vessel needs a member of this vessel")
        else reading rt (if all is_ascii_whitespace body then Outcome.fine none else parse body)
            (λ lease_sec.
              let until = lease_extend rt.lease_until_ms w.now_ms lease_sec in
              let rt' = record rt { lease_until_ms = until } in
              (
                if lease_active rt.lease_until_ms w.now_ms
                    then rt'
                    else ring linktap_wake (ring router_wake (ring gps_wake (note_activity w rt'))),
                ok_json,
              ))

-- ===== src/GatewayWatch.antt =====
-- daemon/src/linktap_runtime.rs: which events shut the valves, and the watch of a gateway's silence.
pub mod Episodes
use dock_neighbor_hub.Shared.{
  ℕ, ◌+◌, ◌-◌, ◌/◌, ◌<>◌, Bool, true, false, not, ◌&&◌, ◌||◌, Option, none, some, String, List, [],
  ◌∷◌, if◌then◌else◌, any, ltb, decimal, codes, to_ascii_lowercase, has_suffix, contains,
}
use dock_neighbor_hub.Linktap.{Report, Gateway}

-- `SENSOR_FAULT_WORDS`.
abbrev pub sensor_fault_words : List String
sensor_fault_words =
    "unplugged" ∷ "disconnected" ∷ "cable" ∷ "fault" ∷ "error" ∷ "low_battery" ∷ "battery_low"
    ∷ "mute" ∷ "unmute" ∷ "offline" ∷ []

-- `is_flood_shutoff` on the code points of the event's name.
unfoldable pub flood_shutoff_of : List ℕ → Bool
flood_shutoff_of name =
    let e = to_ascii_lowercase name in
    if has_suffix e (codes ".measurement") || has_suffix e (codes ".change")
    then false
    else if has_suffix e (codes "_off") || has_suffix e (codes ".off")
    then false
    else if any (λ w. contains e (codes w)) sensor_fault_words
    then false
    else contains e (codes "flood") || (contains e (codes "leak") || contains e (codes "alarm"))

unfoldable pub is_flood_shutoff : String → Bool
unfolding flood_shutoff_of
is_flood_shutoff event = flood_shutoff_of (codes event)

-- `GATEWAY_OFFLINE_GRACE_SECS` in milliseconds.
abbrev pub grace_ms : ℕ
grace_ms = 1800000

abbrev pub gateway_offline_event : String
gateway_offline_event = "linktap.gateway.offline"

abbrev pub gateway_online_event : String
gateway_online_event = "linktap.gateway.online"

pub record GatewayWatch : Type 0 where
  pub last_seen_ms : Option ℕ
  pub offline_reported : Bool

unfoldable pub outage_mins : Option ℕ → ℕ → ℕ
outage_mins none now_ms = 0
outage_mins (some t) now_ms = (now_ms - t) / 60000

unfoldable pub gateway_report : Gateway → String → ℕ → Report
gateway_report gw event mins = record {
  device = "lt_gw_" <> gw.gw_id;
  event = event;
  params = ("host", gw.host) ∷ ("mins", decimal mins) ∷ [];
  token = none;
}

-- `gateway_watch_step` where the gateway did not answer since `since`.
unfoldable pub silent_since : GatewayWatch → Gateway → ℕ → Option ℕ → GatewayWatch × Option Report
unfolding gateway_report
silent_since watch gw now_ms none = (record watch { last_seen_ms = some now_ms }, none)
silent_since watch gw now_ms (some since) =
    if watch.offline_reported
    then (watch, none)
    else if ltb (now_ms - since) grace_ms
    then (watch, none)
    else (
      record watch { offline_reported = true },
      some (gateway_report gw gateway_offline_event (outage_mins (some since) now_ms)),
    )

unfoldable pub gateway_watch_step : GatewayWatch → Gateway → Bool → ℕ → GatewayWatch × Option Report
unfolding gateway_report silent_since
gateway_watch_step watch gw reached now_ms =
    let next : GatewayWatch = record { last_seen_ms = some now_ms; offline_reported = false } in
    let mins = outage_mins watch.last_seen_ms now_ms in
    if not reached
    then silent_since watch gw now_ms watch.last_seen_ms
    else if not watch.offline_reported
    then (next, none)
    else (next, some (gateway_report gw gateway_online_event mins))

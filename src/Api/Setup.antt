-- ===== src/Api/Setup.antt =====
-- daemon/src/hub_server.rs: the first-run door, `h_identity` and `h_bootstrap`, behind
-- `first_run_only`. `uptime` is what the service's clock says since its start, in seconds. The door is
-- checked before the store's lock is taken: `seen` is the file at the door, `rt` the state under the
-- lock, whatever other calls did in between.
use dock_neighbor_hub.Shared.{
  ℕ, true, ◌||◌, Option, none, some, String, ◌<>◌, is_empty, if◌then◌else◌, trim, ltb,
}
use dock_neighbor_hub.LinktapRuntime.{unwrap_or}
use dock_neighbor_hub.Access.{
  IpAddr, SetupRefusal, config_damaged, already_set_up, adopt_refused, off_network, window_closed,
  setup_status, first_run_only,
}
use dock_neighbor_hub.Store.{
  HubConfig, ConfigState, config_damage, read_config, write_config, with_hub_id,
}
use dock_neighbor_hub.Api.{Answer, ok_json, refusal, Outcome, World, Rt, reading}
use dock_neighbor_hub.Api.Settings.{heartbeat_floor_secs}

pub record BootstrapReq : Type 0 where
  pub vid : String
  pub name : String
  pub token : String
  pub heartbeat_secs : Option ℕ

abbrev setup_message : SetupRefusal → String
setup_message (config_damaged why) =
    "this hub's configuration is damaged and must be repaired or removed first: " <> why
setup_message already_set_up = "this hub is already set up; rotate its credential instead"
setup_message (adopt_refused off_network) =
    "this hub can only be set up from the computer it runs on, or from a device on the same local network"
setup_message (adopt_refused window_closed) =
    "this hub's setup window has closed — restart the hub service to open it again, then set the hub up within 15 minutes"

abbrev hub_name : String → String
hub_name name = if is_empty (trim name) then "Hub" else trim name

-- The configuration that a hub is signed with.
unfoldable pub bootstrapped : BootstrapReq → String → HubConfig → HubConfig
unfolding with_hub_id
bootstrapped req minted cfg = record (with_hub_id cfg minted).0 {
  vid = req.vid;
  name = hub_name req.name;
  token = req.token;
  enabled = true;
  heartbeat_secs = unwrap_or req.heartbeat_secs 60;
}

unfoldable pub bootstrap_refusal : BootstrapReq → Option String
bootstrap_refusal req =
    if is_empty req.vid || is_empty req.token
    then some "vid and token are required"
    else if ltb (unwrap_or req.heartbeat_secs 60) heartbeat_floor_secs
    then some "heartbeatSecs must be at least 15"
    else none

unfoldable pub door : World → ConfigState → IpAddr → ℕ → Option SetupRefusal
door w seen peer uptime =
    let cfg = read_config seen in
    first_run_only (config_damage seen) cfg.vid cfg.token peer w.local_ips uptime

module _ {V : Type 0} where
  -- The answer to a write of the store.
  abbrev pub written : Rt V → ConfigState × Option String → Rt V × Answer
  written rt (file, none) = (record rt { file = file }, ok_json)
  written rt (file, some e) = (
    record rt { file = file },
    refusal 500 ("this hub cannot write its own configuration: " <> e),
  )

  unfoldable pub h_identity : World → ConfigState → Rt V → IpAddr → ℕ → Rt V × Answer
  unfolding door with_hub_id
  h_identity w seen rt peer uptime = elim (door w seen peer uptime) [
    | some why ↦ (rt, refusal (setup_status why) (setup_message why))
    | none ↦
        let (cfg, changed) = with_hub_id (read_config rt.file) w.minted in
        if changed then written rt (write_config w.write_io rt.file cfg) else (rt, ok_json)
  ]

  unfoldable pub h_bootstrap :
      World → ConfigState → Rt V → IpAddr → ℕ → Outcome BootstrapReq → Rt V × Answer
  unfolding door bootstrapped bootstrap_refusal
  h_bootstrap w seen rt peer uptime body = elim (door w seen peer uptime) [
    | some why ↦ (rt, refusal (setup_status why) (setup_message why))
    | none ↦ reading rt body (λ req. elim (bootstrap_refusal req) [
      | some why ↦ (rt, refusal 422 why)
      | none ↦
          let cfg = bootstrapped req w.minted (read_config rt.file) in
          written rt (write_config w.write_io rt.file cfg)
    ])
  ]

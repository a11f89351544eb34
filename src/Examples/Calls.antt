-- ===== src/Examples/Calls.antt =====
-- Calls on the management API of one hub, with the numbers of Examples/Valves for `f64`.
use dock_neighbor_hub.Shared.{
  ℕ, ◌+◌, ◌&&◌, ◌≡◌, ◌≤◌, ◌⊎◌, refl, Bool, true, false, none, some, List, [], ◌∷◌, String, any,
  str_eq, is_some, length, lowercase, to_ascii_lowercase, trim, take_chars, lookup,
}
use dock_neighbor_hub.LinktapRuntime.{Print, Runtime}
use dock_neighbor_hub.Linktap.{VolUnit, from_litres, normalize_dev_id}
use dock_neighbor_hub.Cycle.{from_wire}
use dock_neighbor_hub.Access.{MemberKey, v4, first_run_only, authorize, may_administer, may_control}
use dock_neighbor_hub.Store.{
  ConfigState, missing, parsed, damaged, RouterConfig, default_config, default_router, read_config,
  write_config, clear_config, config_damage,
}
use dock_neighbor_hub.Api.{
  Caller, World, Rt, Outcome, fine, failed, Json, RouterReq, RouterReads, Target, ValveReq,
  ConfigReq,
}
use dock_neighbor_hub.CloseDriver.{claim_close}
use dock_neighbor_hub.Api.Settings.{do_clear, do_config}
use dock_neighbor_hub.Api.Calls.{lan_call, endpoint_of, clear}
use dock_neighbor_hub.Api.Routers.{find_router, target_of}
use dock_neighbor_hub.Api.Routers.Actions.{do_routers_over}
use dock_neighbor_hub.Api.Routers.Lookup.{Distinct}
use dock_neighbor_hub.Api.Routers.Sound.{Proved}
use dock_neighbor_hub.Api.Routers.Writes.{do_routers-Distinct, do_routers-Proved}
use dock_neighbor_hub.Api.Setup.{BootstrapReq, h_bootstrap}
use dock_neighbor_hub.Api.Claims.{
  SetupCall, bootstrap, claims, setups, owner_of, owner_of_last, late_calls, setups-claims,
}
use dock_neighbor_hub.Api.Guards.{is_damaged}
use dock_neighbor_hub.Api.Rules.{lan_call_changes}
use dock_neighbor_hub.Api.Floods.{flood_valves, linktap_flood_stop_all}
use dock_neighbor_hub.Api.Floods.Answered.{Answered, linktap_flood_stop_all-answers}
use dock_neighbor_hub.Api.Valves.{do_valve, sent_cap, kept_cap}
use dock_neighbor_hub.Api.Valves.Gates.{Driven, Actable, do_valve-acts}
use dock_neighbor_hub.Examples.Valves.{billionths}

abbrev print : Print ℕ
print = record { as_u64 = λ a. a; fixed2 = λ a. ""; rounded = λ a. "" }

-- A body that no request can be read from.
abbrev json : Json ℕ
json = record {
  config_req = λ b. failed "";
  token_req = λ b. failed "";
  gps_req = λ b. failed "";
  router_req = λ b. failed "";
  sensor_req = λ b. failed "";
  valve_req = λ b. failed "";
  watch_req = λ b. failed "";
}

-- A router that lets in whoever has its password.
abbrev reads : Target → RouterReads
reads t = record {
  probe = elim (str_eq t.password "new") [ true ↦ fine (some "CBA850") | false ↦ failed "refused" ];
  gps_supported = none;
  set_gps = λ on. none;
  read_apn = failed "";
  set_apn = λ a. failed "";
  reboot = none;
  read_path = λ p. none;
  poll = λ s. record { model = none; gps_supported = none; apn = none; error = none };
}

abbrev world : World
world = record {
  now_ms = 5000;
  write_io = none;
  remove_io = none;
  minted = "hub_1";
  bundle = none;
  asset = true;
  local_ips = [];
  router = reads;
  vol_unit = VolUnit.litre;
  reply_ok = λ id. true;
  reply_error = λ id. none;
}

abbrev owner : MemberKey
owner = record { uid = "a"; role = "owner"; key = 1 ∷ 2 ∷ [] }

abbrev hub : ConfigState → Rt ℕ
hub file = record {
  file = file;
  keys = owner ∷ [];
  key_sync = record {
    applied = none;
    want = none;
    want_sig = none;
    last_ok_ms = 0;
    fails = 0;
    retry_at_ms = 0;
    last_door_ms = 0;
  };
  web_ui_disabled = false;
  web = none;
  nonce_ping_secs = 0;
  last_activity_ms = 0;
  last_refresh_ms = 0;
  lease_until_ms = 0;
  router_state = [];
  sensor_state = [];
  linktap = none;
  valve_closes = [];
  effects = [];
}

abbrev torn : Rt ℕ
torn = hub (damaged "hub.json is not valid JSON")

cleared : (lan_call print json world torn (1 ∷ 2 ∷ []) "POST" "/api/hub/clear" []).0.file ≡ missing
unfolding lan_call authorize do_clear may_administer clear_config
cleared = refl

-- The owner clears a file that cannot be read.
lan_call_changes_example :
    (k : MemberKey) × (authorize torn.keys (1 ∷ 2 ∷ []) ≡ some k)
    × (may_administer k.role ≡ true)
    × (is_some (lan_call print json world torn (1 ∷ 2 ∷ []) "POST" "/api/hub/clear" []).1.error
        ≡ false)
    × ((is_damaged torn.file ≡ false) ⊎ (endpoint_of "POST" "/api/hub/clear" ≡ clear))
lan_call_changes_example =
    lan_call_changes print json world torn (1 ∷ 2 ∷ []) "POST" "/api/hub/clear" []
      (λ h. let c = cleared in cc)

abbrev request : String → BootstrapReq
request vid = record { vid = vid; name = ""; token = "t"; heartbeat_secs = none }

-- Two setup calls from the machine itself, for different vehicles, that pass the door together.
abbrev calls : List SetupCall
calls =
    bootstrap world missing (v4 127 0 0 1) 10 (fine (request "v1"))
    ∷ bootstrap world missing (v4 127 0 0 1) 20 (fine (request "v2"))
    ∷ []

setups-claims_example :
    (length (claims calls (hub missing)) ≤ 1 + late_calls calls (hub missing))
    × (owner_of (setups calls (hub missing)).file
        ≡ owner_of_last (claims calls (hub missing)) (owner_of (hub missing).file))
setups-claims_example = setups-claims calls (hub missing)

-- Both claim the hub, and the second takes it from the first.
both_claim :
    (length (claims calls (hub missing)) ≡ 2)
    × (owner_of (setups calls (hub missing)).file ≡ ("v2", "t"))
unfolding claims setups read_config h_bootstrap first_run_only config_damage write_config
both_claim = (refl, refl)

-- The second call comes to the door after the first has claimed the hub.
abbrev in_turn : List SetupCall
in_turn =
    bootstrap world missing (v4 127 0 0 1) 10 (fine (request "v1"))
    ∷ bootstrap world (setups calls (hub missing)).file (v4 127 0 0 1) 20 (fine (request "v2"))
    ∷ []

first_claims :
    (length (claims in_turn (hub missing)) ≡ 1)
    × (owner_of (setups in_turn (hub missing)).file ≡ ("v1", "t"))
unfolding claims setups read_config h_bootstrap first_run_only config_damage write_config
first_claims = (refl, refl)

abbrev stored_router : RouterConfig
stored_router = record default_router {
  id = "r1";
  vendor = "cradlepoint";
  host = "192.168.0.1";
  username = "admin";
  password = "old";
}

abbrev managing : Rt ℕ
managing = hub (parsed (record default_config { routers = stored_router ∷ [] }))

abbrev member : Caller
member = record { uid = "a"; role = "owner" }

abbrev rotate : Outcome RouterReq
rotate = fine (record {
  action = "password";
  id = "r1";
  vendor = none;
  name = none;
  host = none;
  port = none;
  username = none;
  password = some "new";
  agent_token = none;
  gps_enabled = none;
  gps_dev_id = none;
  poll_secs = none;
  enabled = none;
  mode = none;
  apn = none;
  path = none;
})

rotated :
    find_router "r1"
      (read_config (do_routers_over world managing.file managing member rotate).0.file).routers
    ≡ some (record stored_router { password = "new" })
unfolding do_routers_over find_router read_config lowercase trim may_administer write_config
rotated = refl

do_routers-Distinct_example :
    Distinct
      (read_config (do_routers_over world managing.file managing member rotate).0.file).routers
unfolding read_config
do_routers-Distinct_example =
    do_routers-Distinct world managing.file managing member rotate (refl, tt)

do_routers-Proved_example :
    Proved world
      (read_config managing.file).routers
      (read_config managing.file).routers
      "r1"
      (record stored_router { password = "new" })
do_routers-Proved_example =
    do_routers-Proved world managing.file managing member rotate "r1"
      (record stored_router { password = "new" }) rotated

-- As before, but only the router at the old address has the new password.
abbrev strict : World
strict = record world {
  router = λ t. record (reads t) {
    probe = elim (str_eq t.host "192.168.0.1" && str_eq t.password "new") [
      | true ↦ fine (some "CBA850")
      | false ↦ failed "refused"
    ];
  };
}

-- The hub whose router another call moved while the password was on its way to the old address.
abbrev moved : Rt ℕ
moved = hub (
    parsed (record default_config { routers = record stored_router { host = "192.168.0.2" } ∷ [] }))

abbrev unproved : RouterConfig
unproved = record stored_router { host = "192.168.0.2"; password = "new" }

-- The password is stored for an address that refuses it.
stored_unproved :
    (find_router "r1"
        (read_config (do_routers_over strict managing.file moved member rotate).0.file).routers
      ≡ some unproved)
    × ((strict.router (target_of unproved)).probe ≡ failed "refused")
unfolding do_routers_over find_router read_config lowercase trim may_administer write_config
stored_unproved = (refl, refl)

abbrev valves : Rt ℕ
valves = hub (
    parsed (record default_config {
      linktap = record {
        host = "10.0.0.9";
        gw_id = "g";
        dev_ids = "3CC1C335004B1200" ∷ [];
        allowed = true;
      };
    }))

abbrev shut : ValveReq ℕ
shut = record {
  dev_id = "3CC1C335004B1200";
  action = "close";
  duration_secs = none;
  volume_cap_l = none;
  mode = none;
  resume_normal = none;
}

abbrev is_empty_list : {A : Type 0} → List A → Bool
is_empty_list [] = true
is_empty_list (a ∷ more) = false

shut_sends : is_empty_list (do_valve world valves member (fine shut)).0.effects ≡ false
unfolding do_valve may_control read_config take_chars trim claim_close lookup
shut_sends = refl

do_valve-acts_example :
    (may_control member.role ≡ true)
    × Driven (read_config valves.file).linktap (normalize_dev_id shut.dev_id)
    × Actable shut
do_valve-acts_example = do_valve-acts world valves member shut (λ same. let s = shut_sends in cc)

flood_known :
    any
      (λ id. str_eq (normalize_dev_id id) (normalize_dev_id "3CC1C335004B1200"))
      (flood_valves (read_config valves.file).linktap valves.linktap)
    ≡ true
unfolding flood_valves read_config take_chars trim
flood_known = refl

linktap_flood_stop_all-answers_example :
    Answered valves
      (linktap_flood_stop_all world (record valves { effects = [] }))
      "3CC1C335004B1200"
linktap_flood_stop_all-answers_example =
    linktap_flood_stop_all-answers world valves "3CC1C335004B1200" flood_known

-- A mode that is not spelled as the door compares it: the limit goes out, and the hub keeps none.
abbrev misspelled : ValveReq ℕ
misspelled = record shut {
  action = "open";
  duration_secs = some 60;
  volume_cap_l = some 5;
  mode = some "Washdown";
}

limit_sent :
    ((do_valve world valves member (fine misspelled)).1.error ≡ none)
    × (sent_cap world misspelled ≡ some 5)
    × ((runtime : Runtime ℕ) → kept_cap runtime "3CC1C335004B1200" misspelled ≡ 0)
unfolding do_valve sent_cap kept_cap may_control read_config take_chars trim from_wire from_litres
    to_ascii_lowercase
limit_sent = (refl, refl, λ runtime. refl)

-- The interval that the relay uses changes with a file that cannot be written.
abbrev ping : ConfigReq
ping = record {
  name = none;
  heartbeat_secs = none;
  nonce_ping_secs = some 60;
  enabled = none;
  shelly_secret = none;
  web_ui_enabled = none;
}

interval_lost :
    ((do_config world torn member (fine ping)).1.status ≡ 500)
    × ((do_config world torn member (fine ping)).0.nonce_ping_secs ≡ 60)
    × ((read_config (do_config world torn member (fine ping)).0.file).nonce_ping_secs ≡ 0)
unfolding do_config may_administer read_config write_config
interval_lost = (refl, refl, refl)

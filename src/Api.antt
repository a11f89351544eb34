-- ===== src/Api.antt =====
-- daemon/src/hub_server.rs: what the calls of the management API share. A call takes the hub's
-- state, what the rest of the world answers while it runs, and the request, and gives back the state
-- and the answer. Each handler holds its locks for one read and write of the store; what it reads of the
-- store before that, in a setup call's door or where an action on a router looks its router up, is
-- an argument of its own, since another call may come in between. Log lines and the bodies of good answers are left out.
pub mod Settings
pub mod Routers
pub mod Sensors
pub mod Valves
pub mod Calls
pub mod Setup
pub mod Floods
pub mod Guards
pub mod RouterGuards
pub mod Rules
pub mod Claims
use dock_neighbor_hub.Shared.{ℕ, Bool, Option, none, some, List, ◌∷◌, String, ◌<>◌}
use dock_neighbor_hub.Access.{MemberKey}
use dock_neighbor_hub.KeySync.{KeySync}
use dock_neighbor_hub.Linktap.{VolUnit, Report}
use dock_neighbor_hub.LinktapRuntime.{Runtime}
use dock_neighbor_hub.CloseDriver.{Closes}
use dock_neighbor_hub.Store.{HubConfig, ConfigState, DesiredHook, write_config}

pub record Caller : Type 0 where
  pub uid : String
  pub role : String

-- A status, and the text of a refusal.
pub record Answer : Type 0 where
  pub status : ℕ
  pub error : Option String

abbrev pub ok_json : Answer
ok_json = record { status = 200; error = none }

abbrev pub refusal : ℕ → String → Answer
refusal status message = record { status = status; error = some message }

-- `Result<A, String>`.
pub data Outcome (A : Type 0) : Type 0 where
  fine : A → Outcome A
  failed : String → Outcome A

-- `routers::GpsSupport`.
pub data GpsSupport : Type 0 where
  supports lacks unknown : GpsSupport

-- `routers::ApnConfig`.
pub record ApnConfig : Type 0 where
  pub mode : String
  pub apn : Option String

-- The fields of `routers::Snapshot` that a call reads or writes; `model` is the one of its `probe`.
pub record Snapshot : Type 0 where
  pub model : Option (Option String)
  pub gps_supported : Option GpsSupport
  pub apn : Option ApnConfig
  pub error : Option String

-- The fields of `sensors::SensorState` that a pending job sets.
pub record SensorState : Type 0 where
  pub id : String
  pub state : String
  pub added_at : ℕ
  pub ble_off : Bool

-- What a call sets going outside the state.
pub data Effect (V : Type 0) : Type 0 where
  wake gps_wake router_wake linktap_wake sensor_wake key_wake start_update : Effect V
  start_valve : String → ℕ → Option V → Effect V
  stop_valve : String → Effect V
  gps_switched : String → Bool → Effect V
  apn_set : String → ApnConfig → Effect V
  rebooted : String → Effect V
  reported : Report → Effect V

-- The part of `Rt` that the calls read or write; `effects` is newest first.
pub record Rt (V : Type 0) : Type 0 where
  pub file : ConfigState
  pub keys : List MemberKey
  pub key_sync : KeySync
  pub web_ui_disabled : Bool
  pub web : Option String
  pub nonce_ping_secs : ℕ
  pub last_activity_ms : ℕ
  pub last_refresh_ms : ℕ
  pub lease_until_ms : ℕ
  pub router_state : List (String × Snapshot)
  pub sensor_state : List (String × SensorState)
  pub linktap : Option (Runtime V)
  pub valve_closes : Closes
  pub effects : List (Effect V)

-- What a driver is made of.
pub record Target : Type 0 where
  pub vendor : String
  pub host : String
  pub port : ℕ
  pub username : String
  pub password : String

-- A router as its driver answers; `probe` gives the model.
pub record RouterReads : Type 0 where
  pub probe : Outcome (Option String)
  pub gps_supported : Option GpsSupport
  pub set_gps : Bool → Option String
  pub read_apn : Outcome ApnConfig
  pub set_apn : ApnConfig → Outcome ApnConfig
  pub reboot : Option String
  pub read_path : String → Option String
  pub poll : Option Snapshot → Snapshot

-- What the clock, the disk, the network and the devices answer during one call. A
-- gateway answers for each valve.
pub record World : Type 0 where
  pub now_ms : ℕ
  pub write_io : Option String
  pub remove_io : Option String
  pub minted : String
  pub bundle : Option String
  pub asset : Bool
  pub local_ips : List (List ℕ)
  pub router : Target → RouterReads
  pub vol_unit : VolUnit
  pub reply_ok : String → Bool
  pub reply_error : String → Option String

pub record ConfigReq : Type 0 where
  pub name : Option String
  pub heartbeat_secs : Option ℕ
  pub nonce_ping_secs : Option ℕ
  pub enabled : Option Bool
  pub shelly_secret : Option String
  pub web_ui_enabled : Option Bool

pub record GpsReq : Type 0 where
  pub kind : String
  pub host : String
  pub port : Option ℕ
  pub username : Option String
  pub password : Option String
  pub dev_id : String
  pub enabled : Option Bool
  pub protocol : Option String

pub record RouterReq : Type 0 where
  pub action : String
  pub id : String
  pub vendor : Option String
  pub name : Option String
  pub host : Option String
  pub port : Option ℕ
  pub username : Option String
  pub password : Option String
  pub agent_token : Option String
  pub gps_enabled : Option Bool
  pub gps_dev_id : Option String
  pub poll_secs : Option ℕ
  pub enabled : Option Bool
  pub mode : Option String
  pub apn : Option String
  pub path : Option String

pub record SensorReq : Type 0 where
  pub action : String
  pub id : String
  pub hosts : List String
  pub hooks : List DesiredHook
  pub password : Option String
  pub ble_off : Option Bool

pub record ValveReq (V : Type 0) : Type 0 where
  pub dev_id : String
  pub action : String
  pub duration_secs : Option ℕ
  pub volume_cap_l : Option V
  pub mode : Option String
  pub resume_normal : Option Bool

-- `serde_json::from_slice` of a body, for each request; of a token and of a lease the one field.
pub record Json (V : Type 0) : Type 0 where
  pub config_req : List ℕ → Outcome ConfigReq
  pub token_req : List ℕ → Outcome String
  pub gps_req : List ℕ → Outcome GpsReq
  pub router_req : List ℕ → Outcome RouterReq
  pub sensor_req : List ℕ → Outcome SensorReq
  pub valve_req : List ℕ → Outcome (ValveReq V)
  pub watch_req : List ℕ → Outcome (Option V)

module _ {V : Type 0} where
  abbrev pub ring : Effect V → Rt V → Rt V
  ring e rt = record rt { effects = e ∷ rt.effects }

  abbrev pub note_activity : World → Rt V → Rt V
  note_activity w rt = ring wake (record rt { last_activity_ms = w.now_ms })

  -- A write of the store: the rest of the call runs if it succeeds.
  abbrev pub saved : Rt V → ConfigState × Option String → (Rt V → Rt V × Answer) → Rt V × Answer
  saved rt (file, none) rest = rest (record rt { file = file })
  saved rt (file, some e) rest = (record rt { file = file }, refusal 500 e)

  abbrev pub store : World → Rt V → HubConfig → (Rt V → Rt V × Answer) → Rt V × Answer
  store w rt cfg rest = saved rt (write_config w.write_io rt.file cfg) rest

  -- A body read by serde: the rest of the call runs on the request.
  abbrev pub reading : {A : Type 0} → Rt V → Outcome A → (A → Rt V × Answer) → Rt V × Answer
  reading rt (fine a) rest = rest a
  reading rt (failed e) rest = (rt, refusal 422 ("invalid JSON body: " <> e))

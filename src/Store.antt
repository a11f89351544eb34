-- ===== src/Store.antt =====
-- daemon/src/hub_config.rs: the hub's one file, hub.json, and the records in it. A file is what
-- reading it gives: that a written configuration reads back as itself is serde's. A write and a
-- removal are atomic, and their I/O error, if any, is an argument. The first-log-only rule for
-- damage, permissions, paths and directory overrides are not modelled.
use dock_neighbor_hub.Shared.{
  ℕ, Bool, true, false, Option, none, some, List, [], String, ◌<>◌, is_empty, if◌then◌else◌,
}
use dock_neighbor_hub.Access.{MemberKey}

pub record RouterConfig : Type 0 where
  pub id : String
  pub vendor : String
  pub name : String
  pub host : String
  pub port : ℕ
  pub username : String
  pub password : String
  pub agent_token : String
  pub gps_enabled : Bool
  pub gps_dev_id : String
  pub poll_secs : ℕ
  pub enabled : Bool

-- `RouterConfig::default`.
abbrev pub default_router : RouterConfig
default_router = record {
  id = "";
  vendor = "";
  name = "";
  host = "";
  port = 0;
  username = "";
  password = "";
  agent_token = "";
  gps_enabled = false;
  gps_dev_id = "";
  poll_secs = 0;
  enabled = true;
}

pub record GpsConfig : Type 0 where
  pub kind : String
  pub host : String
  pub port : ℕ
  pub username : String
  pub password : String
  pub dev_id : String
  pub enabled : Bool
  pub protocol : String

-- The derived default of `enabled` is false.
abbrev pub default_gps : GpsConfig
default_gps = record {
  kind = "";
  host = "";
  port = 0;
  username = "";
  password = "";
  dev_id = "";
  enabled = false;
  protocol = "";
}

pub record LinkTapConfig : Type 0 where
  pub host : String
  pub gw_id : String
  pub dev_ids : List String
  pub allowed : Bool

abbrev pub default_linktap : LinkTapConfig
default_linktap = record { host = ""; gw_id = ""; dev_ids = []; allowed = false }

-- `sensors::DesiredHook`; a url is the list of its code points.
pub record DesiredHook : Type 0 where
  pub event : String
  pub urls : List (List ℕ)

-- `sensors::SensorJob`.
pub record SensorJob : Type 0 where
  pub id : String
  pub hosts : List String
  pub hooks : List DesiredHook
  pub password : String
  pub ble_off : Bool
  pub added_at : ℕ

pub record HubConfig : Type 0 where
  pub hub_id : String
  pub vid : String
  pub name : String
  pub enabled : Bool
  pub heartbeat_secs : ℕ
  pub nonce_ping_secs : ℕ
  pub token : String
  pub http_port : ℕ
  pub member_keys : List MemberKey
  pub member_keys_sig : String
  pub linktap : LinkTapConfig
  pub shelly_secret : String
  pub web_ui_disabled : Bool
  pub debug_log_batches : Bool
  pub gps : GpsConfig
  pub routers : List RouterConfig
  pub sensor_jobs : List SensorJob

abbrev pub default_http_port : ℕ
default_http_port = 8722

-- `HubConfig::default`.
abbrev pub default_config : HubConfig
default_config = record {
  hub_id = "";
  vid = "";
  name = "";
  enabled = false;
  heartbeat_secs = 0;
  nonce_ping_secs = 0;
  token = "";
  http_port = default_http_port;
  member_keys = [];
  member_keys_sig = "";
  linktap = default_linktap;
  shelly_secret = "";
  web_ui_disabled = false;
  debug_log_batches = false;
  gps = default_gps;
  routers = [];
  sensor_jobs = [];
}

pub data ConfigState : Type 0 where
  missing : ConfigState
  parsed : HubConfig → ConfigState
  damaged : String → ConfigState

unfoldable pub config_damage : ConfigState → Option String
config_damage missing = none
config_damage (parsed cfg) = none
config_damage (damaged why) = some why

-- A damaged file reads as the defaults.
unfoldable pub read_config : ConfigState → HubConfig
read_config missing = default_config
read_config (parsed cfg) = cfg
read_config (damaged why) = default_config

-- The file after a write, and the error.
abbrev put_file : Option String → ConfigState → HubConfig → ConfigState × Option String
put_file none file cfg = (parsed cfg, none)
put_file (some e) file cfg = (file, some e)

unfoldable pub write_config : Option String → ConfigState → HubConfig → ConfigState × Option String
write_config io missing cfg = put_file io missing cfg
write_config io (parsed old) cfg = put_file io (parsed old) cfg
write_config io (damaged why) cfg = (
  damaged why,
  some (
      "refusing to overwrite a configuration that could not be read ("
      <> (why <> ") - fix or remove the file first")),
)

abbrev removed : Option String → ConfigState → ConfigState × Option String
removed none file = (missing, none)
removed (some e) file = (file, some e)

unfoldable pub clear_config : Option String → ConfigState → ConfigState × Option String
clear_config io missing = (missing, none)
clear_config io (parsed cfg) = removed io (parsed cfg)
clear_config io (damaged why) = removed io (damaged why)

unfoldable pub with_hub_id : HubConfig → String → HubConfig × Bool
with_hub_id cfg minted =
    if is_empty cfg.hub_id then (record cfg { hub_id = minted }, true) else (cfg, false)

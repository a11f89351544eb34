-- ===== src/Api/Floods.antt =====
-- daemon/src/hub_server.rs: `linktap_flood_stop_all`, which closes every valve that the hub knows on
-- a sensor's flood report.
pub mod Answered
use dock_neighbor_hub.Shared.{
  ℕ, Bool, true, false, not, ◌||◌, Option, none, some, List, [], ◌∷◌, String, is_empty, ◌<>◌,
  if◌then◌else◌, map, keep,
}
use dock_neighbor_hub.Linktap.{normalize_dev_id}
use dock_neighbor_hub.LinktapRuntime.{Runtime, unwrap_or}
use dock_neighbor_hub.CloseWatch.{flood}
use dock_neighbor_hub.Store.{LinkTapConfig, read_config}
use dock_neighbor_hub.Api.{World, Rt, Effect, linktap_wake, stop_valve, reported, ring}
use dock_neighbor_hub.Api.Valves.{claimed}

-- The valves of the stored configuration, none without a gateway's address.
unfoldable pub stored_valves : LinkTapConfig → List String
unfolding normalize_dev_id
stored_valves lt =
    if is_empty lt.host || is_empty lt.gw_id
    then []
    else keep (λ d. not (is_empty d)) (map normalize_dev_id lt.dev_ids)

module _ {V : Type 0} where
  -- `Runtime::dev_ids`, or the stored valves where no machine runs.
  unfoldable pub flood_valves : LinkTapConfig → Option (Runtime V) → List String
  unfolding stored_valves
  flood_valves lt (some r) = map (λ e. e.0) r.tracks
  flood_valves lt none = stored_valves lt

  abbrev refused_stop : World → String → Effect V
  refused_stop w id = reported (record {
    device = "lt_" <> id;
    event = "linktap.stop_failed";
    params = ("error", unwrap_or (w.reply_error id) "") ∷ ("cause", "flood") ∷ [];
    token = none;
  })

  unfoldable pub flood_stop : World → Rt V → String → Rt V
  unfolding claimed
  flood_stop w rt id =
      let c = claimed w rt id flood in
      let sent = ring (stop_valve id) c.1 in
      if not c.0 then c.1 else if w.reply_ok id then sent else ring (refused_stop w id) sent

  unfoldable pub flood_stops : World → List String → Rt V → Rt V
  unfolding flood_stop
  flood_stops w [] rt = rt
  flood_stops w (id ∷ ids) rt = flood_stops w ids (flood_stop w rt id)

  abbrev pub is_nothing : List String → Option (Runtime V) → Bool
  is_nothing [] none = true
  is_nothing [] (some r) = false
  is_nothing (d ∷ ds) r = false

  unfoldable pub linktap_flood_stop_all : World → Rt V → Rt V
  unfolding flood_stops flood_valves
  linktap_flood_stop_all w rt =
      let ids = flood_valves (read_config rt.file).linktap rt.linktap in
      if is_nothing ids rt.linktap then rt else ring linktap_wake (flood_stops w ids rt)

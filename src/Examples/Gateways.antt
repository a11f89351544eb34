-- ===== src/Examples/Gateways.antt =====
-- A concrete gateway that goes silent and comes back.
use dock_neighbor_hub.Shared.{◌-◌, ◌≡◌, true, false, List, [], ◌∷◌, some, any, leb, if◌then◌else◌}
use dock_neighbor_hub.Linktap.{Gateway}
use dock_neighbor_hub.GatewayWatch.{GatewayWatch, gateway_offline_event, grace_ms}
use dock_neighbor_hub.GatewayWatch.Episodes.{Poll, events_of, silences, silence_reported}

abbrev gateway : Gateway
gateway = record { host = "10.0.0.2"; gw_id = "GW02" }

abbrev heard : GatewayWatch
heard = record { last_seen_ms = some 0; offline_reported = false }

abbrev polls : List Poll
polls =
    record { reached = false; at = 1800000 }
    ∷ record { reached = false; at = 1860000 }
    ∷ record { reached = true; at = 1920000 }
    ∷ []

silence_reported_example : events_of gateway heard (silences (60000 ∷ 1800000 ∷ 1860000 ∷ [])) ≡ (
    if any (λ n. leb grace_ms (n - 0)) (60000 ∷ 1800000 ∷ 1860000 ∷ [])
    then gateway_offline_event ∷ []
    else [])
silence_reported_example = silence_reported gateway 0 (60000 ∷ 1800000 ∷ 1860000 ∷ [])

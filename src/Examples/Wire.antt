-- ===== src/Examples/Wire.antt =====
-- A concrete payload, and the readings of a valve and a router that are held back.
use dock_neighbor_hub.Shared.{◌+◌, ◌≡◌, ◌≤◌, ◌<◌, true, [], ◌∷◌, any, length, str_eq}
use mathlib.Core.List.{Perm}
use dock_neighbor_hub.Batch.{
  Item, bytes, clamp_item, clamp_params, split, max_items, max_params, max_name_len,
  hub_status_event,
}
use dock_neighbor_hub.Batch.Clamp.{AllLegal, Distinct, clamp_item-Legal}
use dock_neighbor_hub.Batch.Posts.{AllShort, joined_posts, opens_with, split_lem}
use dock_neighbor_hub.RouterHealth.{Params}

abbrev router : Item
router = record {
  device = "router1";
  event = "modem.measurement";
  params = ("up", "1") ∷ ("", "x") ∷ ("up", "0") ∷ [];
}

abbrev status : Item
status = record { device = "hub1"; event = "hub.status"; params = [] }

split_lem_example :
    (0 < length (split (router ∷ status ∷ [])))
    × AllShort max_items (split (router ∷ status ∷ []))
    × Perm (router ∷ status ∷ []) (joined_posts (split (router ∷ status ∷ [])))
    × (any (λ it. str_eq it.event hub_status_event) (router ∷ status ∷ []) ≡ true
        → opens_with hub_status_event (joined_posts (split (router ∷ status ∷ []))) ≡ true)
split_lem_example = split_lem (router ∷ status ∷ [])

clamp_item-Legal_example :
    (bytes (clamp_item router).0.device ≤ max_name_len)
    × (bytes (clamp_item router).0.event ≤ max_name_len)
    × (length (clamp_item router).0.params ≤ max_params)
    × AllLegal (clamp_item router).0.params
    × Distinct (clamp_item router).0.params
    × (length (clamp_item router).0.params + (clamp_item router).1
        ≡ length (clamp_params router.params []))
clamp_item-Legal_example = clamp_item-Legal router

abbrev read : Params
read = ("up", "1") ∷ ("wan", "cellular") ∷ ("rssi", "-70") ∷ []

abbrev closed : Params
closed = ("watering", "0") ∷ ("rf", "1") ∷ []

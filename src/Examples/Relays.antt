-- ===== src/Examples/Relays.antt =====
-- A half-open socket, and three handshakes that fail.
use dock_neighbor_hub.Shared.{◌≡◌, any, List, [], ◌∷◌, if◌then◌else◌}
use dock_neighbor_hub.Relay.{opened, serve, broken, goes_on}
use dock_neighbor_hub.Relay.Silence.{Lull, edge, tick, lull, is_late, serve-lull}

abbrev half_open : List Lull
half_open = tick 10000 ∷ edge 10001 ∷ tick 20000 ∷ tick 30000 ∷ edge 30001 ∷ tick 40000 ∷ []

serve-lull_example :
    serve (lull half_open) (opened 0 0)
    ≡ (if any (is_late 0) half_open then broken else goes_on (opened 0 0))
serve-lull_example = serve-lull half_open (opened 0 0)

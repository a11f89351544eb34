-- ===== src/Examples/Doors.antt =====
-- A sensor on the boat's network that carries the secret, and a hub that nobody owns yet. The bytes
-- of a text are the code points of an ASCII text, cut to a byte.
use dock_neighbor_hub.Shared.{
  ℕ, ◌%◌, ◌≡◌, ◌↔◌, refl, true, false, ◌||◌, Option, none, some, String, List, [], ◌∷◌, arith,
  codes, map, keep, codes_eq, if◌then◌else◌, str_eq, is_empty, is_some,
}
use dock_neighbor_hub.GatewayWatch.{is_flood_shutoff}
use dock_neighbor_hub.Access.{
  MemberKey, authorize, blank, v4, shelly_peer_plausible, parse_shelly_query, h_shelly,
}
use dock_neighbor_hub.Access.Bits.{IsBytes, last_found, authorize-last}
use dock_neighbor_hub.Access.Doors.{h_shelly-acts}

abbrev members : List MemberKey
members =
    record { uid = "a"; role = "owner"; key = 1 ∷ 2 ∷ [] }
    ∷ record { uid = "b"; role = "monitor"; key = 3 ∷ 4 ∷ [] }
    ∷ []

authorize-last_example : authorize members (3 ∷ 4 ∷ []) ≡ (
    if blank (3 ∷ 4 ∷ [])
    then none
    else last_found none (keep (λ k. codes_eq k.key (3 ∷ 4 ∷ [])) members))
authorize-last_example = authorize-last members (3 ∷ 4 ∷ []) refl (refl, (refl, tt))

abbrev low_bytes : String → List ℕ
low_bytes s = map (λ c. c % 256) (codes s)

cut-IsBytes : (s : List ℕ) → IsBytes (map (λ c. c % 256) s)
cut-IsBytes [] = refl
cut-IsBytes (c ∷ s) = ground (arith, cut-IsBytes s)

abbrev query : List (String × String)
query = ("event", "flood.alarm") ∷ ("device", "shelly") ∷ ("k", "s3cret") ∷ []

h_shelly-acts_example :
    (let call = parse_shelly_query query in
      let answer = h_shelly low_bytes "v" "s3cret" (v4 192 168 1 7) query in
      ((is_some answer.1 ≡ true) ↔ (
        (shelly_peer_plausible (v4 192 168 1 7) ≡ true)
        × (is_empty "s3cret" ≡ false)
        × (low_bytes "s3cret" ≡ low_bytes call.k)
        × ((is_empty call.vid || (is_empty "v" || str_eq call.vid "v")) ≡ true)))
      × (is_some answer.1 ≡ true → answer ≡ (200, some (is_flood_shutoff call.event, call))))
h_shelly-acts_example =
    h_shelly-acts low_bytes (λ s. cut-IsBytes (codes s)) "v" "s3cret" (v4 192 168 1 7) query

abbrev own : List (List ℕ)
own = codes "192.168.1.20" ∷ []

abbrev sound : Option String
sound = none

-- ===== src/Cadence/Changes.antt =====
-- What is held back until the keyframe, against what the cloud was last told.
use dock_neighbor_hub.Shared.{
  ◌≡◌, ◌≢◌, ◌↔◌, ◌⊎◌, refl, Bool, true, false, ◌||◌, List, [], ◌∷◌, Option, none, some, String,
  arith, map, str_eq_iff,
}
use dock_neighbor_hub.RouterHealth.{Params, param, up_src}
use dock_neighbor_hub.Cadence.{
  router_sent, valve_sent, router_is_event, valve_transition, valve_measurement_due, moved, opt_eq,
  any_moved, valve_faults,
}

opt_eq_iff : (a b : Option String) → (opt_eq a b ≡ true) ↔ (a ≡ b)
opt_eq_iff none none = ground arith
opt_eq_iff none (some b) = ground arith
opt_eq_iff (some a) none = ground arith
opt_eq_iff (some a) (some b) = ground (arith, str_eq_iff a b)

-- A report that does not carry a field says nothing of it.
abbrev pub Unmoved : Option String → Option String → Type 0
Unmoved now last = (now ≡ none) ⊎ (now ≡ last)

abbrev pub AllUnmoved : Params → Params → List String → Type 0
AllUnmoved now last [] = Unit {0}
AllUnmoved now last (k ∷ ks) = Unmoved (param now k) (param last k) × AllUnmoved now last ks

moved_iff : (now last : Option String) → (moved now last ≡ false) ↔ Unmoved now last
moved_iff none last = ground arith
moved_iff (some n) last = ground (arith, opt_eq_iff (some n) last)

or_false' :
    (a b : Bool) {P Q : Type 0} → (a ≡ false) ↔ P → (b ≡ false) ↔ Q → ((a || b) ≡ false) ↔ (P × Q)
or_false' true b p q = (λ h. cc, λ h. cc (p.1 h.0))
or_false' false b p q = (λ h. (p.0 refl, q.0 h), λ h. q.1 h.1)

or_false :
    (a b : Bool) {P Q : Type 0}
    → (a ≡ true) ↔ P
    → (b ≡ false) ↔ Q
    → ((a || b) ≡ false) ↔ ((¬ P) × Q)
or_false true b p q = (λ h. cc, λ h. absurd (h.0 (p.0 refl)))
or_false false b p q = (λ h. ((λ x. cc (p.1 x)), q.0 h), λ h. q.1 h.1)

-- A router's poll is held back exactly when the cloud was told of the router before and the poll
-- moves neither its link state, nor its uplink, nor where the state came from.
pub router_is_event_held :
    (last now : Params)
    → (router_is_event (some (router_sent last)) now ≡ false)
      ↔ AllUnmoved now last ("up" ∷ "wan" ∷ up_src ∷ [])
unfolding router_is_event
router_is_event_held last now = ground (
  arith,
  moved_iff (param now "up") (param last "up"),
  moved_iff (param now "wan") (param last "wan"),
  moved_iff (param now up_src) (param last up_src),
)

any_moved_iff :
    (last now : Params) (keys : List String)
    → (any_moved (map (param now) keys) (map (param last) keys) ≡ false) ↔ AllUnmoved now last keys
unfolding any_moved
any_moved_iff last now [] = ground arith
any_moved_iff last now (k ∷ ks) =
    ground (arith, any_moved_iff last now ks, moved_iff (param now k) (param last k))

-- A valve's measurement is held back exactly when the valve is not watering and the measurement
-- moves neither its watering state, nor its radio link, nor a fault flag the cloud was told of.
pub valve_measurement_due_held :
    (last now : Params)
    → (valve_measurement_due (some (valve_sent last)) now ≡ false) ↔ (
        (param now "watering" ≢ some "1")
        × (Unmoved (param now "watering") (param last "watering")
            × (Unmoved (param now "rf") (param last "rf") × AllUnmoved now last valve_faults)))
unfolding valve_measurement_due valve_transition valve_sent
valve_measurement_due_held last now =
    let watering = opt_eq_iff (param now "watering") (some "1") in
    let w = moved_iff (param now "watering") (param last "watering") in
    let r = moved_iff (param now "rf") (param last "rf") in
    let f = any_moved_iff last now valve_faults in
    or_false (opt_eq (param now "watering") (some "1")) _ watering
      (or_false' _ _ w (or_false' _ _ r f))

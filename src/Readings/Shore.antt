-- ===== src/Readings/Shore.antt =====
-- Shore power.
use dock_neighbor_hub.Shared.{
  ◌≡◌, refl, Bool, true, false, Option, none, some, List, [], ◌∷◌, if◌then◌else◌, arith,
}
use dock_neighbor_hub.Float.{Float64}
use dock_neighbor_hub.Readings.{ReadingGate, shore_ac, observe, observe_shore}

-- The clear values of a run whose side differs from that of the clear value before them.
abbrev pub turns : Bool → List (Option Bool) → List Bool
turns present [] = []
turns present (none ∷ sides) = turns present sides
turns true (some true ∷ sides) = turns true sides
turns true (some false ∷ sides) = false ∷ turns false sides
turns false (some true ∷ sides) = true ∷ turns true sides
turns false (some false ∷ sides) = turns false sides

abbrev pub is_present : Option Bool → Bool
is_present none = true
is_present (some b) = b

module _ {V : Type 0} ⦃f : Float64 V⦄ where
  -- The side that a value is clearly on.
  abbrev pub side : V → Option Bool
  side v =
      if f.lt_f v (f.lit 90 0)
      then some false
      else if f.le_f (f.lit 100 0) v
      then some true
      else none

  unfoldable pub sides : List V → List (Option Bool)
  sides [] = []
  sides (v ∷ vs) = side v ∷ sides vs

  -- What the gate sends of a run of voltages: whether the shore is present at each one sent.
  pub shore_reports : ReadingGate V → List V → List Bool
  shore_reports g [] = []
  shore_reports g (v ∷ vs) =
      let o = observe g shore_ac v in
      let rest = shore_reports o.0 vs in if o.1 then is_present o.0.shore ∷ rest else rest

  -- The gate sends a voltage exactly when it is clear, lost below 90 V or present from 100 V on, and
  -- on the other side than the last clear one; at first the shore counts as present.
  pub shore_reports-turns :
      (vs : List V) (g : ReadingGate V) → shore_reports g vs ≡ turns (is_present g.shore) (sides vs)
  unfolding shore_reports sides observe observe_shore
  shore_reports-turns [] g = refl
  shore_reports-turns (v ∷ vs) g =
      let ih = shore_reports-turns vs (observe g shore_ac v).0 in ground (arith, ih)

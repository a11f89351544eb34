-- ===== src/Geofence/Heartbeats.antt =====
-- daemon/src/geofence.rs: `heartbeat_params`, what an armed anchor watch says of itself.
use dock_neighbor_hub.Shared.{
  ℕ, ◌-◌, max, Bool, true, false, not, ◌||◌, Option, none, some, String, List, [], ◌∷◌, ◌++◌,
  decimal,
}
use dock_neighbor_hub.Float.{Float64}
use dock_neighbor_hub.Geofence.{Geo, Observed, Geofence, armed_sample_secs}

module _ {V : Type 0} (f : Float64 V) (geo : Geo V) where
  unfoldable pub age_of : Observed V → ℕ → V
  age_of o now_ms = f.add_f (f.div_f (f.lit (now_ms - o.at_ms) 0) (f.lit 1000 0)) o.sample.fix_age_s

  abbrev pub entry_of : {A : Type 0} → String → Option A → (A → String) → List (String × String)
  entry_of k none show = []
  entry_of k (some a) show = (k, show a) ∷ []

  abbrev pub flag : Bool → String
  flag true = "1"
  flag false = "0"

  unfoldable pub last_params : Option (Observed V) → ℕ → List (String × String)
  unfolding age_of
  last_params none now_ms = ("fixValid", "0") ∷ ("unreliable", "1") ∷ []
  last_params (some o) now_ms =
      let age = age_of o now_ms in
      let stale = f.lt_f (f.mul_f (f.lit 3 0) (f.lit armed_sample_secs 0)) age in
      (("fixValid", flag (not stale)) ∷ [])
      ++ entry_of "sats" o.sample.sats decimal
      ++ entry_of "hdop" o.sample.hdop geo.fixed1
      ++ (("fixAgeS", geo.rounded age) ∷ [])
      ++ entry_of "inside" o.inside flag
      ++ entry_of "distFromCenterM" o.dist_from_center_m geo.rounded
      ++ (("unreliable", flag (o.unreliable || stale)) ∷ [])

  unfoldable pub heartbeat_params : Geofence V → ℕ → List (String × String)
  unfolding last_params
  heartbeat_params g now_ms =
      last_params g.last now_ms
      ++ ("streak", decimal (max g.anchor_streak g.zone_streak)) ∷ ("anchorsig", decimal g.sig) ∷ []

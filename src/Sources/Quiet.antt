-- ===== src/Sources/Quiet.antt =====
-- How a silent NMEA source is logged and waited for, over a run of passes.
use native.Mathlib.Decide.{dec_le}
use dock_neighbor_hub.Shared.{
  ℕ, ◌+◌, ◌-◌, ◌*◌, ◌^◌, ◌≡◌, refl, inl, inr, Bool-cases, min, Bool, true, not, ◌&&◌, ◌||◌, Option,
  none, some, List, [], ◌∷◌, arith, is_empty, is_some, str_eq, ltb, ◌==◌, saturating_suc32, u32_max,
  pow2_mono,
}
use dock_neighbor_hub.Store.{GpsConfig}
use dock_neighbor_hub.Api.{Outcome, fine, failed}
use dock_neighbor_hub.Sources.{
  GpsSourceState, gps_source_pass, nmea_pass, poll_failed, poll_succeeded, nmea_retry_cap_secs,
  default_state,
}

-- The source is an NMEA feed that is configured and on.
abbrev pub is_feed : GpsConfig → Bool
is_feed g = not (is_empty g.host || (not g.enabled || is_empty g.dev_id)) && str_eq g.kind "nmea"

-- What a run should look like after `n` failures in a row: whether a line is logged, and the wait.
abbrev pub expected : {A : Type 0} → ℕ → List (Outcome A) → List (Bool × Option ℕ)
expected n [] = []
expected n (fine a ∷ rs) = (ltb 0 n, none) ∷ expected 0 rs
expected n (failed why ∷ rs) =
    (n == 0, some (min (5 * 2 ^ n) nmea_retry_cap_secs)) ∷ expected (n + 1) rs

wait_lem :
    (n : ℕ)
    → min (5 * 2 ^ min (saturating_suc32 (min n u32_max) - 1) 16) nmea_retry_cap_secs
      ≡ min (5 * 2 ^ n) nmea_retry_cap_secs
wait_lem n = elim (dec_le n 16) [
  | yes h ↦ let e : min (saturating_suc32 (min n u32_max) - 1) 16 ≡ n = omega arith in rw e refl
  | no h ↦
      let e : min (saturating_suc32 (min n u32_max) - 1) 16 ≡ 16 = omega arith in
      rw e (omega (arith, pow2_mono 16 n))
]

module _ {A : Type 0} where
  pub passes : GpsConfig → GpsSourceState → List (Outcome A) → List (Bool × Option ℕ)
  passes g st [] = []
  passes g st (r ∷ rs) =
      let p = gps_source_pass g st (failed "") r in (is_some p.log, p.wait) ∷ passes g p.state rs

  feed_pass :
      (g : GpsConfig) (st : GpsSourceState) (c r : Outcome A)
      → is_feed g ≡ true
      → gps_source_pass g st c r ≡ nmea_pass g st r
  unfolding gps_source_pass
  feed_pass g st c r h =
      elim (Bool-cases (is_empty g.host || (not g.enabled || is_empty g.dev_id))) [
        | inl e ↦ let no = rw e at h in cc
        | inr e ↦ elim (Bool-cases (str_eq g.kind "nmea")) [
          | inl k ↦ rw (e, k) refl
          | inr k ↦ let no = rw (e, k) at h in cc
        ]
      ]

  passes_from :
      (g : GpsConfig) (rs : List (Outcome A)) (st : GpsSourceState) (n : ℕ)
      → is_feed g ≡ true
      → st.nmea.failures ≡ min n u32_max
      → passes g st rs ≡ expected n rs
  unfolding passes nmea_pass poll_failed poll_succeeded
  passes_from g [] st n h k = refl
  passes_from g (fine a ∷ rs) st n h k =
      let ih = passes_from g rs (nmea_pass g st (fine a)).state 0 h refl in
      rw (feed_pass g st (failed "") (fine a) h) (ground (arith, ih, k))
  passes_from g (failed why ∷ rs) st n h k =
      let ih =
        passes_from g rs (nmea_pass {A = A} g st (failed why)).state (n + 1) h (omega (arith, k)) in
      rw (feed_pass g st (failed "") (failed why) h) (ground (arith, ih, k, wait_lem n))

  -- Over any run of passes over a configured NMEA feed from the daemon's start, a line is logged at
  -- the first failure of each run of failures and at the first fix after one, and nowhere else; the
  -- wait after the n-th failure in a row is 5 seconds doubled n - 1 times, at most 300, whatever n.
  pub passes-quiet :
      (g : GpsConfig) (rs : List (Outcome A))
      → is_feed g ≡ true
      → passes g default_state rs ≡ expected 0 rs
  passes-quiet g rs h = passes_from g rs default_state 0 h refl

-- ===== src/Cadence/Retry.antt =====
-- The backoff of a failed keyframe.
use native.Mathlib.Decide.{dec_le}
use dock_neighbor_hub.Shared.{
  ℕ, suc, ◌-◌, ◌*◌, ◌^◌, ◌≡◌, min, true, false, arith, pow2-pos, pow2_mono,
}
use dock_neighbor_hub.Cadence.{checkin_retry_secs, checkin_retry_max_secs}

-- The wait is a minute under an anchor watch, whatever the count of failures; with none armed it is
-- a minute at the first failure, doubles with each further one, and stops at the ceiling.
pub checkin_retry_secs-backoff :
    (failures : ℕ)
    → (checkin_retry_secs failures true ≡ 60)
      × (checkin_retry_secs (suc failures) false ≡ min (60 * 2 ^ failures) checkin_retry_max_secs)
unfolding checkin_retry_secs
checkin_retry_secs-backoff failures = (
  omega (arith, pow2-pos (min (failures - 1) 16)),
  elim (dec_le failures 16) [
    | yes h ↦ let e : min (suc failures - 1) 16 ≡ failures = omega arith in rw e
    | no h ↦
        let e : min (suc failures - 1) 16 ≡ 16 = omega arith in
        rw e (omega (arith, pow2_mono 16 failures))
  ],
)

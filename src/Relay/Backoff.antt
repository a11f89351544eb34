-- ===== src/Relay/Backoff.antt =====
-- How long the relay waits before it connects again.
use dock_neighbor_hub.Shared.{
  ℕ, zero, suc, ◌^◌, ◌≤◌, ◌≡◌, refl, min, Bool-cases, inl, inr, false, arith, leb, u32_max,
  pow2_mono,
}
use dock_neighbor_hub.Relay.{backoff_secs, next_attempt, max_backoff_secs, backoff_reset_ms}

-- The attempt count after a number of connections in a row that failed within a minute.
abbrev pub failing : (ℕ → ℕ) → ℕ → ℕ → ℕ
failing lived zero attempt = attempt
failing lived (suc k) attempt = next_attempt (failing lived k attempt) (lived k) false

failing_lem :
    (lived : ℕ → ℕ) (k : ℕ)
    → ((i : ℕ) → leb backoff_reset_ms (lived i) ≡ false)
    → failing lived k 0 ≡ min k u32_max
unfolding next_attempt
failing_lem lived zero h = refl
failing_lem lived (suc k) h = let ih = failing_lem lived k h in let e = h k in ground (arith, ih, e)

shift_capped : (k : ℕ) → min (2 ^ min (min k u32_max) 16) 60 ≡ min (2 ^ k) 60
shift_capped k = elim (Bool-cases (leb k 16)) [
  | inl e ↦ let small : min (min k u32_max) 16 ≡ k = ground (arith, e) in rw small refl
  | inr e ↦
      let large : min (min k u32_max) 16 ≡ 16 = ground (arith, e) in
      let grown : 2 ^ 16 ≤ 2 ^ k = pow2_mono 16 k (ground (arith, e)) in
      let sixteen : 65536 ≤ 2 ^ k = grown in rw large (omega (arith, sixteen))
]

-- After `k` connections in a row that failed within a minute of being opened, the hub waits 2 ^ k
-- seconds before the next, and never more than 60.
pub backoff_secs-failing :
    (lived : ℕ → ℕ) (k : ℕ)
    → ((i : ℕ) → leb backoff_reset_ms (lived i) ≡ false)
    → backoff_secs (failing lived k 0) ≡ min (2 ^ k) max_backoff_secs
unfolding backoff_secs
backoff_secs-failing lived k h = rw (failing_lem lived k h) (shift_capped k)

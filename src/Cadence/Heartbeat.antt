-- ===== src/Cadence/Heartbeat.antt =====
-- The anchor-watch heartbeat after a beat that was lost and one that landed.
use dock_neighbor_hub.Shared.{
  ℕ, ◌+◌, ◌-◌, ◌*◌, ◌≤◌, ◌<◌, ◌≡◌, ◌≢◌, min, true, arith, leb, u32, pow2-pos, ◌^◌,
}
use dock_neighbor_hub.Cadence.{HeartbeatClock, due, delivered, failed}

backoff_bounds : (k : ℕ) → (30 ≤ min (30 * 2 ^ k) 60) × (min (30 * 2 ^ k) 60 ≤ 60)
backoff_bounds k = (omega (arith, pow2-pos k), omega arith)

-- While the `u32` count of failures is below its end: after a failed beat, and until some post lands, the next is due from a retry time that lies 30 to
-- 60 seconds after the failure, whatever the interval; once a post has landed since, the interval
-- counts from it again.
pub failed-due :
    (c : HeartbeatClock) (failed_at last_ok now interval : ℕ)
    → c.failures < 4294967295
    → (t : ℕ) × (failed_at + 30000 ≤ t)
      × (t ≤ failed_at + 60000)
      × (last_ok ≤ failed_at → due (failed c failed_at) c.sent_sig last_ok now interval ≡ leb t now)
      × (failed_at < last_ok
          → due (failed c failed_at) c.sent_sig last_ok now interval
            ≡ leb (interval * 1000) (now - last_ok))
unfolding due failed
failed-due c failed_at last_ok now interval h =
    let b = backoff_bounds (min (u32 (u32 (c.failures + 1) + 4294967295)) 4) in
    (
      (failed c failed_at).retry_at_ms,
      ground arith,
      ground arith,
      λ l. ground arith,
      λ l. ground arith,
    )

-- A delivered beat silences the clock for its signature until the interval since the last post has
-- passed; any other signature is due at once.
pub delivered-due :
    (c : HeartbeatClock) (sig other last_ok now interval : ℕ)
    → (due (delivered c sig) sig last_ok now interval ≡ leb (interval * 1000) (now - last_ok))
      × (other ≢ sig → due (delivered c sig) other last_ok now interval ≡ true)
unfolding due delivered
delivered-due c sig other last_ok now interval = ground arith

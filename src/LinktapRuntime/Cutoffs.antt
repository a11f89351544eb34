-- ===== src/LinktapRuntime/Cutoffs.antt =====
-- How often the volume cutoff asks for a stop in one cycle, with the closes that are issued and given
-- up during it.
use dock_neighbor_hub.Shared.{ℕ, ◌+◌, ◌≤◌, inl, inr, List, [], ◌∷◌, none, some, arith, is_some}
use dock_neighbor_hub.Float.{Float64}
use dock_neighbor_hub.Cycle.{
  EndReason, Profile, Running, Observation, volume_cap, idle, running, metered, cutoff_due, step,
}
use dock_neighbor_hub.Cycle.Machine.{count, is_stop, step-Stepped}
use dock_neighbor_hub.LinktapRuntime.{mark, unmark}

-- What happens to a running cycle: a payload, a close that is issued, a close that is given up.
pub data CycleMove (V : Type 0) : Type 0 where
  payload : Observation V → CycleMove V
  closed : EndReason → CycleMove V
  given_up : CycleMove V

module _ {V : Type 0} ⦃f : Float64 V⦄ (profile : Profile V) where
  -- The stops that the cutoff asks for up to the payload that ends the cycle.
  unfoldable pub cutoffs : Running V → List (CycleMove V) → ℕ
  cutoffs cur [] = 0
  cutoffs cur (payload o ∷ ms) =
      let r = step (running cur) o profile in
      count (is_stop r.action) + elim r.state [ idle ↦ 0 | running next ↦ cutoffs next ms ]
  cutoffs cur (closed why ∷ ms) = elim (mark why (running cur)) [
    | idle ↦ 0
    | running next ↦ cutoffs next ms
  ]
  cutoffs cur (given_up ∷ ms) = elim (unmark (running cur)).0 [
    | idle ↦ 0
    | running next ↦ cutoffs next ms
  ]

  -- The closes given up in the cycle that released the mark of a stop.
  unfoldable pub releases : Running V → List (CycleMove V) → ℕ
  releases cur [] = 0
  releases cur (payload o ∷ ms) = elim (step (running cur) o profile).state [
    | idle ↦ 0
    | running next ↦ releases next ms
  ]
  releases cur (closed why ∷ ms) = elim (mark why (running cur)) [
    | idle ↦ 0
    | running next ↦ releases next ms
  ]
  releases cur (given_up ∷ ms) =
      count (unmark (running cur)).1
      + elim (unmark (running cur)).0 [ idle ↦ 0 | running next ↦ releases next ms ]

  -- Over the payloads of one cycle, the closes issued and the closes given up during it, in any
  -- order, the cutoff asks for a stop at most once more than closes that were given up released the
  -- mark of a stop; and at most as often as that where a stop is marked at the beginning.
  pub cutoffs-releases :
      (cur : Running V) (ms : List (CycleMove V))
      → cutoffs cur ms + count (is_some cur.stop_issued) ≤ 1 + releases cur ms
  unfolding cutoffs releases metered cutoff_due mark unmark
  cutoffs-releases cur [] = ground arith
  cutoffs-releases cur (payload o ∷ ms) = elim (step-Stepped cur o profile) [
    | inl (_, due, e) ↦
        let ih = cutoffs-releases (record (metered cur o) { stop_issued = some volume_cap }) ms in
        rw (e, cutoffs, releases) (ground (arith, due, ih))
    | inr (inl (_, _, e)) ↦
        let ih = cutoffs-releases (metered cur o) ms in
        rw (e, cutoffs, releases) (ground (arith, ih))
    | inr (inr (_, e)) ↦ rw (e, cutoffs, releases) (ground arith)
  ]
  cutoffs-releases cur (closed why ∷ ms) =
      let ih = cutoffs-releases (record cur { stop_issued = some why }) ms in ground (arith, ih)
  cutoffs-releases cur (given_up ∷ ms) =
      let kept = cutoffs-releases cur ms in
      let freed = cutoffs-releases (record cur { stop_issued = none }) ms in
      ground (arith, kept, freed)

-- ===== src/LinktapRuntime/Hints.antt =====
-- The poll hint, against the run that is to be handed over.
use dock_neighbor_hub.Shared.{
  ℕ, ◌+◌, ◌-◌, ◌*◌, ◌/◌, ◌≡◌, ◌≤◌, ◌<◌, min, max, refl, Option, none, some, String, List, [], ◌∷◌,
  arith, lookup, str_eq, Bool-cases, Option-cases, inl, inr,
}
use dock_neighbor_hub.Float.{Float64}
use dock_neighbor_hub.Cycle.{Running, running, handover_lead_secs}
use dock_neighbor_hub.LinktapRuntime.{
  Runtime, Track, until_lead, due_of, sooner_of, soonest_of, poll_hint,
}

sooner_of-le : (o : Option ℕ) (u : ℕ) → (s : ℕ) × (sooner_of o (some u) ≡ some s) × (s ≤ u)
sooner_of-le none u = (u, refl, omega arith)
sooner_of-le (some s) u = (min s u, refl, omega arith)

module _ {V : Type 0} ⦃f : Float64 V⦄ where
  -- A hint already found only gets sooner.
  soonest_of-some :
      (ts : List (String × Track V)) (s now_ms : ℕ)
      → (h : ℕ) × (soonest_of ts (some s) now_ms ≡ some h) × (h ≤ s)
  unfolding soonest_of
  soonest_of-some [] s now_ms = (s, refl, omega arith)
  soonest_of-some ((id, t) ∷ ts) s now_ms = elim (Option-cases (due_of t.state now_ms)) [
    | inl e ↦ rw e (soonest_of-some ts s now_ms)
    | inr (u, e) ↦
        let (h, found, le) = soonest_of-some ts (min s u) now_ms in
        rw e (h, found, omega (arith, le))
  ]

  soonest_of-le :
      (ts : List (String × Track V)) (o : Option ℕ) (now_ms u : ℕ) (id : String) (t : Track V)
      → lookup id ts ≡ some t
      → due_of t.state now_ms ≡ some u
      → (h : ℕ) × (soonest_of ts o now_ms ≡ some h) × (h ≤ u)
  unfolding soonest_of lookup
  soonest_of-le [] o now_ms u id t found due = absurd (ground arith)
  soonest_of-le ((j, w) ∷ ts) o now_ms u id t found due = elim (Bool-cases (str_eq j id)) [
    | inl here ↦
        let same : due_of w.state now_ms ≡ some u = ground arith in
        let (s, e, le) = sooner_of-le o u in
        let (h, hit, near) = soonest_of-some ts s now_ms in
        rw (same, e) (h, hit, omega (arith, le, near))
    | inr there ↦
        soonest_of-le ts (sooner_of o (due_of w.state now_ms)) now_ms u id t (ground arith) due
  ]

  until_lead_eq :
      (run : Running V) (now_ms u : ℕ)
      → until_lead run now_ms ≡ some u
      → u ≡ run.duration_secs - (now_ms - run.started_at) / 1000 - handover_lead_secs
  unfolding until_lead
  until_lead_eq run now_ms u h = ground arith

  -- While a watched valve runs a washdown, started by now, that is to be handed over and more than five
  -- seconds of it are left, the loop has a hint of at least five seconds, and looks again before the run's time is up.
  pub poll_hint_in_time :
      (rt : Runtime V) (now_ms u : ℕ) (id : String) (t : Track V) (run : Running V)
      → lookup id rt.tracks ≡ some t
      → t.state ≡ running run
      → until_lead run now_ms ≡ some u
      → run.started_at ≤ now_ms
      → (now_ms - run.started_at) / 1000 + 5 < run.duration_secs
      → (h : ℕ) × (poll_hint rt now_ms ≡ some h)
        × (5 ≤ h)
        × ((now_ms + h * 1000 - run.started_at) / 1000 < run.duration_secs)
  unfolding poll_hint
  poll_hint_in_time rt now_ms u id t run found runs due after room =
      let (s, e, le) = soonest_of-le rt.tracks none now_ms u id t found (rw runs due) in
      let left = until_lead_eq run now_ms u due in
      rw (poll_hint, e) (max s 5, refl, (omega arith), omega (arith, le, left, after, room))

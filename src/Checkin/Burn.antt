-- ===== src/Checkin/Burn.antt =====
-- The cellular use of a router over a run of polls and keyframes.
use dock_neighbor_hub.Shared.{ℕ, ◌+◌, ◌≡◌, true, false, none, List, [], ◌∷◌}
use dock_neighbor_hub.Checkin.{WanBurn, BurnMove, polled, built, landed, lost, burn_move, delta_of}

abbrev pub fresh_burn : WanBurn
fresh_burn = record { counters = none; pending = 0; carried = none }

-- The state after a run, newest move first.
unfoldable pub burn_after : List BurnMove → WanBurn
burn_after [] = fresh_burn
burn_after (m ∷ ms) = (burn_move m (burn_after ms)).0

-- The use that was handed on in a run: in a keyframe that was delivered, or in an item of its own for
-- the queue of reports, from where it may still be lost.
unfoldable pub handed_kb : List BurnMove → ℕ
handed_kb [] = 0
handed_kb (m ∷ ms) = handed_kb ms + (burn_move m (burn_after ms)).1

abbrev pub used_with : BurnMove → WanBurn → ℕ
used_with (polled c event) b = delta_of b.counters c
used_with built b = 0
used_with landed b = 0
used_with lost b = 0

-- The use that the counters showed in a run.
unfoldable pub used_kb : List BurnMove → ℕ
used_kb [] = 0
used_kb (m ∷ ms) = used_kb ms + used_with m (burn_after ms)

-- No poll is sent at once while a keyframe is under way.
abbrev pub QuietWith : BurnMove → WanBurn → Type 0
QuietWith (polled c true) b = b.carried ≡ none
QuietWith (polled c false) b = Unit {0}
QuietWith built b = Unit {0}
QuietWith landed b = Unit {0}
QuietWith lost b = Unit {0}

unfoldable pub Quiet : List BurnMove → Type 0
Quiet [] = Unit {0}
Quiet (m ∷ ms) = QuietWith m (burn_after ms) × Quiet ms

-- ===== src/Examples/Routers.antt =====
-- Concrete histories of a router's polls, and reports about one that cannot be read.
use dock_neighbor_hub.Shared.{ℕ, ◌+◌, ◌≡◌, List, [], ◌∷◌}
use dock_neighbor_hub.RouterHealth.{Sample, Params, failed, is_down, up_src}
use dock_neighbor_hub.RouterHealth.Grace.{
  Poll, after_polls, bad_run, earned_down, after_polls-is_down,
}

abbrev poll : Sample → ℕ → Poll
poll s at = record { sample = s; started_ms = at; finished_ms = at + 2000 }

abbrev history : List Poll
history = poll failed 60000 ∷ poll failed 5000 ∷ poll Sample.up 1000 ∷ []

after_polls-is_down_example : is_down (after_polls history).reported ≡ earned_down (bad_run history)
after_polls-is_down_example = after_polls-is_down history

abbrev last : Params
last = ("up", "1") ∷ ("wan", "cellular") ∷ (up_src, "read") ∷ []

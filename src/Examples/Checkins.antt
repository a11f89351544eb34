-- ===== src/Examples/Checkins.antt =====
-- A keyframe whose second post is lost, and a router polled around it.
use dock_neighbor_hub.Shared.{ℕ, zero, suc, ◌≡◌, refl, true, false, some, List, [], ◌∷◌, take}
use dock_neighbor_hub.Batch.{Item}
use dock_neighbor_hub.Batch.Posts.{joined_posts}
use dock_neighbor_hub.Spool.{PostOutcome, delivered, transient}
use dock_neighbor_hub.Checkin.{
  BurnMove, polled, built, landed, lost, checkin_once, posts_of, marks_of, is_delivered,
  wan_kb_delta, burn_move,
}
use dock_neighbor_hub.Checkin.Burn.{burn_after, handed_kb, used_kb}
use dock_neighbor_hub.Checkin.Landed.{delivered_from, checkin_once-landed}

-- Newest first: the keyframe lands after one was lost, and a poll came in between.
abbrev burn : List BurnMove
burn =
    landed
    ∷ polled (some (8192, 0)) false
    ∷ built
    ∷ lost
    ∷ built
    ∷ polled (some (4096, 0)) false
    ∷ polled (some (0, 0)) false
    ∷ []

-- An event formed while the keyframe is under way hands the same four kilobytes on a second time.
handed_twice :
    (handed_kb (
        landed
        ∷ polled (some (4096, 0)) true
        ∷ built
        ∷ polled (some (4096, 0)) false
        ∷ polled (some (0, 0)) false
        ∷ [])
      ≡ 8)
    × (used_kb (
          landed
          ∷ polled (some (4096, 0)) true
          ∷ built
          ∷ polled (some (4096, 0)) false
          ∷ polled (some (0, 0)) false
          ∷ [])
        ≡ 4)
unfolding handed_kb used_kb burn_after burn_move wan_kb_delta
handed_twice = (refl, refl)

abbrev status : Item
status = record { device = "hub"; event = "hub.status"; params = [] }

abbrev keyframe : List (Item × List ℕ)
keyframe = (status, 1 ∷ []) ∷ (status, 2 ∷ 3 ∷ []) ∷ []

abbrev cloud : ℕ → PostOutcome
cloud zero = delivered
cloud (suc n) = transient "down"

checkin_once-landed_example :
    (let r = checkin_once cloud (λ i. []) ("ack" ∷ []) keyframe in
      let posts = posts_of keyframe in
      (r.1.applied ≡ marks_of (joined_posts (take (delivered_from cloud 0 posts) posts)))
      × ((r.0 ≡ true) → r.1.applied ≡ marks_of keyframe)
      × ((is_delivered (cloud 0) ≡ false)
          → (r.0 ≡ false) × (r.1.applied ≡ []) × (r.1.acks ≡ "ack" ∷ [])))
checkin_once-landed_example = checkin_once-landed cloud (λ i. []) ("ack" ∷ []) keyframe

-- ===== src/Checkin.antt =====
-- daemon/src/hub_server.rs and routers.rs: the keyframe check-in. What a delivered post makes "last
-- sent", the acknowledgements that ride the first post, and the cellular use that a router's reports
-- carry. A kilobyte count is taken to stay below 2 ^ 64.
pub mod Landed
pub mod Burn
use dock_neighbor_hub.Shared.{
  ℕ, zero, suc, ◌+◌, ◌-◌, ◌/◌, Bool, true, false, not, ◌&&◌, ◌||◌, Option, none, some, String, List,
  [], ◌∷◌, ◌++◌, if◌then◌else◌, ltb, ◌==◌, length,
}
use dock_neighbor_hub.Batch.{Item, chunks, max_items}
use dock_neighbor_hub.Spool.{PostOutcome, delivered, transient, refused_post}

-- `routers::wan_kb_delta`: the lifetime counters sent and received.
abbrev pub Counters : Type 0
Counters = ℕ × ℕ

unfoldable pub wan_kb_delta : Option Counters → Counters → Option ℕ
wan_kb_delta none now = none
wan_kb_delta (some prev) now =
    if ltb now.0 prev.0 || ltb now.1 prev.1
    then none
    else some (((now.0 - prev.0) + (now.1 - prev.1)) / 1024)

abbrev pub or_zero : Option ℕ → ℕ
or_zero none = 0
or_zero (some n) = n

-- One router that has an agent token: its last counters, the use not yet reported, and the use that a keyframe under way
-- carries.
pub record WanBurn : Type 0 where
  pub counters : Option Counters
  pub pending : ℕ
  pub carried : Option ℕ

-- A poll with the counters it read, if it read any, and whether it is an event that is sent at once;
-- a keyframe built, and its post delivered or not.
pub data BurnMove : Type 0 where
  polled : Option Counters → Bool → BurnMove
  built : BurnMove
  landed : BurnMove
  lost : BurnMove

abbrev pub delta_of : Option Counters → Option Counters → ℕ
delta_of prev none = 0
delta_of prev (some c) = or_zero (wan_kb_delta prev c)

abbrev pub or_counters : Option Counters → Option Counters → Option Counters
or_counters prev none = prev
or_counters prev (some c) = some c

-- A move's new state and the use it hands on: with a keyframe that landed, or in an item for the
-- queue of reports, which the hub may still lose.
unfoldable pub burn_move : BurnMove → WanBurn → WanBurn × ℕ
unfolding wan_kb_delta
burn_move (polled c event) b =
    let total = b.pending + delta_of b.counters c in
    let next = or_counters b.counters c in
    if event
    then (record b { counters = next; pending = 0 }, total)
    else (record b { counters = next; pending = total }, 0)
burn_move built b = elim b.carried [
  | none ↦ (record b { carried = some b.pending }, 0)
  | some kb ↦ (b, 0)
]
burn_move landed b =
    (record b { pending = b.pending - or_zero b.carried; carried = none }, or_zero b.carried)
burn_move lost b = (record b { carried = none }, 0)

-- The check-in: the acknowledgements owed, and the marks applied, in order.
pub record Checkin (M : Type 0) : Type 0 where
  pub acks : List String
  pub applied : List M

abbrev pub is_delivered : PostOutcome → Bool
is_delivered delivered = true
is_delivered (transient why) = false
is_delivered (refused_post why) = false

module _ {M : Type 0} where
  abbrev pub marks_of : List (Item × List M) → List M
  marks_of [] = []
  marks_of (b ∷ bs) = b.1 ++ marks_of bs

  -- The posts from number `i` on: what the cloud makes of each, and what its reply owes.
  unfoldable pub send_chunks :
      (ℕ → PostOutcome)
      → (ℕ → List String)
      → List String
      → ℕ
      → List (List (Item × List M))
      → Checkin M
      → Bool × Checkin M
  send_chunks cloud owed sending i [] st = (true, st)
  send_chunks cloud owed sending i (c ∷ cs) st =
      let on =
        send_chunks cloud owed sending (i + 1) cs
          (record { acks = st.acks ++ owed i; applied = st.applied ++ marks_of c }) in
      if is_delivered (cloud i)
      then on
      else (false, if i == 0 then record st { acks = st.acks ++ sending } else st)

  abbrev pub posts_of : List (Item × List M) → List (List (Item × List M))
  posts_of [] = [] ∷ []
  posts_of (b ∷ bs) = chunks (length (b ∷ bs)) max_items (b ∷ bs)

  -- `checkin_once`, with the keyframe built: the acknowledgements are taken before the first post.
  unfoldable pub checkin_once :
      (ℕ → PostOutcome) → (ℕ → List String) → List String → List (Item × List M) → Bool × Checkin M
  unfolding send_chunks
  checkin_once cloud owed pending_acks keyframe =
      send_chunks cloud owed pending_acks 0 (posts_of keyframe) (record { acks = []; applied = [] })

-- ===== src/Spool/Order.antt =====
-- The forwarding of sensor reports over a run of moves.
use dock_neighbor_hub.Shared.{
  ℕ, ◌+◌, ◌≤◌, Option, none, some, List, [], ◌∷◌, ◌++◌, map, arith, length,
}
use dock_neighbor_hub.Spool.{
  ShellyCall, QueuedShelly, Outbox, ShellyMove, arrive, begin, answer, sent, retry, refused,
  begin_shelly, answer_shelly, shelly_move,
}
use dock_neighbor_hub.Spool.Shedding.{enqueue_shelly-bounded}

abbrev pub empty_outbox : Outbox
empty_outbox = record { queue = []; flight = none }

-- The state after a run, newest move first.
pub outbox_after : ℕ → List ShellyMove → Outbox
outbox_after cap [] = empty_outbox
outbox_after cap (m ∷ ms) = shelly_move cap m (outbox_after cap ms)

abbrev pub call_of : QueuedShelly → ShellyCall
call_of x = x.call

abbrev pub arrived_with : ShellyMove → List ShellyCall
arrived_with (arrive x) = x.call ∷ []
arrived_with begin = []
arrived_with (answer o) = []

-- The reports that were queued, oldest first.
pub arrived : List ShellyMove → List ShellyCall
arrived [] = []
arrived (m ∷ ms) = arrived ms ++ arrived_with m

abbrev pub flying : Option QueuedShelly → List ShellyCall
flying none = []
flying (some x) = x.call ∷ []

abbrev pub sent_with : ShellyMove → Option QueuedShelly → List ShellyCall
sent_with (answer sent) o = flying o
sent_with (answer (retry why)) o = []
sent_with (answer (refused why)) o = []
sent_with begin o = []
sent_with (arrive x) o = []

-- The reports whose send was answered as done, in that order. A send that failed on the way counts
-- as unanswered, also when the cloud had it; the report is sent again, and the cloud may get it twice.
pub acknowledged : ℕ → List ShellyMove → List ShellyCall
acknowledged cap [] = []
acknowledged cap (m ∷ ms) = acknowledged cap ms ++ sent_with m (outbox_after cap ms).flight

abbrev pub held : Outbox → List ShellyCall
held b = flying b.flight ++ map call_of b.queue

abbrev in_flight : Option QueuedShelly → ℕ
in_flight none = 0
in_flight (some x) = 1

-- Whatever the run, the reports waiting and the one in flight are at most one more than the queue's
-- bound; the one more is a report put back behind a queue that filled up while it was tried.
pub outbox_after-bounded :
    (cap : ℕ) (ms : List ShellyMove)
    → (let b = outbox_after cap ms in length b.queue + in_flight b.flight ≤ cap + 1)
unfolding outbox_after shelly_move begin_shelly answer_shelly
outbox_after-bounded cap [] = omega arith
outbox_after-bounded cap (arrive x ∷ ms) =
    let b = outbox_after cap ms in
    let n = enqueue_shelly-bounded b.queue x cap in
    let ih = outbox_after-bounded cap ms in ground (arith, n, ih)
outbox_after-bounded cap (begin ∷ ms) = let ih = outbox_after-bounded cap ms in ground (arith, ih)
outbox_after-bounded cap (answer o ∷ ms) =
    let ih = outbox_after-bounded cap ms in ground (arith, ih)

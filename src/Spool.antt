-- ===== src/Spool.antt =====
-- daemon/src/hub_server.rs: what the hub holds for the cloud while the uplink is down. The sensor
-- reports (`pending_shelly`) are forwarded one at a time; the hub's own reports (`pending_reports`)
-- leave as numbered posts. A drain holds its lock for its whole length and others may queue reports
-- between its steps, so a run is a sequence of moves: a report queued, an attempt begun, an answer.
pub mod Shedding
pub mod Order
pub mod Numbers
use dock_neighbor_hub.Shared.{
  ℕ, suc, ◌+◌, ◌-◌, ◌%◌, ◌<>◌, min, Bool, true, false, not, ◌&&◌, ◌||◌, Option, none, some, String,
  List, [], ◌∷◌, ◌++◌, map, if◌then◌else◌, length, take, drop, ltb, leb, ◌==◌, decimal, codes,
  contains, to_ascii_lowercase,
}
use dock_neighbor_hub.Linktap.{Report}
use dock_neighbor_hub.GatewayWatch.{is_flood_shutoff}
use dock_neighbor_hub.Batch.{Item, max_items, from_report, for_the_wire}

pub record ShellyCall : Type 0 where
  pub vid : String
  pub event : String
  pub device : String
  pub k : String
  pub extras : List (String × String)

pub record QueuedShelly : Type 0 where
  pub call : ShellyCall
  pub queued_ms : ℕ
  pub attempts : ℕ

abbrev pub max_shelly_queue : ℕ
max_shelly_queue = 300

abbrev pub max_spool_reports : ℕ
max_spool_reports = 240

unfoldable pub shelly_is_alarm : String → Bool
shelly_is_alarm event =
    let e = to_ascii_lowercase (codes event) in
    is_flood_shutoff event
    || (contains e (codes "alarm") || (contains e (codes "flood") || contains e (codes "leak")))

-- The first report that is no alarm, taken out of the queue: what is left, and the report.
unfoldable pub remove_reading : List QueuedShelly → Option (List QueuedShelly × QueuedShelly)
remove_reading [] = none
remove_reading (x ∷ q) =
    if shelly_is_alarm x.call.event
    then elim (remove_reading q) [ none ↦ none | some r ↦ some (x ∷ r.0, r.1) ]
    else some (q, x)

-- `q.remove(victim)` with the first as the victim where there is no reading.
unfoldable pub shed_one :
    List QueuedShelly
    → Option (List QueuedShelly × QueuedShelly)
    → List QueuedShelly × Option QueuedShelly
shed_one q (some r) = (r.0, some r.1)
shed_one [] none = ([], none)
shed_one (x ∷ q) none = (q, some x)

unfoldable pub enqueue_shelly :
    List QueuedShelly → QueuedShelly → ℕ → List QueuedShelly × Option QueuedShelly
unfolding remove_reading shed_one
enqueue_shelly q item cap =
    let all_of = q ++ (item ∷ []) in
    if leb (length all_of) cap then (all_of, none) else shed_one all_of (remove_reading all_of)

unfoldable pub report_refusal : ℕ → String → Option String
report_refusal status device =
    if leb 200 status && ltb status 300
    then none
    else some
        ("REFUSED by the cloud: HTTP " <> (decimal status <> (" (device " <> (device <> ")"))))

pub data ForwardOutcome : Type 0 where
  sent : ForwardOutcome
  retry refused : String → ForwardOutcome

abbrev pub or_empty : Option String → String
or_empty none = ""
or_empty (some s) = s

unfoldable pub classify_forward : ℕ → String → ForwardOutcome
unfolding report_refusal
classify_forward status device =
    if leb 200 status && ltb status 300
    then sent
    else if status == 408 || (status == 429 || leb 500 status)
    then retry ("cloud answered HTTP " <> decimal status)
    else refused (or_empty (report_refusal status device))

-- The queue, and the report that an attempt has taken off it.
pub record Outbox : Type 0 where
  pub queue : List QueuedShelly
  pub flight : Option QueuedShelly

pub data ShellyMove : Type 0 where
  arrive : QueuedShelly → ShellyMove
  begin : ShellyMove
  answer : ForwardOutcome → ShellyMove

-- The loop's `pop_front`, where no attempt is under way.
unfoldable pub begin_shelly : Option QueuedShelly → List QueuedShelly → Outbox
begin_shelly (some x) q = record { queue = q; flight = some x }
begin_shelly none [] = record { queue = []; flight = none }
begin_shelly none (x ∷ q) = record {
  queue = q;
  flight = some (record x { attempts = x.attempts + 1 });
}

-- What an answer does with the report in flight. An error on the way is a retry as well, though the
-- cloud may have had the report by then.
unfoldable pub answer_shelly :
    ForwardOutcome → Option QueuedShelly → List QueuedShelly → List QueuedShelly
answer_shelly o none q = q
answer_shelly sent (some x) q = q
answer_shelly (refused why) (some x) q = q
answer_shelly (retry why) (some x) q = x ∷ q

unfoldable pub shelly_move : ℕ → ShellyMove → Outbox → Outbox
unfolding enqueue_shelly begin_shelly answer_shelly
shelly_move cap (arrive x) b = record b { queue = (enqueue_shelly b.queue x cap).0 }
shelly_move cap begin b = begin_shelly b.flight b.queue
shelly_move cap (answer o) b = record { queue = answer_shelly o b.flight b.queue; flight = none }

-- The loop of `push_bounded`: the oldest entries go until `cap` are left.
unfoldable pub shed_oldest {ℓ} : {A : Type ℓ} → ℕ → List A → List A × ℕ
shed_oldest cap [] = ([], 0)
shed_oldest cap (x ∷ q) =
    let rest = shed_oldest cap q in
    if ltb cap (length (x ∷ q)) then (rest.0, rest.1 + 1) else (x ∷ q, 0)

unfoldable pub push_bounded {ℓ} : {A : Type ℓ} → List A → A → ℕ → List A × ℕ
unfolding shed_oldest
push_bounded q item cap = shed_oldest cap (q ++ (item ∷ []))

pub data PostOutcome : Type 0 where
  delivered : PostOutcome
  transient refused_post : String → PostOutcome

-- `post_batch`'s reading of a status.
unfoldable pub post_outcome : ℕ → String → PostOutcome
unfolding report_refusal
post_outcome code hub_id =
    if leb 200 code && ltb code 300
    then delivered
    else if leb 500 code || (code == 408 || code == 429)
    then transient ("cloud answered HTTP " <> decimal code)
    else refused_post (or_empty (report_refusal code hub_id))

abbrev pub Post : Type 0
Post = ℕ × List Item

-- The reports waiting, the post kept for a retry, the post under way, and the next number.
pub record ReportSpool : Type 0 where
  pub pending : List Report
  pub inflight : Option Post
  pub posting : Option Post
  pub batch_seq : ℕ

pub data SpoolMove : Type 0 where
  spooled : Report → SpoolMove
  posted : Bool → SpoolMove
  answered : PostOutcome → SpoolMove
  unregistered : SpoolMove

unfoldable pub wire_items : Bool → List Report → List Item
wire_items leased rs = map (λ r. for_the_wire (from_report r) leased) rs

-- The top of the loop of `drain_reports`, where no post is under way: the kept post again, or a new
-- one of the oldest reports. `fetch_add` wraps.
unfoldable pub next_post :
    Bool → Option Post → Option Post → List Report → ReportSpool → ReportSpool
unfolding wire_items
next_post leased (some p) inflight pending s = s
next_post leased none (some p) pending s = record s { inflight = none; posting = some p }
next_post leased none none [] s = s
next_post leased none none (r ∷ q) s =
    let count = min (length (r ∷ q)) max_items in
    record s {
      pending = drop count (r ∷ q);
      posting = some (s.batch_seq, wire_items leased (take count (r ∷ q)));
      batch_seq = (s.batch_seq + 1) % 18446744073709551616;
    }

unfoldable pub answer_post : PostOutcome → Option Post → ReportSpool → ReportSpool
answer_post delivered p s = record s { posting = none }
answer_post (refused_post why) p s = record s { posting = none }
answer_post (transient why) none s = s
answer_post (transient why) (some p) s = record s { inflight = some p; posting = none }

unfoldable pub spool_move : SpoolMove → ReportSpool → ReportSpool
unfolding push_bounded next_post answer_post
spool_move (spooled r) s = record s { pending = (push_bounded s.pending r max_spool_reports).0 }
spool_move (posted leased) s = next_post leased s.posting s.inflight s.pending s
spool_move (answered o) s = answer_post o s.posting s
spool_move unregistered s = record s { pending = []; posting = none }

-- ===== src/Relay.antt =====
-- daemon/src/hub_relay.rs: the socket to the cloud that relays calls. `serve_once` is a step on each
-- thing its `select!` wakes for, with the instant it wakes in milliseconds; the frames, the writes
-- that fail and the nonces are inputs.
pub mod Silence
pub mod Backoff
use dock_neighbor_hub.Shared.{
  ℕ, ◌+◌, ◌-◌, ◌*◌, ◌^◌, ◌%◌, min, max, Bool, true, false, not, ◌&&◌, ◌||◌, Option, none, some,
  String, List, [], ◌∷◌, if◌then◌else◌, ltb, leb, ◌==◌, str_eq, is_empty, u32_max, saturating_suc32,
}
use dock_neighbor_hub.Access.{MemberKey}

abbrev pub max_backoff_secs : ℕ
max_backoff_secs = 60

-- The shift is of at most 16 places, so it never leaves 64 bits.
unfoldable pub backoff_secs : ℕ → ℕ
backoff_secs attempt = min (2 ^ min attempt 16) max_backoff_secs

-- `BACKOFF_RESET_AFTER` in milliseconds.
abbrev pub backoff_reset_ms : ℕ
backoff_reset_ms = 60000

unfoldable pub next_attempt : ℕ → ℕ → Bool → ℕ
next_attempt attempt lived_ms clean_close =
    if clean_close || leb backoff_reset_ms lived_ms then 0 else saturating_suc32 attempt

abbrev pub ping_every_ms : ℕ
ping_every_ms = 10000

abbrev pub silence_limit_ms : ℕ
silence_limit_ms = 35000

abbrev pub nonce_ping_default_secs : ℕ
nonce_ping_default_secs = 900

abbrev pub nonce_ping_min_secs : ℕ
nonce_ping_min_secs = 60

abbrev pub nonce_ping_max_secs : ℕ
nonce_ping_max_secs = 3600

abbrev pub nonce_misses_allowed : ℕ
nonce_misses_allowed = 3

unfoldable pub nonce_ping_every : ℕ → ℕ
nonce_ping_every configured_secs =
    if configured_secs == 0
    then nonce_ping_default_secs
    else if ltb configured_secs nonce_ping_min_secs
    then nonce_ping_min_secs
    else if ltb nonce_ping_max_secs configured_secs
    then nonce_ping_max_secs
    else configured_secs

unfoldable pub nonce_silence_limit : ℕ → ℕ
nonce_silence_limit every_secs = every_secs * nonce_misses_allowed

unfoldable pub relay_is_silent : ℕ → ℕ → Bool
relay_is_silent silent_for limit = ltb limit silent_for

unfoldable pub nonce_is_silent : Bool → ℕ → ℕ → Bool
nonce_is_silent echoed since_last_echo limit = echoed && ltb limit since_last_echo

-- `RawFrame`, as JSON gives it.
pub record RawFrame : Type 0 where
  pub kind : String
  pub keys : Option (List MemberKey)
  pub id : Option String
  pub uid : Option String
  pub role : Option String
  pub method : Option String
  pub path : Option String
  pub body : Option String
  pub n : Option String

pub data WorkerMessage : Type 0 where
  keys : List MemberKey → WorkerMessage
  pong : Option String → WorkerMessage
  call : String → String → String → String → String → String → WorkerMessage

abbrev pub filled : Option String → Option String
filled none = none
filled (some s) = if is_empty s then none else some s

abbrev pub or_blank : Option String → String
or_blank none = ""
or_blank (some s) = s

abbrev pub or_no_keys : Option (List MemberKey) → List MemberKey
or_no_keys none = []
or_no_keys (some ks) = ks

unfoldable pub call_of :
    Option String → Option String → Option String → RawFrame → Option WorkerMessage
call_of (some id) (some uid) (some role) f =
    some (call id uid role (or_blank f.method) (or_blank f.path) (or_blank f.body))
call_of none uid role f = none
call_of (some id) none role f = none
call_of (some id) (some uid) none f = none

unfoldable pub parse_worker_message : RawFrame → Option WorkerMessage
unfolding call_of
parse_worker_message f =
    if str_eq f.kind "keys"
    then some (keys (or_no_keys f.keys))
    else if str_eq f.kind "pong"
    then some (pong (filled f.n))
    else if str_eq f.kind "call"
    then call_of (filled f.id) (filled f.uid) (filled f.role) f
    else none

-- What the loop of `serve_once` keeps.
pub record Socket : Type 0 where
  pub last_seen : ℕ
  pub pending_nonce : Option String
  pub nonce_echoed : Bool
  pub last_nonce_echo : ℕ
  pub nonce_secs : ℕ

abbrev pub opened : ℕ → ℕ → Socket
opened now_ms nonce_secs = record {
  last_seen = now_ms;
  pending_nonce = none;
  nonce_echoed = false;
  last_nonce_echo = now_ms;
  nonce_secs = nonce_secs;
}

-- A text frame with the message in it, if it parses; a control or binary frame; the stream's end; a
-- read or write that fails; the cloud's word that it holds no socket; the timers, the slower one with
-- the vessel's setting and the nonce it makes.
pub data Wake : Type 0 where
  text : Option WorkerMessage → Wake
  control ended failed dropped ping_tick : Wake
  nonce_tick : ℕ → String → Wake

pub data Outcome : Type 0 where
  goes_on : Socket → Outcome
  clean broken : Outcome

abbrev pub same_nonce : Option String → Option String → Bool
same_nonce (some a) (some b) = str_eq a b
same_nonce none b = false
same_nonce (some a) none = false

unfoldable pub heard : Option WorkerMessage → ℕ → Socket → Socket
heard none now_ms s = s
heard (some (keys ks)) now_ms s = s
heard (some (call id uid role method path body)) now_ms s = s
heard (some (pong n)) now_ms s =
    if same_nonce n s.pending_nonce
    then record s { nonce_echoed = true; last_nonce_echo = now_ms; pending_nonce = none }
    else s

unfoldable pub wake : Wake → ℕ → Socket → Outcome
unfolding heard nonce_ping_every nonce_silence_limit relay_is_silent nonce_is_silent
wake (text m) now_ms s = goes_on (heard m now_ms (record s { last_seen = now_ms }))
wake control now_ms s = goes_on s
wake ended now_ms s = clean
wake failed now_ms s = broken
wake dropped now_ms s = clean
wake ping_tick now_ms s =
    if relay_is_silent (now_ms - s.last_seen) silence_limit_ms then broken else goes_on s
wake (nonce_tick live n) now_ms s =
    let limit = nonce_silence_limit (nonce_ping_every live) * 1000 in
    if nonce_is_silent s.nonce_echoed (now_ms - s.last_nonce_echo) limit
    then broken
    else goes_on (record s { nonce_secs = live; pending_nonce = some n })

abbrev pub then_on : Outcome → (Socket → Outcome) → Outcome
then_on (goes_on s) next = next s
then_on clean next = clean
then_on broken next = broken

-- One thing after another, until the socket ends.
unfoldable pub serve : List (Wake × ℕ) → Socket → Outcome
unfolding wake
serve [] s = goes_on s
serve (w ∷ ws) s = then_on (wake w.0 w.1 s) (serve ws)

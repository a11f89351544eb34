-- ===== src/KeySync.antt =====
-- daemon/src/key_sync.rs: when the member-key set is fetched. Times are milliseconds since the
-- epoch, as natural numbers; `fails` is a `u32`. The signature of a set (`member_set_sig`, over
-- SHA-256) is computed by the caller and is an argument here.
pub mod Gate
use dock_neighbor_hub.Shared.{
  ℕ, ◌+◌, ◌-◌, ◌*◌, ◌^◌, min, Bool, true, false, not, ◌&&◌, ◌||◌, List, [], ◌∷◌, Option, none, some,
  String, ltb, leb, ◌==◌, if◌then◌else◌, saturating_suc32, is_some, str_eq, length, all, codes,
}

abbrev pub safety_refresh_secs : ℕ
safety_refresh_secs = 24 * 60 * 60

abbrev pub backoff_start_secs : ℕ
backoff_start_secs = 60

abbrev pub backoff_max_secs : ℕ
backoff_max_secs = 30 * 60

abbrev pub door_miss_gap_ms : ℕ
door_miss_gap_ms = 60000

abbrev pub is_hex : ℕ → Bool
is_hex c = (leb b'0' c && leb c b'9') || (leb b'a' c && leb c b'f')

-- Where every byte is a hex digit, the bytes are the code points.
unfoldable pub valid_sig : String → Bool
valid_sig s = length (codes s) == 64 && all is_hex (codes s)

-- `filter(|s| valid_sig(s))`.
unfoldable pub valid_only : Option String → Option String
valid_only none = none
valid_only (some s) = if valid_sig s then some s else none

pub data Reason : Type 0 where
  boot signature door_miss safety : Reason

unfoldable pub reason_str : Reason → String
reason_str boot = "boot"
reason_str signature = "signature changed"
reason_str door_miss = "an unknown key at the LAN door"
reason_str safety = "the daily safety refresh"

pub record KeySync : Type 0 where
  pub applied : Option String
  pub want : Option Reason
  pub want_sig : Option String
  pub last_ok_ms : ℕ
  pub fails : ℕ
  pub retry_at_ms : ℕ
  pub last_door_ms : ℕ

-- `KeySync::boot`.
unfoldable pub booted : Option String → ℕ → KeySync
booted applied now_ms = record {
  applied = valid_only applied;
  want = some boot;
  want_sig = none;
  last_ok_ms = now_ms;
  fails = 0;
  retry_at_ms = 0;
  last_door_ms = 0;
}

-- `if_none_match` gives back the signature of the set that is held.
unfoldable pub if_none_match : KeySync → Option String
if_none_match k = k.applied

unfoldable pub due : KeySync → ℕ → Option Reason
due k now_ms = if ltb now_ms k.retry_at_ms then none else elim k.want [
  | some r ↦ some r
  | none ↦ if leb (safety_refresh_secs * 1000) (now_ms - k.last_ok_ms) then some safety else none
]

abbrev is_safety : Option Reason → Bool
is_safety (some safety) = true
is_safety _ = false

abbrev pub holds_sig : Option String → String → Bool
holds_sig none sig = false
holds_sig (some a) sig = str_eq a sig

abbrev or_want : Option Reason → Reason → Option Reason
or_want none r = some r
or_want (some w) r = some w

unfoldable pub note_reply_sig : KeySync → Option String → ℕ → KeySync
note_reply_sig k sig now_ms = elim (valid_only sig) [
  | none ↦ k
  | some s ↦
      if holds_sig k.applied s
      then record k { last_ok_ms = now_ms; want = if is_safety k.want then none else k.want }
      else record k { want_sig = some s; want = or_want k.want signature }
]

unfoldable pub note_door_miss : KeySync → ℕ → KeySync × Bool
note_door_miss k now_ms =
    if not (k.last_door_ms == 0) && ltb (now_ms - k.last_door_ms) door_miss_gap_ms
    then (k, false)
    else (record k { last_door_ms = now_ms; want = or_want k.want door_miss }, true)

-- The set that is held was confirmed: the common end of a push, a fetch and a 304.
confirmed : KeySync → ℕ → KeySync
confirmed k now_ms = record k {
  want = none;
  want_sig = none;
  last_ok_ms = now_ms;
  fails = 0;
  retry_at_ms = 0;
}

unfoldable pub note_pushed : KeySync → String → ℕ → KeySync × String
unfolding confirmed
note_pushed k sig now_ms = (record (confirmed k now_ms) { applied = some sig }, sig)

abbrev first_some : Option String → Option String → String → String
first_some none none local = local
first_some none (some b) local = b
first_some (some a) b local = a

unfoldable pub applied_set : KeySync → Option String → String → ℕ → KeySync × String
unfolding confirmed
applied_set k etag local now_ms =
    let sig = first_some (valid_only etag) k.want_sig local in
    (record (confirmed k now_ms) { applied = some sig }, sig)

unfoldable pub not_modified : KeySync → ℕ → KeySync
unfolding confirmed
not_modified k now_ms = confirmed k now_ms

-- The shift is by at most 20 places, so the product stays within an `i64`.
unfoldable pub failed : KeySync → ℕ → KeySync × ℕ
failed k now_ms =
    let fails = saturating_suc32 k.fails in
    let wait = min (backoff_start_secs * 2 ^ min (fails - 1) 20) backoff_max_secs in
    (record k { fails = fails; retry_at_ms = now_ms + wait * 1000 }, wait)

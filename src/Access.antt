-- ===== src/Access.antt =====
-- daemon/src/hub_server.rs and adopt.rs: who may do what. A key, a secret and an address in text are
-- lists of bytes; the other texts are compared whole.
pub mod Bits
pub mod Doors
use dock_neighbor_hub.Shared.{
  ℕ, zero, suc, ◌+◌, ◌*◌, ◌/◌, ◌%◌, Bool, true, false, not, ◌&&◌, ◌||◌, Option, none, some, List,
  [], ◌∷◌, ◌++◌, String, if◌then◌else◌, ltb, leb, ◌==◌, any, all, length, codes, codes_eq, str_eq,
  is_empty, is_some,
}
use dock_neighbor_hub.GatewayWatch.{is_flood_shutoff}
use dock_neighbor_hub.Spool.{ShellyCall}
use dock_neighbor_hub.Probation.{digits, digits_value, trim_codes}

-- `x ^ y` and `x | y` on `u8`, bit by bit.
abbrev pub bit_of : Bool → ℕ
bit_of true = 1
bit_of false = 0

unfoldable pub bitwise : (Bool → Bool → Bool) → ℕ → ℕ → ℕ → ℕ
bitwise op zero a b = 0
bitwise op (suc n) a b = bit_of (op (a % 2 == 1) (b % 2 == 1)) + 2 * bitwise op n (a / 2) (b / 2)

abbrev pub xor : Bool → Bool → Bool
xor true b = not b
xor false b = b

unfoldable pub diff_of : ℕ → List ℕ → List ℕ → ℕ
unfolding bitwise
diff_of diff [] b = diff
diff_of diff (x ∷ a) [] = diff
diff_of diff (x ∷ a) (y ∷ b) = diff_of (bitwise (λ p q. p || q) 8 diff (bitwise xor 8 x y)) a b

unfoldable pub ct_eq : List ℕ → List ℕ → Bool
unfolding diff_of
ct_eq a b = if not (length a == length b) then false else diff_of 0 a b == 0

pub record MemberKey : Type 0 where
  pub uid : String
  pub role : String
  pub key : List ℕ

abbrev pub blank : List ℕ → Bool
blank [] = true
blank (c ∷ s) = false

-- The scan of the whole set, the last match kept.
unfoldable pub scan : List MemberKey → List ℕ → Option MemberKey → Option MemberKey
unfolding ct_eq
scan [] presented found = found
scan (k ∷ keys) presented found =
    scan keys presented (if ct_eq k.key presented then some k else found)

unfoldable pub authorize : List MemberKey → List ℕ → Option MemberKey
unfolding scan
authorize keys presented = if blank presented then none else scan keys presented none

unfoldable pub may_administer : String → Bool
may_administer role = str_eq role "owner" || str_eq role "coowner"

unfoldable pub may_control : String → Bool
may_control role =
    str_eq role "owner" || (str_eq role "coowner" || (str_eq role "admin" || str_eq role "control"))

unfoldable pub may_view : String → Bool
may_view role =
    str_eq role "owner"
    || (str_eq role "coowner"
        || (str_eq role "admin" || (str_eq role "control" || str_eq role "monitor")))

-- An address: the four octets, or the eight segments.
pub data IpAddr : Type 0 where
  v4 : ℕ → ℕ → ℕ → ℕ → IpAddr
  v6 : ℕ → ℕ → ℕ → ℕ → ℕ → ℕ → ℕ → ℕ → IpAddr

abbrev pub is_mapped : ℕ → ℕ → ℕ → ℕ → ℕ → ℕ → Bool
is_mapped a b c d e f = a == 0 && (b == 0 && (c == 0 && (d == 0 && (e == 0 && f == 65535))))

-- `is_loopback`, of an address as it is.
abbrev pub is_loopback : IpAddr → Bool
is_loopback (v4 a b c d) = a == 127
is_loopback (v6 a b c d e f g h) =
    a == 0 && (b == 0 && (c == 0 && (d == 0 && (e == 0 && (f == 0 && (g == 0 && h == 1))))))

abbrev pub plausible_v4 : ℕ → ℕ → Bool
plausible_v4 a b =
    a == 127
    || ((a == 10 || ((a == 172 && (leb 16 b && leb b 31)) || (a == 192 && b == 168)))
        || ((a == 169 && b == 254) || (a == 100 && (leb 64 b && ltb b 128))))

unfoldable pub shelly_peer_plausible : IpAddr → Bool
shelly_peer_plausible (v4 a b c d) = plausible_v4 a b
shelly_peer_plausible (v6 a b c d e f g h) =
    if is_mapped a b c d e f
    then plausible_v4 (g / 256) (g % 256)
    else is_loopback (v6 a b c d e f g h)
      || ((leb 64512 a && leb a 65023) || (leb 65152 a && leb a 65215))

-- `SHELLY_RESERVED`.
abbrev pub shelly_reserved : List String
shelly_reserved = "vid" ∷ "event" ∷ "device" ∷ "key" ∷ "k" ∷ []

-- One decoded pair of the query: the loop's body.
unfoldable pub take_pair : ShellyCall → String × String → ShellyCall
take_pair call (key, value) =
    if str_eq key "vid"
    then record call { vid = value }
    else if str_eq key "event"
    then record call { event = value }
    else if str_eq key "device"
    then record call { device = value }
    else if str_eq key "k"
    then record call { k = value }
    else if any (λ r. str_eq r key) shelly_reserved
    then call
    else if is_empty value || str_eq value "null"
    then call
    else record call { extras = call.extras ++ ((key, value) ∷ []) }

unfoldable pub take_pairs : ShellyCall → List (String × String) → ShellyCall
unfolding take_pair
take_pairs call [] = call
take_pairs call (p ∷ ps) = take_pairs (take_pair call p) ps

abbrev pub or_text : String → String → String
or_text d s = if is_empty s then d else s

-- `parse_shelly_query` on the decoded pairs.
unfoldable pub parse_shelly_query : List (String × String) → ShellyCall
unfolding take_pairs
parse_shelly_query pairs =
    let call =
      take_pairs (record { vid = ""; event = ""; device = ""; k = ""; extras = [] }) pairs in
    record call {
      event = or_text "sensor alert" call.event;
      device = or_text "unknown" call.device;
    }

pub data ShellyAuth : Type 0 where
  accepted disarmed bad_secret wrong_vehicle : ShellyAuth

-- The bytes of a text: its UTF-8, which the caller's library gives.
module _ (utf8 : String → List ℕ) where
  unfoldable pub classify_shelly_auth : String → String → ShellyCall → ShellyAuth
  unfolding ct_eq
  classify_shelly_auth cfg_vid cfg_secret call =
      if is_empty cfg_secret
      then disarmed
      else if not (ct_eq (utf8 cfg_secret) (utf8 call.k))
      then bad_secret
      else if not (is_empty call.vid) && (not (is_empty cfg_vid) && not (str_eq call.vid cfg_vid))
      then wrong_vehicle
      else accepted

  -- What a report sets going: whether the valves are shut and the call forwarded.
  abbrev pub ShellyAnswer : Type 0
  ShellyAnswer = ℕ × Option (Bool × ShellyCall)

  unfoldable pub answer_auth : ShellyAuth → ShellyCall → ShellyAnswer
  answer_auth accepted call = (200, some (is_flood_shutoff call.event, call))
  answer_auth disarmed call = (401, none)
  answer_auth bad_secret call = (401, none)
  answer_auth wrong_vehicle call = (404, none)

  -- The answer and the report that is handed on. The note that a sensor still to be wired was heard
  -- of is not modelled.
  unfoldable pub h_shelly : String → String → IpAddr → List (String × String) → ShellyAnswer
  unfolding answer_auth classify_shelly_auth parse_shelly_query shelly_peer_plausible
  h_shelly cfg_vid cfg_secret peer pairs =
      let call = parse_shelly_query pairs in
      if not (shelly_peer_plausible peer)
      then (403, none)
      else answer_auth (classify_shelly_auth cfg_vid cfg_secret call) call

-- `linktap_discover::slash24_prefix`, on the bytes of a trimmed text.
unfoldable pub split_dots : List ℕ → List ℕ → List (List ℕ)
split_dots part [] = part ∷ []
split_dots part (c ∷ s) =
    let ended = split_dots [] s in
    let on = split_dots (part ++ (c ∷ [])) s in if c == 46 then part ∷ ended else on

abbrev pub at_most_255 : Option ℕ → Bool
at_most_255 none = false
at_most_255 (some n) = leb n 255

unfoldable pub octet_text : List ℕ → Bool
octet_text p =
    not (blank p) && (all (λ c. leb 48 c && leb c 57) p && at_most_255 (digits_value 0 p))

unfoldable pub prefix_of : List (List ℕ) → Option (List ℕ)
unfolding octet_text
prefix_of [] = none
prefix_of (a ∷ []) = none
prefix_of (a ∷ b ∷ []) = none
prefix_of (a ∷ b ∷ c ∷ []) = none
prefix_of (a ∷ b ∷ c ∷ d ∷ []) =
    if not (octet_text a && (octet_text b && (octet_text c && octet_text d)))
    then none
    else if codes_eq a (codes "127") || codes_eq a (codes "0")
    then none
    else some (a ++ (46 ∷ (b ++ (46 ∷ c))))
prefix_of (a ∷ b ∷ c ∷ d ∷ e ∷ more) = none

unfoldable pub slash24_prefix : List ℕ → Option (List ℕ)
unfolding split_dots prefix_of
slash24_prefix ip = prefix_of (split_dots [] (trim_codes ip))

-- `Ipv4Addr::to_string`.
abbrev pub octets_text : ℕ → ℕ → ℕ → ℕ → List ℕ
octets_text a b c d = digits 4 a ++ (46 ∷ (digits 4 b ++ (46 ∷ (digits 4 c ++ (46 ∷ digits 4 d)))))

abbrev pub opt_codes_eq : Option (List ℕ) → List ℕ → Bool
opt_codes_eq none p = false
opt_codes_eq (some q) p = codes_eq q p

abbrev pub among : Option (List ℕ) → List (List ℕ) → Bool
among none local_ips = false
among (some p) local_ips = any (λ ip. opt_codes_eq (slash24_prefix ip) p) local_ips

unfoldable pub same_slash24 : IpAddr → List (List ℕ) → Bool
unfolding slash24_prefix
same_slash24 (v4 a b c d) local_ips = among (slash24_prefix (octets_text a b c d)) local_ips
same_slash24 (v6 a b c d e f g h) local_ips =
    if is_mapped a b c d e f
    then among (slash24_prefix (octets_text (g / 256) (g % 256) (h / 256) (h % 256))) local_ips
    else false

pub data AdoptRefusal : Type 0 where
  off_network window_closed : AdoptRefusal

-- `ADOPTION_WINDOW` in seconds.
abbrev pub adoption_window : ℕ
adoption_window = 15 * 60

-- `may_set_up`: a refusal, or none.
unfoldable pub may_set_up : IpAddr → List (List ℕ) → ℕ → ℕ → Option AdoptRefusal
unfolding same_slash24
may_set_up peer local_ips uptime window =
    if is_loopback peer
    then none
    else if not (same_slash24 peer local_ips)
    then some off_network
    else if ltb window uptime
    then some window_closed
    else none

pub data SetupRefusal : Type 0 where
  config_damaged : String → SetupRefusal
  already_set_up : SetupRefusal
  adopt_refused : AdoptRefusal → SetupRefusal

abbrev pub setup_status : SetupRefusal → ℕ
setup_status (config_damaged why) = 409
setup_status already_set_up = 409
setup_status (adopt_refused why) = 403

abbrev pub adopt_answer : Option AdoptRefusal → Option SetupRefusal
adopt_answer none = none
adopt_answer (some why) = some (adopt_refused why)

unfoldable pub first_run_only :
    Option String → String → String → IpAddr → List (List ℕ) → ℕ → Option SetupRefusal
unfolding may_set_up
first_run_only (some why) vid token peer local_ips uptime = some (config_damaged why)
first_run_only none vid token peer local_ips uptime =
    if not (is_empty vid) || not (is_empty token)
    then some already_set_up
    else adopt_answer (may_set_up peer local_ips uptime adoption_window)

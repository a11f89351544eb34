-- ===== src/Batch.antt =====
-- daemon/src/batch.rs: the items of a batch, what is cut from them and how they are split into posts.
pub mod Clamp
pub mod Posts
use dock_neighbor_hub.Shared.{
  ℕ, zero, suc, ◌+◌, ◌-◌, ◌/◌, ◌<>◌, min, Bool, true, false, not, ◌&&◌, ◌||◌, Option, none, some,
  String, List, [], ◌∷◌, ◌++◌, if◌then◌else◌, any, keep, take, drop, length, ltb, leb, ◌==◌, str_eq,
  is_empty, decimal, codes, has_prefix,
}
use Prim.Native.Char.{Char, code}
use dock_neighbor_hub.Linktap.{Report}

abbrev pub max_items : ℕ
max_items = 50

abbrev pub max_params : ℕ
max_params = 24

abbrev pub max_value_len : ℕ
max_value_len = 256

abbrev pub max_name_len : ℕ
max_name_len = 64

abbrev pub hub_status_event : String
hub_status_event = "hub.status"

pub record Item : Type 0 where
  pub device : String
  pub event : String
  pub params : List (String × String)

-- The bytes of a character in UTF-8, and of a text: `str::len`.
abbrev pub width : Char → ℕ
width c =
    if ltb (code c) 128
    then 1
    else if ltb (code c) 2048
    then 2
    else if ltb (code c) 65536
    then 3
    else 4

abbrev pub bytes : String → ℕ
bytes String.[] = 0
bytes (String.◌∷◌ c s) = width c + bytes s

-- `str::is_char_boundary`, for an index of bytes.
unfoldable pub is_char_boundary : String → ℕ → Bool
is_char_boundary String.[] n = n == 0
is_char_boundary (String.◌∷◌ c s) n =
    let rest = is_char_boundary s (n - width c) in n == 0 || (leb (width c) n && rest)

-- The characters that start within the first `n` bytes: `s[..n]` at a boundary.
unfoldable pub prefix_bytes : String → ℕ → String
prefix_bytes String.[] n = String.[]
prefix_bytes (String.◌∷◌ c s) n =
    let rest = prefix_bytes s (n - width c) in if n == 0 then String.[] else String.◌∷◌ c rest

-- The loop of `cut`: down to the boundary at or before an index.
unfoldable pub boundary_from : String → ℕ → ℕ
boundary_from s zero = 0
boundary_from s (suc end) =
    let before = boundary_from s end in if is_char_boundary s (suc end) then suc end else before

unfoldable pub cut : String → ℕ → String
cut s max = if leb (bytes s) max then s else prefix_bytes s (boundary_from s max)

-- The value in the first slot of the key, or in a new last slot.
unfoldable pub set_param : String → String → List (String × String) → List (String × String)
set_param k v [] = (k, v) ∷ []
set_param k v ((j, w) ∷ out) = if str_eq j k then (j, v) ∷ out else (j, w) ∷ set_param k v out

unfoldable pub clamp_params :
    List (String × String) → List (String × String) → List (String × String)
clamp_params [] out = out
clamp_params ((k, v) ∷ params) out = clamp_params params (
    if is_empty k || ltb max_name_len (bytes k) || is_empty v
    then out
    else set_param k (cut v max_value_len) out)

unfoldable pub clamp_item : Item → Item × ℕ
clamp_item item =
    let out = clamp_params item.params [] in
    (
      record {
        device = cut item.device max_name_len;
        event = cut item.event max_name_len;
        params = take max_params out;
      },
      length out - max_params,
    )

-- The first item of the event, and the items without it.
unfoldable pub pull_event : String → List Item → Option Item × List Item
pull_event event [] = (none, [])
pull_event event (it ∷ items) =
    let rest = pull_event event items in
    if str_eq it.event event then (some it, items) else (rest.0, it ∷ rest.1)

-- `slice::chunks`: the fuel is the number of items, since every chunk holds one at least.
unfoldable pub chunks {ℓ} : {A : Type ℓ} → ℕ → ℕ → List A → List (List A)
chunks zero n xs = []
chunks (suc fuel) n [] = []
chunks (suc fuel) n (x ∷ xs) = take n (x ∷ xs) ∷ chunks fuel n (drop n (x ∷ xs))

abbrev pub put_first : Option Item → List Item → List Item → List Item
put_first none rest items = items
put_first (some hs) rest items = hs ∷ rest

-- The status item, where there is one, in front of the others.
unfoldable pub status_first : List Item → List Item
status_first items =
    let pulled = pull_event hub_status_event items in put_first pulled.0 pulled.1 items

unfoldable pub split : List Item → List (List Item)
split [] = [] ∷ []
split (it ∷ items) =
    let ordered = status_first (it ∷ items) in chunks (length ordered) max_items ordered

-- `HEARD_AGO_MAX_S`.
abbrev pub heard_ago_max_s : ℕ
heard_ago_max_s = 604800

unfoldable pub heard_ago_s : ℕ → ℕ → ℕ
heard_ago_s now_ms heard_ms = min ((now_ms - heard_ms) / 1000) heard_ago_max_s

-- The shapes of a reply's field that a switch is read from; a number carries its `as_i64`, of which
-- only whether it is zero is used.
pub data Switch : Type 0 where
  boolean : Bool → Switch
  number : Option ℕ → Switch
  other : Switch

-- `relay_up` and `auto_update`, on the field that `get` returned.
unfoldable pub switch_of : Option Switch → Option Bool
switch_of none = none
switch_of (some (boolean b)) = some b
switch_of (some (number none)) = none
switch_of (some (number (some n))) = some (not (n == 0))
switch_of (some other) = none

unfoldable pub should_drop_relay : Option Switch → ℕ → ℕ → Bool
should_drop_relay relay_up gen_before gen_now = elim (switch_of relay_up) [
  | none ↦ false
  | some up ↦ not up && gen_before == gen_now
]

abbrev pub modem_live_only : List String
modem_live_only =
    "rssi" ∷ "rsrp" ∷ "rsrq" ∷ "sinr" ∷ "signal" ∷ "latency" ∷ "ping" ∷ "loss" ∷ "obstruction"
    ∷ "obstructed" ∷ "uptime" ∷ "downMbps" ∷ "upMbps" ∷ "sats" ∷ "gpsFixAgeS" ∷ []

abbrev pub linktap_live_only : List String
linktap_live_only = "signal" ∷ []

unfoldable pub live_only_fields : String → List String
live_only_fields event =
    if str_eq event "modem.measurement"
    then modem_live_only
    else if str_eq event "linktap.measurement"
    then linktap_live_only
    else []

abbrev pub no_fields : List String → Bool
no_fields [] = true
no_fields (k ∷ ks) = false

unfoldable pub for_the_wire : Item → Bool → Item
for_the_wire item leased =
    let live = live_only_fields item.event in
    if leased || no_fields live
    then item
    else record item { params = keep (λ p. not (any (λ k. str_eq k p.0) live)) item.params }

unfoldable pub router_item : String → List (String × String) → ℕ → Item
router_item device params wan_kb_cellular =
    let kept = keep (λ p. not (has_prefix (codes p.0) (codes "wanKb_"))) params in
    record {
      device = device;
      event = "modem.measurement";
      params =
          if ltb 0 wan_kb_cellular
          then kept ++ (("wanKb_cellular", decimal wan_kb_cellular) ∷ [])
          else kept;
    }

unfoldable pub valve_item : String → List (String × String) → Item
valve_item dev_id params = record {
  device = "lt_" <> dev_id;
  event = "linktap.measurement";
  params = params;
}

unfoldable pub from_report : Report → Item
from_report r = record { device = r.device; event = r.event; params = r.params }

unfoldable pub hub_status_item : String → String → String → String → Option String → ℕ → Item
hub_status_item hub_id name ver platform update anchorsig = record {
  device = hub_id;
  event = hub_status_event;
  params =
      ("name", name)
        ∷ ("ver", ver)
        ∷ ("platform", platform)
        ∷ (elim update [ none ↦ [] | some u ↦ if is_empty u then [] else ("update", u) ∷ [] ])
      ++ (("anchorsig", decimal anchorsig) ∷ []);
}

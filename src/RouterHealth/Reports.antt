-- ===== src/RouterHealth/Reports.antt =====
-- What a report about an unreadable router says, and when the hub blames its own network.
use dock_neighbor_hub.Shared.{
  ℕ, ◌≤◌, ◌≡◌, ◌≢◌, refl, sym, ◌∙◌, inl, inr, ap, Bool, true, false, not, ◌&&◌, ◌||◌, List, [], ◌∷◌,
  ◌++◌, Option, none, some, String, arith, leb, if◌then◌else◌, length, length-append, is_empty,
  trim, str_eq, str_eq_iff, str_eq_self, keep, any, Bool-cases,
}
use dock_neighbor_hub.RouterHealth.{
  Params, Sample, up_src, up_src_unread, reason_key, param, after_up, insert_after_up, carried,
  reason_entry, unread_params, sample_of, vendors_seen, common_mode_failure,
}

abbrev or_else : Option String → Option String → Option String
or_else none b = b
or_else (some a) b = some a

param-append :
    (ps qs : Params) (key : String) → param (ps ++ qs) key ≡ or_else (param qs key) (param ps key)
unfolding param
param-append [] qs key = ground arith
param-append ((k, v) ∷ ps) qs key = ground (arith, param-append ps qs key)

param-after_up :
    (ps : Params) (k v key : String) → k ≢ key → param (after_up ps (k, v)) key ≡ param ps key
unfolding param after_up
param-after_up [] k v key n = refl
param-after_up ((k', v') ∷ ps) k v key n =
    ground (arith, param-after_up ps k v key n, str_eq_iff k key)

-- The entry goes in, and nothing else changes.
param-insert_after_up :
    (ps : Params) (k v key : String)
    → k ≢ key
    → param (insert_after_up ps (k, v)) key ≡ param ps key
unfolding insert_after_up param
param-insert_after_up ps k v key n = ground (arith, param-after_up ps k v key n, str_eq_iff k key)

param-keep :
    (f : String → Bool) (ps : Params) (key : String)
    → param (keep (λ p. f p.0) ps) key ≡ (if f key then param ps key else none)
unfolding param
param-keep f [] key = ground arith
param-keep f ((k, v) ∷ ps) key = elim (Bool-cases (str_eq k key)) [
  | inl e ↦
      let e' = (str_eq_iff k key).0 e in
      rw e' (ground (arith, param-keep f ps key, str_eq_self key))
  | inr e ↦ ground (arith, param-keep f ps key)
]

-- Nothing but `reason` is appended.
param-reason_entry :
    (reason : Option String) (key : String)
    → key ≢ reason_key
    → param (reason_entry reason) key ≡ none
unfolding param reason_entry
param-reason_entry none key n = refl
param-reason_entry (some r) key n = ground (arith, str_eq_iff reason_key key)

param-unread_params :
    (last : Option Params) (reason : Option String) (identity : Params) (key : String)
    → key ≢ up_src
    → key ≢ reason_key
    → param (unread_params last reason identity) key ≡ param (carried last identity) key
unfolding unread_params
param-unread_params last reason identity key s r =
    rw (param-append _ (reason_entry reason) key, param-reason_entry reason key r)
      (param-insert_after_up (carried last identity) up_src up_src_unread key (λ e. s (sym e)))

-- A router that could not be read past the grace window is reported as it was last read: every
-- field but `upSrc` and `reason`, its link state with them, is what the last reading had.
pub unread_params-kept :
    (last : Params) (reason : Option String) (identity : Params) (key : String)
    → key ≢ up_src
    → key ≢ reason_key
    → param (unread_params (some last) reason identity) key ≡ param last key
unfolding carried
unread_params-kept last reason identity key s r =
    param-unread_params (some last) reason identity key s r
    ∙ param-keep (λ k. not (str_eq k up_src) && not (str_eq k reason_key)) last key
    ∙ ground (arith, str_eq_iff key up_src, str_eq_iff key reason_key)

-- With no earlier reading the report asserts no link state, whatever the identity holds.
pub unread_params-no_up :
    (reason : Option String) (identity : Params)
    → param (unread_params none reason identity) "up" ≡ none
unfolding carried
unread_params-no_up reason identity =
    param-unread_params none reason identity "up" (ground (arith, str_eq_iff "up" up_src))
      (ground (arith, str_eq_iff "up" reason_key))
    ∙ param-keep (λ k. not (str_eq k "up") && (not (str_eq k up_src) && not (str_eq k reason_key)))
        identity "up"

param-after_up_self :
    (ps : Params) (k v : String)
    → param ps k ≡ none
    → any (λ p. str_eq p.0 "up") ps ≡ true
    → param (after_up ps (k, v)) k ≡ some v
unfolding param after_up
param-after_up_self [] k v n h = cc
param-after_up_self ((k', v') ∷ ps) k v n h =
    ground (arith, param-after_up_self ps k v, str_eq_self k)

param-carried :
    (last : Option Params) (identity : Params) → param (carried last identity) up_src ≡ none
unfolding carried
param-carried none identity =
    param-keep (λ k. not (str_eq k "up") && (not (str_eq k up_src) && not (str_eq k reason_key)))
      identity up_src
param-carried (some l) identity =
    param-keep (λ k. not (str_eq k up_src) && not (str_eq k reason_key)) l up_src

unread_params-up_src :
    (last : Option Params) (reason : Option String) (identity : Params)
    → param (unread_params last reason identity) up_src ≡ some up_src_unread
unfolding unread_params insert_after_up param
unread_params-up_src last reason identity =
    rw
      (
        param-append _ (reason_entry reason) up_src,
        param-reason_entry reason up_src (ground (arith, str_eq_iff up_src reason_key)),
      )
      (ground (
        arith,
        param-carried last identity,
        param-after_up_self (carried last identity) up_src up_src_unread,
        str_eq_self up_src,
      ))

-- A report about an unreadable router is marked so, and folded back in it is no down sample:
-- the hub's own memory never arms the grace machine, whatever the last reading said.
pub unread_params-sample_of :
    (last : Option Params) (reason : Option String) (identity : Params) (measured_ms : Option ℕ)
    → let p = unread_params last reason identity in
      (param p up_src ≡ some up_src_unread) × (sample_of (some p) measured_ms ≡ Sample.up)
unfolding sample_of
unread_params-sample_of last reason identity measured_ms =
    let e = unread_params-up_src last reason identity in (e, rw e)

-- A vendor is named, and another is named that differs from it.
abbrev pub is_named : String → Bool
is_named v = not (is_empty (trim v))

abbrev pub differs_from : String → String → Bool
differs_from v w = is_named w && not (str_eq (trim v) (trim w))

pub two_vendors : List String → Bool
two_vendors [] = false
two_vendors (v ∷ rest) = (is_named v && any (differs_from v) rest) || two_vendors rest

length-vendors_seen : (seen rest : List String) → length seen ≤ length (vendors_seen seen rest)
unfolding vendors_seen
length-vendors_seen seen [] = omega arith
length-vendors_seen seen (w ∷ rest) = ground (
  arith,
  length-vendors_seen seen rest,
  length-vendors_seen (seen ++ (trim w ∷ [])) rest,
  length-append seen (trim w ∷ []),
)

-- With one vendor seen so far, a second is found exactly when a name differs from it.
vendors_seen-one :
    (v : String) (rest : List String)
    → leb 2 (length (vendors_seen (trim v ∷ []) rest)) ≡ any (differs_from v) rest
unfolding vendors_seen
vendors_seen-one v [] = refl
vendors_seen-one v (w ∷ rest) =
    ground (arith, vendors_seen-one v rest, length-vendors_seen (trim v ∷ trim w ∷ []) rest)

two_vendors-none :
    (v : String) (rest : List String) → any (differs_from v) rest ≡ false → two_vendors rest ≡ false
unfolding two_vendors
two_vendors-none v [] h = refl
two_vendors-none v (w ∷ rest) h =
    let same : trim v ≡ trim w → any (differs_from v) rest ≡ any (differs_from w) rest =
      ap (λ t. any (λ x. is_named x && not (str_eq t (trim x))) rest) in
    ground (arith, two_vendors-none v rest, str_eq_iff (trim v) (trim w), same)

-- The hub blames its own network exactly when two of the routers that failed in one pass are of
-- different named vendors, in whatever order they come.
pub common_mode_failure-two_vendors :
    (failed_vendors : List String) → common_mode_failure failed_vendors ≡ two_vendors failed_vendors
unfolding common_mode_failure vendors_seen two_vendors
common_mode_failure-two_vendors [] = refl
common_mode_failure-two_vendors (v ∷ rest) =
    ground (
      arith,
      vendors_seen-one v rest,
      two_vendors-none v rest,
      common_mode_failure-two_vendors rest,
    )

-- ===== src/Access/Doors.antt =====
-- What opens the sensor door and the setup door, and what a sensor's query leaves behind.
use dock_neighbor_hub.Shared.{
  ℕ, ◌≤◌, ◌≡◌, ◌↔◌, ◌⊎◌, ◌∙◌, refl, inl, inr, Bool, true, false, not, ◌&&◌, ◌||◌, Option, none,
  some, String, List, [], ◌∷◌, ◌++◌, if◌then◌else◌, ltb, any, arith, Bool-cases, str_eq, is_empty,
  is_some,
}
use dock_neighbor_hub.GatewayWatch.{is_flood_shutoff}
use dock_neighbor_hub.Spool.{ShellyCall}
use dock_neighbor_hub.Access.{
  IpAddr, is_loopback, same_slash24, may_set_up, first_run_only, adoption_window, AdoptRefusal,
  off_network, window_closed, adopt_answer, shelly_peer_plausible, take_pair, take_pairs,
  parse_shelly_query, shelly_reserved, ShellyAuth, accepted, disarmed, bad_secret, wrong_vehicle,
  classify_shelly_auth, answer_auth, h_shelly, ct_eq, or_text,
}
use dock_neighbor_hub.Access.Bits.{IsBytes, ct_eq_iff}

-- Whether a name of routing or of the secret is among the parameters.
abbrev pub leaks : List (String × String) → Bool
leaks ps = any (λ p. any (λ r. str_eq r p.0) shelly_reserved) ps

leaks-append : (ps qs : List (String × String)) → leaks (ps ++ qs) ≡ (leaks ps || leaks qs)
leaks-append [] qs = refl
leaks-append (p ∷ ps) qs = ground (arith, leaks-append ps qs)

choice_clean :
    (b : Bool) (x y : ShellyCall)
    → leaks x.extras ≡ false
    → (b ≡ false → leaks y.extras ≡ false)
    → leaks (if b then x else y).extras ≡ false
choice_clean true x y hx hy = hx
choice_clean false x y hx hy = hy refl

take_pair_clean :
    (call : ShellyCall) (p : String × String)
    → leaks call.extras ≡ false
    → leaks (take_pair call p).extras ≡ false
unfolding take_pair
take_pair_clean call (key, value) h =
    let added : ShellyCall = record call { extras = call.extras ++ (key, value) ∷ [] } in
    let held : ShellyCall = if is_empty value || str_eq value "null" then call else added in
    let reserved = any (λ r. str_eq r key) shelly_reserved in
    let fifth : ShellyCall = if reserved then call else held in
    let fourth : ShellyCall = if str_eq key "k" then record call { k = value } else fifth in
    let third : ShellyCall =
      if str_eq key "device" then record call { device = value } else fourth in
    let second : ShellyCall = if str_eq key "event" then record call { event = value } else third in
    choice_clean (str_eq key "vid") (record call { vid = value }) second h
      (λ _.
        choice_clean (str_eq key "event") (record call { event = value }) third h
          (λ _.
            choice_clean (str_eq key "device") (record call { device = value }) fourth h
              (λ _.
                choice_clean (str_eq key "k") (record call { k = value }) fifth h
                  (λ _. choice_clean reserved call held h (λ free.
                    choice_clean (is_empty value || str_eq value "null") call added h
                      (λ _. leaks-append call.extras ((key, value) ∷ []) ∙ rw (h, free) refl))))))

take_pairs_clean :
    (ps : List (String × String)) (call : ShellyCall)
    → leaks call.extras ≡ false
    → leaks (take_pairs call ps).extras ≡ false
unfolding take_pairs
take_pairs_clean [] call h = h
take_pairs_clean (p ∷ ps) call h = take_pairs_clean ps (take_pair call p) (take_pair_clean call p h)

or_text_some : (d s : String) → is_empty d ≡ false → is_empty (or_text d s) ≡ false
or_text_some d s h = ground (arith, h)

-- Whatever a sensor's query holds, the secret and the routing names are not among the parameters that
-- are passed on, and the event and the device are never empty.
pub parse_shelly_query-clean :
    (pairs : List (String × String))
    → (let call = parse_shelly_query pairs in
        (leaks call.extras ≡ false)
        × (is_empty call.event ≡ false)
        × (is_empty call.device ≡ false))
unfolding parse_shelly_query
parse_shelly_query-clean pairs =
    let fresh : ShellyCall = record { vid = ""; event = ""; device = ""; k = ""; extras = [] } in
    let call = take_pairs fresh pairs in
    (
      take_pairs_clean pairs fresh refl,
      or_text_some "sensor alert" call.event refl,
      or_text_some "unknown" call.device refl,
    )

may_set_up-opens :
    (peer : IpAddr) (ips : List (List ℕ)) (uptime : ℕ)
    → (may_set_up peer ips uptime adoption_window ≡ none)
      ↔ ((is_loopback peer ≡ true) ⊎ ((same_slash24 peer ips ≡ true) × (uptime ≤ adoption_window)))
unfolding may_set_up
may_set_up-opens peer ips uptime = at (is_loopback peer) (same_slash24 peer ips)
  where
    at :
        (l s : Bool)
        → ((if l
              then none
              else if not s
              then some off_network
              else if ltb adoption_window uptime
              then some window_closed
              else none)
            ≡ none)
          ↔ ((l ≡ true) ⊎ ((s ≡ true) × (uptime ≤ adoption_window)))
    at l s = ground arith

adopt_answer-none : (o : Option AdoptRefusal) → (adopt_answer o ≡ none) ↔ (o ≡ none)
adopt_answer-none none = (λ h. refl, λ h. refl)
adopt_answer-none (some why) = (λ h. ground (arith, h), λ h. ground (arith, h))

-- The hub can be set up exactly when its configuration is sound, it belongs to no vehicle and holds
-- no token, and the caller is this machine itself, or shares a /24 with it within fifteen minutes of
-- the start.
pub first_run_only-opens :
    (damage : Option String) (vid token : String) (peer : IpAddr) (ips : List (List ℕ)) (uptime : ℕ)
    → (first_run_only damage vid token peer ips uptime ≡ none) ↔ (
        (damage ≡ none)
        × (is_empty vid ≡ true)
        × (is_empty token ≡ true)
        × ((is_loopback peer ≡ true)
            ⊎ ((same_slash24 peer ips ≡ true) × (uptime ≤ adoption_window))))
unfolding first_run_only
first_run_only-opens none vid token peer ips uptime =
    let m = may_set_up-opens peer ips uptime in
    let a = adopt_answer-none (may_set_up peer ips uptime adoption_window) in
    elim (Bool-cases (not (is_empty vid) || not (is_empty token))) [
      | inl e ↦ rw e (ground (arith, e))
      | inr e ↦
          let v : is_empty vid ≡ true = ground (arith, e) in
          let t : is_empty token ≡ true = ground (arith, e) in
          rw e (λ h. (refl, v, t, m.0 (a.0 h)), λ p. a.1 (m.1 p.3))
    ]
first_run_only-opens (some why) vid token peer ips uptime = ground arith

module _ (utf8 : String → List ℕ) where
  answer_auth-acts :
      (a : ShellyAuth) (call : ShellyCall)
      → ((is_some (answer_auth utf8 a call).1 ≡ true) ↔ (a ≡ accepted))
        × (is_some (answer_auth utf8 a call).1 ≡ true
            → answer_auth utf8 a call ≡ (200, some (is_flood_shutoff call.event, call)))
  unfolding answer_auth
  answer_auth-acts accepted call = ((λ h. refl, λ h. refl), λ h. refl)
  answer_auth-acts disarmed call =
      ((λ h. ground (arith, h), λ h. ground (arith, h)), λ h. ground (arith, h))
  answer_auth-acts bad_secret call =
      ((λ h. ground (arith, h), λ h. ground (arith, h)), λ h. ground (arith, h))
  answer_auth-acts wrong_vehicle call =
      ((λ h. ground (arith, h), λ h. ground (arith, h)), λ h. ground (arith, h))

  classify_shelly_auth-accepts :
      (cfg_vid cfg_secret : String) (call : ShellyCall)
      → (classify_shelly_auth utf8 cfg_vid cfg_secret call ≡ accepted) ↔ (
          (is_empty cfg_secret ≡ false)
          × (ct_eq (utf8 cfg_secret) (utf8 call.k) ≡ true)
          × ((is_empty call.vid || (is_empty cfg_vid || str_eq call.vid cfg_vid)) ≡ true))
  unfolding classify_shelly_auth
  classify_shelly_auth-accepts cfg_vid cfg_secret call =
      at (is_empty cfg_secret) (ct_eq (utf8 cfg_secret) (utf8 call.k)) (is_empty call.vid)
        (is_empty cfg_vid) (str_eq call.vid cfg_vid)
    where
      at :
          (e k v c s : Bool)
          → ((if e
                then disarmed
                else if not k
                then bad_secret
                else if not v && (not c && not s)
                then wrong_vehicle
                else accepted)
              ≡ accepted)
            ↔ ((e ≡ false) × (k ≡ true) × ((v || (c || s)) ≡ true))
      at e k v c s = ground arith

  -- A sensor's report sets something going exactly when it comes from a plausible network, the hub
  -- has a secret, the report carries that secret and names no other vehicle; then it is answered with
  -- 200, forwarded, and shuts the valves exactly when its event is a flood. The bytes of a text are
  -- taken to be bytes.
  pub h_shelly-acts :
      (bytes : (s : String) → IsBytes (utf8 s))
      → (cfg_vid cfg_secret : String) (peer : IpAddr) (pairs : List (String × String))
      → (let call = parse_shelly_query pairs in
          let answer = h_shelly utf8 cfg_vid cfg_secret peer pairs in
          ((is_some answer.1 ≡ true) ↔ (
            (shelly_peer_plausible peer ≡ true)
            × (is_empty cfg_secret ≡ false)
            × (utf8 cfg_secret ≡ utf8 call.k)
            × ((is_empty call.vid || (is_empty cfg_vid || str_eq call.vid cfg_vid)) ≡ true)))
          × (is_some answer.1 ≡ true → answer ≡ (200, some (is_flood_shutoff call.event, call))))
  unfolding h_shelly
  h_shelly-acts bytes cfg_vid cfg_secret peer pairs =
      let call = parse_shelly_query pairs in
      let c = ct_eq_iff (utf8 cfg_secret) (utf8 call.k) (bytes cfg_secret) (bytes call.k) in
      let auth = classify_shelly_auth utf8 cfg_vid cfg_secret call in
      let k = classify_shelly_auth-accepts cfg_vid cfg_secret call in
      let a = answer_auth-acts auth call in
      elim (Bool-cases (shelly_peer_plausible peer)) [
        | inl e ↦ rw e (
          (
            λ h. let q = k.0 (a.0.0 h) in (refl, q.0, c.0 q.1, q.2),
            λ p. a.0.1 (k.1 (p.1, c.1 p.2, p.3)),
          ),
          a.1,
        )
        | inr e ↦ rw e (
          (λ h. ground (arith, h), λ p. let n = p.0 in ground (arith, n)),
          λ h. ground (arith, h),
        )
      ]

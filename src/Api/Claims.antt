-- ===== src/Api/Claims.antt =====
-- Who a hub is signed to, over any run of setup calls.
use dock_neighbor_hub.Shared.{
  false, if◌then◌else◌, suc, ◌+◌, ◌&&◌, ℕ, ◌≡◌, ◌∙◌, refl, ap, inl, inr, Bool, true, not, ◌||◌,
  Option, none, some, List, [], ◌∷◌, String, arith, Bool-cases, Option-cases, is_some, is_empty,
  length, ◌≤◌,
}
use dock_neighbor_hub.Access.{IpAddr, first_run_only}
use dock_neighbor_hub.Access.Doors.{first_run_only-opens}
use dock_neighbor_hub.Store.{
  ConfigState, missing, parsed, damaged, HubConfig, config_damage, read_config, write_config,
  with_hub_id,
}
use dock_neighbor_hub.Api.{World, Rt, Outcome, fine, failed, reading}
use dock_neighbor_hub.Api.Setup.{
  BootstrapReq, bootstrapped, bootstrap_refusal, written, door, h_identity, h_bootstrap,
}

-- A setup call, with what the world answers, the file as its door saw it, the peer and the service's
-- age.
pub data SetupCall : Type 0 where
  identity : World → ConfigState → IpAddr → ℕ → SetupCall
  bootstrap : World → ConfigState → IpAddr → ℕ → Outcome BootstrapReq → SetupCall

-- The vehicle and the token that the hub holds.
abbrev pub owner_of : ConfigState → String × String
owner_of file = ((read_config file).vid, (read_config file).token)

abbrev pub is_claimed : String × String → Bool
is_claimed o = not (is_empty o.0) || not (is_empty o.1)

-- The request of a bootstrap that was answered as done.
abbrev pub claim_of : Outcome BootstrapReq → Option String → Option BootstrapReq
claim_of (fine req) none = some req
claim_of (fine req) (some e) = none
claim_of (failed e) r = none

-- The owner after a call that may have claimed the hub.
abbrev pub owner_after : Option BootstrapReq → String × String → String × String
owner_after none o = o
owner_after (some req) o = (req.vid, req.token)

-- The owner after some claims.
abbrev pub owner_of_last : List BootstrapReq → String × String → String × String
owner_of_last [] o = o
owner_of_last (req ∷ reqs) o = owner_of_last reqs (req.vid, req.token)

claim_of_fine :
    (r req : BootstrapReq) (e : Option String) → claim_of (fine r) e ≡ some req → r ≡ req
claim_of_fine r req none h = cc
claim_of_fine r req (some e) h = cc

bootstrap_refusal-none :
    (req : BootstrapReq) → bootstrap_refusal req ≡ none → is_claimed (req.vid, req.token) ≡ true
unfolding bootstrap_refusal
bootstrap_refusal-none req h = ground (arith, h)

with_hub_id-owner :
    (cfg : HubConfig) (minted : String)
    → ((with_hub_id cfg minted).0.vid ≡ cfg.vid) × ((with_hub_id cfg minted).0.token ≡ cfg.token)
unfolding with_hub_id
with_hub_id-owner cfg minted = ground arith

door_claimed :
    (w : World) (seen : ConfigState) (peer : IpAddr) (uptime : ℕ)
    → is_claimed (owner_of seen) ≡ true
    → is_some (door w seen peer uptime) ≡ true
unfolding door
door_claimed w seen peer uptime h =
    let cfg = read_config seen in
    let d = first_run_only (config_damage seen) cfg.vid cfg.token peer w.local_ips uptime in
    elim (Option-cases d) [
      | inr (why, e) ↦ rw e refl
      | inl e ↦
          let o =
            (first_run_only-opens (config_damage seen) cfg.vid cfg.token peer w.local_ips uptime).0
              e in
          let v = o.1 in let t = o.2 in ground (arith, h, v, t)
    ]

module _ {V : Type 0} where
  abbrev pub setup : SetupCall → Rt V → Rt V
  setup (identity w seen peer uptime) rt = (h_identity w seen rt peer uptime).0
  setup (bootstrap w seen peer uptime body) rt = (h_bootstrap w seen rt peer uptime body).0

  abbrev pub claim : SetupCall → Rt V → Option BootstrapReq
  claim (identity w seen peer uptime) rt = none
  claim (bootstrap w seen peer uptime body) rt =
      claim_of body (h_bootstrap w seen rt peer uptime body).1.error

  -- A run of calls, the oldest first, and the claims in it.
  unfoldable pub setups : List SetupCall → Rt V → Rt V
  setups [] rt = rt
  setups (c ∷ cs) rt = setups cs (setup c rt)

  unfoldable pub claims : List SetupCall → Rt V → List BootstrapReq
  claims [] rt = []
  claims (c ∷ cs) rt =
      let rest = claims cs (setup c rt) in elim (claim c rt) [ some req ↦ req ∷ rest | none ↦ rest ]

  bootstrap_claimed :
      (w : World) (seen : ConfigState) (rt : Rt V) (peer : IpAddr) (uptime : ℕ)
      (body : Outcome BootstrapReq)
      → is_claimed (owner_of seen) ≡ true
      → claim_of body (h_bootstrap w seen rt peer uptime body).1.error ≡ none
  unfolding h_bootstrap
  bootstrap_claimed w seen rt peer uptime (failed e) h = refl
  bootstrap_claimed w seen rt peer uptime (fine req) h =
      let d = door_claimed w seen peer uptime h in
      elim (Option-cases (door w seen peer uptime)) [
        | inr (why, e) ↦ rw (e, h_bootstrap) refl
        | inl e ↦ cc
      ]

  -- The owner after a store that may claim the hub, and after one that may not.
  stored_claim :
      (rt : Rt V) (io : Option String) (file : ConfigState) (cfg : HubConfig) (req : BootstrapReq)
      → cfg.vid ≡ req.vid
      → cfg.token ≡ req.token
      → (let r = written rt (write_config io file cfg) in
          owner_of r.0.file ≡ owner_after (claim_of (fine req) r.1.error) (owner_of file))
  unfolding write_config read_config
  stored_claim rt none missing cfg req v t = ground (arith, v, t)
  stored_claim rt (some e) missing cfg req v t = refl
  stored_claim rt none (parsed old) cfg req v t = ground (arith, v, t)
  stored_claim rt (some e) (parsed old) cfg req v t = refl
  stored_claim rt io (damaged why) cfg req v t = refl

  stored_same :
      (rt : Rt V) (io : Option String) (file : ConfigState) (cfg : HubConfig)
      → cfg.vid ≡ (read_config file).vid
      → cfg.token ≡ (read_config file).token
      → owner_of (written rt (write_config io file cfg)).0.file ≡ owner_of file
  unfolding write_config read_config
  stored_same rt none missing cfg v t = ground (arith, v, t)
  stored_same rt (some e) missing cfg v t = refl
  stored_same rt none (parsed old) cfg v t = ground (arith, v, t)
  stored_same rt (some e) (parsed old) cfg v t = refl
  stored_same rt io (damaged why) cfg v t = refl

  h_identity-owner :
      (w : World) (seen : ConfigState) (rt : Rt V) (peer : IpAddr) (uptime : ℕ)
      → owner_of (h_identity w seen rt peer uptime).0.file ≡ owner_of rt.file
  unfolding h_identity
  h_identity-owner w seen rt peer uptime =
      let cfg = read_config rt.file in
      let kept = with_hub_id-owner cfg w.minted in
      elim (Option-cases (door w seen peer uptime)) [
        | inr (why, e) ↦ rw (e, h_identity) refl
        | inl e ↦
            rw (e, h_identity)
              (elim (Bool-cases (with_hub_id cfg w.minted).1) [
                | inl c ↦
                    rw c
                      (stored_same rt w.write_io rt.file (with_hub_id cfg w.minted).0 kept.0 kept.1)
                | inr c ↦ rw c refl
              ])
      ]

  h_bootstrap-owner :
      (w : World) (seen : ConfigState) (rt : Rt V) (peer : IpAddr) (uptime : ℕ)
      (body : Outcome BootstrapReq)
      → owner_of (h_bootstrap w seen rt peer uptime body).0.file
        ≡ owner_after
            (claim_of body (h_bootstrap w seen rt peer uptime body).1.error)
            (owner_of rt.file)
  unfolding h_bootstrap bootstrapped
  h_bootstrap-owner w seen rt peer uptime (failed x) =
      elim (Option-cases (door w seen peer uptime)) [
        | inr (why, e) ↦ rw (e, h_bootstrap) refl
        | inl e ↦ rw (e, h_bootstrap) refl
      ]
  h_bootstrap-owner w seen rt peer uptime (fine req) =
      elim (Option-cases (door w seen peer uptime)) [
        | inr (why, e) ↦ rw (e, h_bootstrap) refl
        | inl e ↦
            rw (e, h_bootstrap)
              (elim (Option-cases (bootstrap_refusal req)) [
                | inr (why, q) ↦ rw (q, reading) refl
                | inl q ↦
                    rw (q, reading)
                      (stored_claim rt w.write_io rt.file
                        (bootstrapped req w.minted (read_config rt.file)) req refl refl)
              ])
      ]

  setup-owner :
      (c : SetupCall) (rt : Rt V)
      → owner_of (setup c rt).file ≡ owner_after (claim c rt) (owner_of rt.file)
  setup-owner (identity w seen peer uptime) rt = h_identity-owner w seen rt peer uptime
  setup-owner (bootstrap w seen peer uptime body) rt = h_bootstrap-owner w seen rt peer uptime body

  bootstrap_claims :
      (w : World) (seen : ConfigState) (rt : Rt V) (peer : IpAddr) (uptime : ℕ)
      (body : Outcome BootstrapReq) (req : BootstrapReq)
      → claim_of body (h_bootstrap w seen rt peer uptime body).1.error ≡ some req
      → is_claimed (req.vid, req.token) ≡ true
  unfolding h_bootstrap
  bootstrap_claims w seen rt peer uptime (failed x) req h = cc
  bootstrap_claims w seen rt peer uptime (fine r) req h =
      elim (Option-cases (door w seen peer uptime)) [
        | inr (why, e) ↦ let k = rw (e, h_bootstrap) at h in cc
        | inl e ↦ elim (Option-cases (bootstrap_refusal r)) [
          | inr (why, q) ↦ let k = rw (e, h_bootstrap, q, reading) at h in cc
          | inl q ↦
              let same : r ≡ req =
                claim_of_fine r req (h_bootstrap w seen rt peer uptime (fine r)).1.error h in
              rw (← same) (bootstrap_refusal-none r q)
        ]
      ]

  claim-claimed :
      (c : SetupCall) (rt : Rt V) (req : BootstrapReq)
      → claim c rt ≡ some req
      → is_claimed (req.vid, req.token) ≡ true
  claim-claimed (identity w seen peer uptime) rt req h = cc
  claim-claimed (bootstrap w seen peer uptime body) rt req h =
      bootstrap_claims w seen rt peer uptime body req h

  -- The hub was claimed after the call had passed the door.
  abbrev pub is_late : SetupCall → Rt V → Bool
  is_late (identity w seen peer uptime) rt = false
  is_late (bootstrap w seen peer uptime body) rt =
      is_claimed (owner_of rt.file) && not (is_claimed (owner_of seen))

  unfoldable pub late_calls : List SetupCall → Rt V → ℕ
  late_calls [] rt = 0
  late_calls (c ∷ cs) rt =
      let rest = late_calls cs (setup c rt) in if is_late c rt then suc rest else rest

  claim-is_late :
      (c : SetupCall) (rt : Rt V) (req : BootstrapReq)
      → is_claimed (owner_of rt.file) ≡ true
      → claim c rt ≡ some req
      → is_late c rt ≡ true
  claim-is_late (identity w seen peer uptime) rt req h k = cc
  claim-is_late (bootstrap w seen peer uptime body) rt req h k =
      elim (Bool-cases (is_claimed (owner_of seen))) [
        | inl e ↦ let no = bootstrap_claimed w seen rt peer uptime body e in cc
        | inr e ↦ rw (h, e) refl
      ]

  setup-owned :
      (c : SetupCall) (rt : Rt V)
      → is_claimed (owner_of rt.file) ≡ true
      → is_claimed (owner_of (setup c rt).file) ≡ true
  setup-owned c rt h = elim (Option-cases (claim c rt)) [
    | inl e ↦ ap is_claimed (setup-owner c rt ∙ ap (λ q. owner_after q (owner_of rt.file)) e) ∙ h
    | inr (req, e) ↦
        ap is_claimed (setup-owner c rt ∙ ap (λ q. owner_after q (owner_of rt.file)) e)
        ∙ claim-claimed c rt req e
  ]

  -- Once the hub is claimed, only late calls claim it again.
  setups_claimed :
      (cs : List SetupCall) (rt : Rt V)
      → is_claimed (owner_of rt.file) ≡ true
      → length (claims cs rt) ≤ late_calls cs rt
  unfolding claims late_calls
  setups_claimed [] rt h = omega arith
  setups_claimed (c ∷ cs) rt h =
      let ih = setups_claimed cs (setup c rt) (setup-owned c rt h) in
      elim (Option-cases (claim c rt)) [
        | inl e ↦ rw (e, claims) (ground (arith, ih))
        | inr (req, e) ↦ rw (e, claims, claim-is_late c rt req h e) (omega (arith, ih))
      ]

  setups_bound : (cs : List SetupCall) (rt : Rt V) → length (claims cs rt) ≤ 1 + late_calls cs rt
  unfolding claims late_calls
  setups_bound [] rt = omega arith
  setups_bound (c ∷ cs) rt = elim (Option-cases (claim c rt)) [
    | inl e ↦ let ih = setups_bound cs (setup c rt) in rw (e, claims) (ground (arith, ih))
    | inr (req, e) ↦
        let o = ap is_claimed (setup-owner c rt ∙ ap (λ q. owner_after q (owner_of rt.file)) e) in
        let k = setups_claimed cs (setup c rt) (o ∙ claim-claimed c rt req e) in
        rw (e, claims) (ground (arith, k))
  ]

  setups_owner :
      (cs : List SetupCall) (rt : Rt V)
      → owner_of (setups cs rt).file ≡ owner_of_last (claims cs rt) (owner_of rt.file)
  unfolding setups claims
  setups_owner [] rt = refl
  setups_owner (c ∷ cs) rt =
      let ih = setups_owner cs (setup c rt) in
      elim (Option-cases (claim c rt)) [
        | inl e ↦
            let o : owner_of (setup c rt).file ≡ owner_of rt.file =
              setup-owner c rt ∙ ap (λ q. owner_after q (owner_of rt.file)) e in
            rw (e, claims) (ih ∙ ap (owner_of_last (claims cs (setup c rt))) o)
        | inr (req, e) ↦
            let o : owner_of (setup c rt).file ≡ (req.vid, req.token) =
              setup-owner c rt ∙ ap (λ q. owner_after q (owner_of rt.file)) e in
            rw (e, claims) (ih ∙ ap (owner_of_last (claims cs (setup c rt))) o)
      ]

  -- Over any run of setup calls, also of calls that overlap, the claims are at most one more than
  -- the bootstraps whose door saw the hub unclaimed though it was claimed when they took the lock;
  -- so at most one where there is no such call. The hub's vehicle and token are those of the last
  -- claim, or the ones it had where there is none.
  pub setups-claims :
      (cs : List SetupCall) (rt : Rt V)
      → (length (claims cs rt) ≤ 1 + late_calls cs rt)
        × (owner_of (setups cs rt).file ≡ owner_of_last (claims cs rt) (owner_of rt.file))
  setups-claims cs rt = (setups_bound cs rt, setups_owner cs rt)

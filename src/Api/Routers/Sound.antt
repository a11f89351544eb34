-- ===== src/Api/Routers/Sound.antt =====
-- What a call on routers may store: routers with different ids, and no sign-in that was not proved.
use dock_neighbor_hub.Shared.{
  [], str_eq_iff, ◌∙◌, ◌∷◌, sym, ◌≡◌, ◌⊎◌, ap, inl, inr, Bool-cases, refl, Bool, true, false,
  Option, none, some, List, String, arith, str_eq,
}
use dock_neighbor_hub.Store.{
  ConfigState, missing, parsed, damaged, HubConfig, RouterConfig, write_config, read_config,
}
use dock_neighbor_hub.Api.{Answer, World, Rt, Outcome, fine, failed, store}
use dock_neighbor_hub.Api.Guards.{Ends}
use dock_neighbor_hub.Api.Routers.{
  target_of, find_router, put_router, edit_router, drop_router, named,
}
use dock_neighbor_hub.Api.Routers.Lookup.{
  Distinct, find-put, find-drop, find-edit, put-Distinct, drop-Distinct, edit-Distinct,
}

abbrev pub accepts : {A : Type 0} → Outcome A → Bool
accepts (fine a) = true
accepts (failed e) = false

-- The router with another sign-in.
abbrev pub signed_in : RouterConfig → String → String → RouterConfig
signed_in r user pw = record r { username = user; password = pw }

-- A router's target is one that answered to its sign-in during the call, or that of the router of
-- its id before the write, but for a sign-in to which the router of that id answered as the call
-- found it.
abbrev pub Proved : World → List RouterConfig → List RouterConfig → String → RouterConfig → Type 0
Proved w seen old id r =
    (accepts (w.router (target_of r)).probe ≡ true)
    ⊎ ((q : RouterConfig) × (find_router id old ≡ some q)
        × ((target_of r ≡ target_of q)
            ⊎ ((p : RouterConfig) × (find_router id seen ≡ some p)
                × (accepts (w.router (target_of (signed_in p r.username r.password))).probe ≡ true)
                × (target_of r ≡ target_of (signed_in q r.username r.password)))))

-- Different ids stay different, and every sign-in that a lookup finds is an old or a proved one.
abbrev pub Sound : World → List RouterConfig → List RouterConfig → List RouterConfig → Type 0
Sound w seen old new =
    (Distinct old → Distinct new)
    × ((id : String) (r : RouterConfig) → find_router id new ≡ some r → Proved w seen old id r)

-- A call leaves the file, or stores it with other routers and nothing else changed.
abbrev pub Writes : {V : Type 0} → World → List RouterConfig → ConfigState → Rt V × Answer → Type 0
Writes w seen file r =
    (r.0.file ≡ file)
    ⊎ ((rs : List RouterConfig) × (r.0.file ≡ parsed (record (read_config file) { routers = rs }))
        × Sound w seen (read_config file).routers rs)

find_router-id :
    (k : String) (rs : List RouterConfig) (r : RouterConfig) → find_router k rs ≡ some r → r.id ≡ k
unfolding find_router
find_router-id k [] r h = cc
find_router-id k (x ∷ rs) r h = elim (Bool-cases (str_eq x.id k)) [
  | inl e ↦ let same : x ≡ r = ground (arith, h, e) in rw (← same) ((str_eq_iff x.id k).0 e)
  | inr e ↦ find_router-id k rs r (ground (arith, h, e))
]

write_cases :
    (io : Option String) (file : ConfigState) (cfg : HubConfig)
    → (write_config io file cfg ≡ (parsed cfg, none))
      ⊎ ((e : String) × (write_config io file cfg ≡ (file, some e)))
unfolding write_config
write_cases none missing cfg = inl refl
write_cases (some e) missing cfg = inr (e, refl)
write_cases none (parsed old) cfg = inl refl
write_cases (some e) (parsed old) cfg = inr (e, refl)
write_cases io (damaged why) cfg = inr (_, refl)

pub put-Sound :
    (w : World) (seen old : List RouterConfig) (r : RouterConfig)
    → accepts (w.router (target_of r)).probe ≡ true
    → Sound w seen old (put_router r old)
put-Sound w seen old r h = (
  put-Distinct r old,
  λ id q found. elim (Bool-cases (str_eq r.id id)) [
    | inl e ↦ let same : r ≡ q = ground (arith, find-put id r old, found, e) in inl (rw (← same) h)
    | inr e ↦
        let there : find_router id old ≡ some q = ground (arith, find-put id r old, found, e) in
        inr (q, there, inl refl)
  ],
)

pub drop-Sound :
    (w : World) (seen old : List RouterConfig) (id : String) → Sound w seen old (drop_router id old)
drop-Sound w seen old id = (
  drop-Distinct id old,
  λ k q found.
      let there : find_router k old ≡ some q = ground (arith, find-drop k id old, found) in
      inr (q, there, inl refl),
)

pub gps-Sound :
    (w : World) (seen old : List RouterConfig) (id : String) (on : Bool) (dev : String)
    → Sound w seen old (edit_router id (λ x. record x { gps_enabled = on; gps_dev_id = dev }) old)
gps-Sound w seen old id on dev =
    let change : RouterConfig → RouterConfig =
      λ x. record x { gps_enabled = on; gps_dev_id = dev } in
    (
      edit-Distinct id change (λ x. refl) old,
      λ k q found. elim (find-edit id change (λ x. refl) k old q found) [
        | inl there ↦ inr (q, there, inl refl)
        | inr (x, there, at, same) ↦ inr (x, there, inl (ap target_of same))
      ],
    )

pub password-Sound :
    (w : World) (seen old : List RouterConfig) (id user pw : String) (r : RouterConfig)
    → find_router id seen ≡ some r
    → accepts (w.router (target_of (record r { username = user; password = pw }))).probe ≡ true
    → Sound w seen old (edit_router id (λ x. record x { username = user; password = pw }) old)
password-Sound w seen old id user pw r at_r h =
    let change : RouterConfig → RouterConfig = λ x. record x { username = user; password = pw } in
    (
      edit-Distinct id change (λ x. refl) old,
      λ k q found. elim (find-edit id change (λ x. refl) k old q found) [
        | inl there ↦ inr (q, there, inl refl)
        | inr (x, there, at_x, same) ↦
            let one : id ≡ k = sym (find_router-id id old x at_x) ∙ find_router-id k old x there in
            inr (x, there, inr (r, rw (← one) at_r, rw same h, rw same refl))
      ],
    )

pub named-target :
    (model : Option String) (r : RouterConfig) → target_of (named model r) ≡ target_of r
named-target model r = ground arith

module _ {V : Type 0} where
  pub store-Writes :
      (w : World) (seen : List RouterConfig) (file : ConfigState) (rt : Rt V)
      (rs : List RouterConfig) (rest : Rt V → Rt V × Answer)
      → Ends rest
      → Sound w seen (read_config file).routers rs
      → rt.file ≡ file
      → Writes w seen file (store w rt (record (read_config file) { routers = rs }) rest)
  store-Writes w seen file rt rs rest ends s at =
      let cfg : HubConfig = record (read_config file) { routers = rs } in
      elim (write_cases w.write_io rt.file cfg) [
        | inl e ↦ rw e (inr (rs, (ends _).0, s))
        | inr (why, e) ↦ rw e (inl at)
      ]

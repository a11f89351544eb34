-- ===== src/Api/Guards.antt =====
-- When the hub's file changes: never by a refused call, and never where it could not be read.
use dock_neighbor_hub.Shared.{
  ◌≡◌, refl, subst, inl, inr, Bool, true, false, not, Option, none, some, String, Bool-cases,
  Option-cases, is_some, is_empty, if◌then◌else◌,
}
use dock_neighbor_hub.Access.{may_administer}
use dock_neighbor_hub.Store.{
  ConfigState, HubConfig, missing, parsed, damaged, write_config, clear_config, read_config,
}
use dock_neighbor_hub.Api.{
  Caller, Answer, World, Rt, Outcome, fine, failed, store, saved, reading, ConfigReq, GpsReq,
}
use dock_neighbor_hub.Api.Settings.{
  config_refusal, configured, do_config, do_token, do_gps, do_clear, apply_web_ui_switch, switch_if,
}

abbrev pub is_damaged : ConfigState → Bool
is_damaged missing = false
is_damaged (parsed cfg) = false
is_damaged (damaged why) = true

-- What a call from a file leaves: the file itself, if the call is refused or the file is damaged.
abbrev pub Guarded : {V : Type 0} → ConfigState → Rt V × Answer → Type 0
Guarded file r =
    (is_some r.1.error ≡ true → r.0.file ≡ file) × (is_damaged file ≡ true → r.0.file ≡ file)

-- The rest of a call after a write, which is good and leaves the file alone.
abbrev pub Ends : {V : Type 0} → (Rt V → Rt V × Answer) → Type 0
Ends {V} rest = (s : Rt V) → ((rest s).0.file ≡ s.file) × (is_some (rest s).1.error ≡ false)

write_guard :
    (io : Option String) (file : ConfigState) (cfg : HubConfig)
    → (is_some (write_config io file cfg).1 ≡ true → (write_config io file cfg).0 ≡ file)
      × (is_damaged file ≡ true → is_some (write_config io file cfg).1 ≡ true)
unfolding write_config
write_guard none missing cfg = (λ h. cc, λ h. cc)
write_guard (some e) missing cfg = (λ h. refl, λ h. refl)
write_guard none (parsed old) cfg = (λ h. cc, λ h. cc)
write_guard (some e) (parsed old) cfg = (λ h. refl, λ h. refl)
write_guard io (damaged why) cfg = (λ h. refl, λ h. refl)

module _ {V : Type 0} where
  pub same_Guarded : (file : ConfigState) (r : Rt V × Answer) → r.0.file ≡ file → Guarded file r
  same_Guarded file r h = (λ e. h, λ d. h)

  saved-Guarded :
      (rt : Rt V) (file : ConfigState) (r : ConfigState × Option String)
      (rest : Rt V → Rt V × Answer)
      → (is_some r.1 ≡ true → r.0 ≡ file)
      → (is_damaged file ≡ true → is_some r.1 ≡ true)
      → Ends rest
      → Guarded file (saved rt r rest)
  saved-Guarded rt file (f, none) rest h d ends =
      let s = record rt { file = f } in let quiet = (ends s).1 in (λ e. cc, λ e. let b = d e in cc)
  saved-Guarded rt file (f, some e) rest h d ends = (λ k. h refl, λ k. h refl)

  pub store-Guarded :
      (w : World) (rt : Rt V) (cfg : HubConfig) (rest : Rt V → Rt V × Answer)
      → Ends rest
      → Guarded rt.file (store w rt cfg rest)
  store-Guarded w rt cfg rest h =
      let g = write_guard w.write_io rt.file cfg in
      saved-Guarded rt rt.file (write_config w.write_io rt.file cfg) rest g.0 g.1 h

  pub store_at-Guarded :
      (file : ConfigState) (w : World) (rt : Rt V) (cfg : HubConfig) (rest : Rt V → Rt V × Answer)
      → rt.file ≡ file
      → Ends rest
      → Guarded file (store w rt cfg rest)
  store_at-Guarded file w rt cfg rest e h =
      subst (λ f. Guarded f (store w rt cfg rest)) e (store-Guarded w rt cfg rest h)

  pub reading-Guarded :
      {A : Type 0} (rt : Rt V) (body : Outcome A) (rest : A → Rt V × Answer)
      → ((a : A) → Guarded rt.file (rest a))
      → Guarded rt.file (reading rt body rest)
  reading-Guarded rt (fine a) rest h = h a
  reading-Guarded rt (failed e) rest h = (λ k. refl, λ k. refl)

  -- A call refused by a test, and one refused by a reason.
  pub unless-Guarded :
      (file : ConfigState) (b : Bool) (x y : Rt V × Answer)
      → x.0.file ≡ file
      → Guarded file y
      → Guarded file (if b then x else y)
  unless-Guarded file true x y h k = same_Guarded file x h
  unless-Guarded file false x y h k = k

  pub if-Guarded :
      (file : ConfigState) (b : Bool) (x y : Rt V × Answer)
      → Guarded file x
      → Guarded file y
      → Guarded file (if b then x else y)
  if-Guarded file true x y h k = h
  if-Guarded file false x y h k = k

  apply_web_ui_switch-file :
      (w : World) (rt : Rt V) (on : Bool) → (apply_web_ui_switch w rt on).file ≡ rt.file
  unfolding apply_web_ui_switch
  apply_web_ui_switch-file w rt true = refl
  apply_web_ui_switch-file w rt false = refl

  switch_if-file : (w : World) (on : Option Bool) (rt : Rt V) → (switch_if w on rt).file ≡ rt.file
  unfolding switch_if
  switch_if-file w none rt = refl
  switch_if-file w (some on) rt = apply_web_ui_switch-file w rt on

  pub do_config-Guarded :
      (w : World) (rt : Rt V) (caller : Caller) (body : Outcome ConfigReq)
      → Guarded rt.file (do_config w rt caller body)
  unfolding do_config
  do_config-Guarded w rt caller body =
      unless-Guarded rt.file (not (may_administer caller.role)) _ _ refl (
        reading-Guarded rt body _ (λ req. elim (Option-cases (config_refusal req)) [
          | inl e ↦ rw e (
              store-Guarded w _ (configured req (read_config rt.file)) _
                (λ s. (switch_if-file w req.web_ui_enabled s, refl)))
          | inr (why, e) ↦ rw e (λ k. refl, λ k. refl)
        ]))

  pub do_token-Guarded :
      (w : World) (rt : Rt V) (caller : Caller) (body : Outcome String)
      → Guarded rt.file (do_token w rt caller body)
  unfolding do_token
  do_token-Guarded w rt caller body =
      unless-Guarded rt.file (not (may_administer caller.role)) _ _ refl (
        reading-Guarded rt body _ (λ token.
          unless-Guarded rt.file (is_empty token) _ _ refl
            (store-Guarded w rt _ _ (λ s. (refl, refl)))))

  pub do_gps-Guarded :
      (w : World) (rt : Rt V) (caller : Caller) (body : Outcome GpsReq)
      → Guarded rt.file (do_gps w rt caller body)
  unfolding do_gps
  do_gps-Guarded w rt caller body =
      unless-Guarded rt.file (not (may_administer caller.role)) _ _ refl
        (reading-Guarded rt body _ (λ req. store-Guarded w rt _ _ (λ s. (refl, refl))))

  removed-file :
      (rt : Rt V) (file : ConfigState) (io : Option String) (rest : Rt V → Rt V × Answer)
      → rt.file ≡ file
      → ((s : Rt V) → is_some (rest s).1.error ≡ false)
      → is_some (saved rt (clear_config io file) rest).1.error ≡ true
      → (saved rt (clear_config io file) rest).0.file ≡ file
  unfolding clear_config
  removed-file rt missing io rest e quiet h = let q = quiet (record rt { file = missing }) in cc
  removed-file rt (parsed cfg) none rest e quiet h =
      let q = quiet (record rt { file = missing }) in cc
  removed-file rt (parsed cfg) (some why) rest e quiet h = refl
  removed-file rt (damaged x) none rest e quiet h =
      let q = quiet (record rt { file = missing }) in cc
  removed-file rt (damaged x) (some why) rest e quiet h = refl

  -- A removal may take a damaged file away.
  pub do_clear_refused :
      (w : World) (rt : Rt V) (caller : Caller)
      → is_some (do_clear w rt caller).1.error ≡ true
      → (do_clear w rt caller).0.file ≡ rt.file
  unfolding do_clear
  do_clear_refused w rt caller h = elim (Bool-cases (may_administer caller.role)) [
    | inr e ↦ rw e refl
    | inl e ↦ rw e (removed-file rt rt.file w.remove_io _ refl (λ s. refl) (rw e at h))
  ]

-- ===== src/Edge/Posture/Sync.antt =====
-- The responses to a change bring a view that agreed with the old data to the new data.
use sdk_golang.Common.{◌≡◌, refl, sym, ◌∙◌, not, ◌&&◌, List, ◌++◌, ◌==◌}
use sdk_golang.Common.Text.{Text, str_eq, str_eq-true}
use sdk_golang.Edge.Posture.{
  CheckTypes, Libraries, endpoint_state, domain_response, totp_response, mac_response, os_response,
  CacheData, process_responses, changed_responses, endpoint_part, domain_part, totp_part, mac_part,
  os_part,
}
use sdk_golang.Edge.Posture.View.{
  View, learn, learn_all, Moves, Moves-append, Agrees, changed_keeps, changed_sets, processes_keep,
}
use sdk_golang.Edge.Posture.Processes.{both, process_sets}

module _ (lib : Libraries) (types : CheckTypes) (active : List (Text × Text))
    (cur new : CacheData lib) where
  endpoint_keeps {ℓ} :
      {A : Type ℓ} (f : View → A) {a : A}
      → ((id : Text) (v : View)
          → f (
              learn
                (endpoint_state id
                  (not (cur.on_unlock == new.on_unlock))
                  (not (cur.on_wake == new.on_wake)))
                v)
            ≡ f v)
      → Moves f a a (endpoint_part lib types cur new active)
  endpoint_keeps f =
      changed_keeps lib types f (cur.on_wake == new.on_wake && cur.on_unlock == new.on_unlock)
        types.mfa
        (λ id.
          endpoint_state id (not (cur.on_unlock == new.on_unlock))
            (not (cur.on_wake == new.on_wake)))
        active

  domain_keeps {ℓ} :
      {A : Type ℓ} (f : View → A) {a : A}
      → ((id : Text) (v : View) → f (learn (domain_response id new.domain) v) ≡ f v)
      → Moves f a a (domain_part lib types cur new active)
  domain_keeps f =
      changed_keeps lib types f (str_eq cur.domain new.domain) types.domain
        (λ id. domain_response id new.domain) active

  totp_keeps {ℓ} :
      {A : Type ℓ} (f : View → A) {a : A}
      → ((id : Text) (v : View) → f (learn (totp_response id new.totp_token.token) v) ≡ f v)
      → Moves f a a (totp_part lib types cur new active)
  totp_keeps f =
      changed_keeps lib types f (str_eq cur.totp_token.token new.totp_token.token) types.mfa
        (λ id. totp_response id new.totp_token.token) active

  mac_keeps {ℓ} :
      {A : Type ℓ} (f : View → A) {a : A}
      → ((id : Text) (v : View) → f (learn (mac_response id new.mac_addresses) v) ≡ f v)
      → Moves f a a (mac_part lib types cur new active)
  mac_keeps f =
      changed_keeps lib types f (lib.equal_slices cur.mac_addresses new.mac_addresses) types.mac
        (λ id. mac_response id new.mac_addresses) active

  os_keeps {ℓ} :
      {A : Type ℓ} (f : View → A) {a : A}
      → ((id : Text) (v : View) → f (learn (os_response id new.os_type new.os_version) v) ≡ f v)
      → Moves f a a (os_part lib types cur new active)
  os_keeps f =
      changed_keeps lib types f
        (str_eq cur.os_version new.os_version && str_eq cur.os_type new.os_type) types.os
        (λ id. os_response id new.os_type new.os_version) active

  -- The parts, one after another.
  parts {ℓ} :
      {A : Type ℓ} (f : View → A) {a b c d e g h : A}
      → Moves f a b (endpoint_part lib types cur new active)
      → Moves f b c (domain_part lib types cur new active)
      → Moves f c d (totp_part lib types cur new active)
      → Moves f d e (mac_part lib types cur new active)
      → Moves f e g (os_part lib types cur new active)
      → Moves f g h (process_responses lib cur.processes (lib.items new.processes))
      → Moves f a h (changed_responses lib types cur new active)
  unfolding changed_responses
  parts f {a} {b} {c} {d} {e} {g} {h} mp mq mr ms mt mu =
      let u = process_responses lib cur.processes (lib.items new.processes) in
      let t = os_part lib types cur new active in
      let s = mac_part lib types cur new active in
      let r = totp_part lib types cur new active in
      let q = domain_part lib types cur new active in
      let p = endpoint_part lib types cur new active in
      Moves-append f {a = a} {b = g} {c = h} (p ++ q ++ r ++ s ++ t) u
        (Moves-append f {a = a} {b = e} {c = g} (p ++ q ++ r ++ s) t
          (Moves-append f {a = a} {b = d} {c = e} (p ++ q ++ r) s
            (Moves-append f {a = a} {b = c} {c = d} (p ++ q) r
              (Moves-append f {a = a} {b = b} {c = c} p q mp mq) mr)
            ms)
          mt)
        mu

  -- The responses to a change.
  pub changed_responses-Agrees :
      (v : View)
      → Agrees lib types active cur v
      → Agrees lib types active new (learn_all (changed_responses lib types cur new active) v)
  changed_responses-Agrees v agrees = record {
    on_domain = λ id asked.
        parts (λ v. v.domain) (endpoint_keeps (λ v. v.domain) (λ id v. refl))
          (changed_sets lib types (λ v. v.domain) (str_eq cur.domain new.domain) types.domain
            (λ id. domain_response id new.domain) active id asked (λ id v. refl)
            (str_eq-true cur.domain new.domain))
          (totp_keeps (λ v. v.domain) (λ id v. refl)) (mac_keeps (λ v. v.domain) (λ id v. refl))
          (os_keeps (λ v. v.domain) (λ id v. refl))
          (processes_keep lib types (λ v. v.domain) cur.processes (lib.items new.processes)
            (λ id path p v. refl))
          v (agrees.on_domain id asked);
    on_token = λ id asked.
        parts (λ v. v.token) (endpoint_keeps (λ v. v.token) (λ id v. refl))
          (domain_keeps (λ v. v.token) (λ id v. refl))
          (changed_sets lib types (λ v. v.token) (str_eq cur.totp_token.token new.totp_token.token)
            types.mfa (λ id. totp_response id new.totp_token.token) active id asked (λ id v. refl)
            (str_eq-true cur.totp_token.token new.totp_token.token))
          (mac_keeps (λ v. v.token) (λ id v. refl)) (os_keeps (λ v. v.token) (λ id v. refl))
          (processes_keep lib types (λ v. v.token) cur.processes (lib.items new.processes)
            (λ id path p v. refl))
          v (agrees.on_token id asked);
    on_macs = λ id asked.
        parts (λ v. v.mac_addresses) (endpoint_keeps (λ v. v.mac_addresses) (λ id v. refl))
          (domain_keeps (λ v. v.mac_addresses) (λ id v. refl))
          (totp_keeps (λ v. v.mac_addresses) (λ id v. refl))
          (changed_sets lib types (λ v. v.mac_addresses)
            (lib.equal_slices cur.mac_addresses new.mac_addresses) types.mac
            (λ id. mac_response id new.mac_addresses) active id asked (λ id v. refl)
            (lib.equal_slices-true cur.mac_addresses new.mac_addresses))
          (os_keeps (λ v. v.mac_addresses) (λ id v. refl))
          (processes_keep lib types (λ v. v.mac_addresses) cur.processes (lib.items new.processes)
            (λ id path p v. refl))
          v (agrees.on_macs id asked);
    on_os_type = λ id asked.
        parts (λ v. v.os_type) (endpoint_keeps (λ v. v.os_type) (λ id v. refl))
          (domain_keeps (λ v. v.os_type) (λ id v. refl))
          (totp_keeps (λ v. v.os_type) (λ id v. refl)) (mac_keeps (λ v. v.os_type) (λ id v. refl))
          (changed_sets lib types (λ v. v.os_type)
            (str_eq cur.os_version new.os_version && str_eq cur.os_type new.os_type) types.os
            (λ id. os_response id new.os_type new.os_version) active id asked (λ id v. refl)
            (λ e. str_eq-true cur.os_type new.os_type (both _ _ e).1))
          (processes_keep lib types (λ v. v.os_type) cur.processes (lib.items new.processes)
            (λ id path p v. refl))
          v (agrees.on_os_type id asked);
    on_os_version = λ id asked.
        parts (λ v. v.os_version) (endpoint_keeps (λ v. v.os_version) (λ id v. refl))
          (domain_keeps (λ v. v.os_version) (λ id v. refl))
          (totp_keeps (λ v. v.os_version) (λ id v. refl))
          (mac_keeps (λ v. v.os_version) (λ id v. refl))
          (changed_sets lib types (λ v. v.os_version)
            (str_eq cur.os_version new.os_version && str_eq cur.os_type new.os_type) types.os
            (λ id. os_response id new.os_type new.os_version) active id asked (λ id v. refl)
            (λ e. str_eq-true cur.os_version new.os_version (both _ _ e).0))
          (processes_keep lib types (λ v. v.os_version) cur.processes (lib.items new.processes)
            (λ id path p v. refl))
          v (agrees.on_os_version id asked);
    on_processes = λ path p found.
        parts (λ v. v.processes path) (endpoint_keeps (λ v. v.processes path) (λ id v. refl))
          (domain_keeps (λ v. v.processes path) (λ id v. refl))
          (totp_keeps (λ v. v.processes path) (λ id v. refl))
          (mac_keeps (λ v. v.processes path) (λ id v. refl))
          (os_keeps (λ v. v.processes path) (λ id v. refl))
          (process_sets lib path p cur.processes (lib.items new.processes)
            (lib.items-Keyed new.processes) (sym (lib.lookup-items path new.processes) ∙ found)
            (λ q is_q. agrees.on_processes path q is_q))
          v refl;
  }

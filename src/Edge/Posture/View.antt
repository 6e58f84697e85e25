-- ===== src/Edge/Posture/View.antt =====
-- What a receiver of posture responses knows, and when it agrees with the data of the cache.
use sdk_golang.Common.{
  ◌≡◌, refl, ap, ◌∙◌, Bool, true, false, Option, none, some, List, [], ◌∷◌, ◌++◌, if◌then◌else◌,
}
use sdk_golang.Common.Text.{Text, str_eq, get}
use sdk_golang.Edge.Posture.{
  CheckTypes, Libraries, ProcessInfo, Response, endpoint_state, domain_response, totp_response,
  mac_response, os_response, process_response, CacheData, respond, changed, process_changed,
  process_responses,
}

-- What is said of a process.
pub record Report : Type 0 where
  pub is_running : Bool
  pub hash : Text
  pub signer_fingerprints : List Text

abbrev pub report : ProcessInfo → Report
report p = record {
  is_running = p.is_running;
  hash = p.hash;
  signer_fingerprints = p.signer_fingerprints;
}

pub record View : Type 0 where
  pub domain : Text
  pub token : Text
  pub mac_addresses : List Text
  pub os_type : Text
  pub os_version : Text
  pub processes : Text → Option Report

-- A response replaces what is known.
abbrev pub learn : Response → View → View
learn (endpoint_state id unlocked woken) v = v
learn (domain_response id domain) v = record v { domain = domain }
learn (totp_response id token) v = record v { token = token }
learn (mac_response id macs) v = record v { mac_addresses = macs }
learn (os_response id os version) v = record v { os_type = os; os_version = version }
learn (process_response id path p) v = record v {
  processes = λ k. if str_eq path k then some (report p) else v.processes k;
}

abbrev pub learn_all : List Response → View → View
learn_all [] v = v
learn_all (r ∷ rs) v = learn_all rs (learn r v)

learn_all-append :
    (rs qs : List Response) (v : View) → learn_all (rs ++ qs) v ≡ learn_all qs (learn_all rs v)
learn_all-append [] qs v = refl
learn_all-append (r ∷ rs) qs v = learn_all-append rs qs (learn r v)

-- Responses that take a part of the view from one value to another.
abbrev pub Moves {ℓ} : {A : Type ℓ} → (View → A) → A → A → List Response → Type ℓ
Moves f a b rs = (v : View) → f v ≡ a → f (learn_all rs v) ≡ b

pub Moves-append {ℓ} :
    {A : Type ℓ} (f : View → A) {a b c : A} (rs qs : List Response)
    → Moves f a b rs
    → Moves f b c qs
    → Moves f a c (rs ++ qs)
Moves-append f rs qs first second v is_a =
    ap f (learn_all-append rs qs v) ∙ second (learn_all rs v) (first v is_a)

module _ (lib : Libraries) (types : CheckTypes) where
  -- The view agrees with the data on every type that is asked for, and on the processes.
  pub record Agrees (active : List (Text × Text)) (d : CacheData lib) (v : View) : Type 0 where
    pub on_domain : (id : Text) → get types.domain active ≡ some id → v.domain ≡ d.domain
    pub on_token : (id : Text) → get types.mfa active ≡ some id → v.token ≡ d.totp_token.token
    pub on_macs : (id : Text) → get types.mac active ≡ some id → v.mac_addresses ≡ d.mac_addresses
    pub on_os_type : (id : Text) → get types.os active ≡ some id → v.os_type ≡ d.os_type
    pub on_os_version : (id : Text) → get types.os active ≡ some id → v.os_version ≡ d.os_version
    pub on_processes :
        (path : Text) (p : ProcessInfo)
        → lib.lookup path d.processes ≡ some p
        → v.processes path ≡ some (report p)

  pub changed_keeps {ℓ} :
      {A : Type ℓ} (f : View → A) {a : A} (same : Bool) (query_type : Text) (make : Text → Response)
      (active : List (Text × Text))
      → ((id : Text) (v : View) → f (learn (make id) v) ≡ f v)
      → Moves f a a (changed lib types same query_type make active)
  changed_keeps f true query_type make active keeps v is_a = is_a
  changed_keeps f {a} false query_type make active keeps v is_a = responds (get query_type active)
    where
      responds : (o : Option Text) → f (learn_all (respond lib o make) v) ≡ a
      responds none = is_a
      responds (some id) = keeps id v ∙ is_a

  pub changed_sets {ℓ} :
      {A : Type ℓ} (f : View → A) {a b : A} (same : Bool) (query_type : Text)
      (make : Text → Response) (active : List (Text × Text)) (id : Text)
      → get query_type active ≡ some id
      → ((id : Text) (v : View) → f (learn (make id) v) ≡ b)
      → (same ≡ true → a ≡ b)
      → Moves f a b (changed lib types same query_type make active)
  changed_sets f true query_type make active id asked sets unchanged v is_a = is_a ∙ unchanged refl
  changed_sets f false query_type make active id asked sets unchanged v is_a =
      ap (λ o. f (learn_all (respond lib o make) v)) asked ∙ sets id v

  pub processes_keep {ℓ} :
      {A : Type ℓ} (f : View → A) {a : A} (current : lib.ProcessMap)
      (ps : List (Text × ProcessInfo))
      → ((id path : Text) (p : ProcessInfo) (v : View)
          → f (learn (process_response id path p) v) ≡ f v)
      → Moves f a a (process_responses lib current ps)
  processes_keep f current [] keeps v is_a = is_a
  processes_keep f {a} current ((path, p) ∷ ps) keeps v is_a =
      let rest = processes_keep f current ps keeps in
      by_change (process_changed lib (lib.lookup path current) p) (rest v is_a)
        (rest (learn (process_response p.query_id path p) v) (keeps p.query_id path p v ∙ is_a))
    where
      by_change :
          (b : Bool)
          → f (learn_all (process_responses lib current ps) v) ≡ a
          → f (
              learn_all
                (process_responses lib current ps)
                (learn (process_response p.query_id path p) v))
            ≡ a
          → f (
              learn_all
                (if b
                  then process_response p.query_id path p ∷ process_responses lib current ps
                  else process_responses lib current ps)
                v)
            ≡ a
      by_change true left sent = sent
      by_change false left sent = left

-- ===== src/Edge/Posture/Reports.antt =====
-- What an evaluation reports, and what becomes of the TOTP token.
use sdk_golang.Common.{
  suc, ◌≡◌, ◌≢◌, refl, sym, ap, ◌∙◌, inl, inr, Bool, true, false, ◌&&◌, Option, none, some, List,
  [], ◌∷◌, ◌==◌, if◌then◌else◌, length, Bool-cases, arith, ==_iff,
}
use mathlib.Core.Path.{subst}
use sdk_golang.Common.Text.{Text, str_eq, str_eq-true, get}
use sdk_golang.Edge.Posture.{
  CheckTypes, Libraries, ProcessInfo, Response, CacheData, ActiveQueries, TotpToken,
  get_active_query_info, changed_responses, get_changed_responses,
}
use sdk_golang.Edge.Posture.Evaluate.{
  TotpReply, close_notified, no_channel, token_result, token_error, Surroundings, bulk_taken,
  send_responses, send_singles, sanitize_mac_addresses, Cache, candidate_data, submit_changes,
  evaluate, evaluate_active, watch, candidate_token, evaluate_token, totp_timeout_window_entered,
  send_bulk,
}
use sdk_golang.Edge.Posture.View.{report, View, learn_all, Agrees}
use sdk_golang.Edge.Posture.Processes.{both}
use sdk_golang.Edge.Posture.Sync.{changed_responses-Agrees}

-- The submitter takes everything.
pub record Takes (w : Surroundings) : Type 0 where
  pub takes_bulk : (rs : List Response) → w.submit_bulk rs ≡ bulk_taken
  pub takes_one : (r : Response) → w.submit_one r ≡ true

send_singles-all :
    (submit : Response → Bool) (rs : List Response)
    → ((r : Response) → submit r ≡ true)
    → (send_singles submit rs).taken ≡ rs
unfolding send_singles
send_singles-all submit [] takes = refl
send_singles-all submit (r ∷ rs) takes =
    let rest = send_singles submit rs in
    ap
      (λ b.
        (if b
          then record rest { taken = r ∷ rest.taken }
          else record rest { errors = suc rest.errors }).taken)
      (takes r)
    ∙ ap (λ t. r ∷ t) (send_singles-all submit rs takes)

send_responses-all :
    (w : Surroundings) (singles : Bool) (rs : List Response)
    → Takes w
    → (send_responses w singles rs).taken ≡ rs
unfolding send_responses
send_responses-all w true rs t = send_singles-all w.submit_one rs t.takes_one
send_responses-all w false rs t = ap (λ b. (send_bulk b w.submit_one rs).taken) (t.takes_bulk rs)

empty : {A : Type 0} (xs : List A) → (length xs == 0) ≡ true → xs ≡ []
empty [] e = refl
empty (x ∷ xs) e = absurd (let no : suc (length xs) ≡ 0 = (==_iff _ _).0 e in omega arith)

module _ (lib : Libraries) (types : CheckTypes) where
  get_changed_responses-Agrees :
      (active : List (Text × Text)) (cur new : CacheData lib) (v : View)
      → Agrees lib types active cur v
      → Agrees lib types active new (learn_all (get_changed_responses lib types cur new active) v)
  unfolding get_changed_responses
  get_changed_responses-Agrees active cur new v agrees =
      by_test ((length active == 0) && (length (lib.items new.processes) == 0)) refl
    where
      by_test :
          (b : Bool)
          → ((length active == 0) && (length (lib.items new.processes) == 0)) ≡ b
          → Agrees lib types active new
              (learn_all (if b then [] else changed_responses lib types cur new active) v)
      by_test false e = changed_responses-Agrees lib types active cur new v agrees
      by_test true e =
          let (no_active, no_items) =
            both (length active == 0) (length (lib.items new.processes) == 0) e in
          let none_asked = λ (k id : Text) (asked : get k active ≡ some id).
            (let no : none ≡ some id = ap (get k) (sym (empty active no_active)) ∙ asked in no) in
          record {
            on_domain = λ id asked. absurd (let no = none_asked types.domain id asked in cc);
            on_token = λ id asked. absurd (let no = none_asked types.mfa id asked in cc);
            on_macs = λ id asked. absurd (let no = none_asked types.mac id asked in cc);
            on_os_type = λ id asked. absurd (let no = none_asked types.os id asked in cc);
            on_os_version = λ id asked. absurd (let no = none_asked types.os id asked in cc);
            on_processes = λ path p found. absurd (
                let no : none ≡ some p =
                  ap (get path) (sym (empty (lib.items new.processes) no_items))
                  ∙ sym (lib.lookup-items path new.processes)
                  ∙ found in
                cc);
          }

  -- A process that is asked for is watched.
  abbrev Watched : (Text → ProcessInfo) → Text → lib.ProcessMap → Type 0
  Watched info path m =
      (id : Text) × (lib.lookup path m ≡ some (record (info path) { query_id = id }))

  watch-keeps :
      (info : Text → ProcessInfo) (path : Text) (active : List (Text × Text)) (m : lib.ProcessMap)
      → Watched info path m
      → Watched info path (watch lib types info active m)
  watch-keeps info path [] m watched = watched
  watch-keeps info path ((k, id) ∷ active) m (q, is_q) =
      let m' = lib.set k (record (info k) { query_id = id }) m in
      watch-keeps info path active m' (elim (Bool-cases (str_eq k path)) [
        | inl same ↦ (
          id,
          lib.lookup-set path k (record (info k) { query_id = id }) m
              ∙ rw same
                  (ap (λ t. some (record (info t) { query_id = id })) (str_eq-true k path same)),
        )
        | inr other ↦
            (q, lib.lookup-set path k (record (info k) { query_id = id }) m ∙ rw other is_q)
      ])

  watch-Watched :
      (info : Text → ProcessInfo) (path id : Text) (active : List (Text × Text))
      (m : lib.ProcessMap)
      → get path active ≡ some id
      → Watched info path (watch lib types info active m)
  watch-Watched info path id [] m asked = absurd (let no : none ≡ some id = asked in cc)
  watch-Watched info path id ((k, j) ∷ active) m asked =
      let m' = lib.set k (record (info k) { query_id = j }) m in
      elim (Bool-cases (str_eq k path)) [
        | inl same ↦ watch-keeps info path active m' (
          j,
          lib.lookup-set path k (record (info k) { query_id = j }) m
              ∙ rw same
                  (ap (λ t. some (record (info t) { query_id = j })) (str_eq-true k path same)),
        )
        | inr other ↦
            watch-Watched info path id active m'
              (sym (ap (λ b. if b then some j else get path active) other) ∙ asked)
      ]

  -- The view holds what the providers say, of everything that is asked for.
  pub record Reported (w : Surroundings) (active : ActiveQueries) (v : View) : Type 0 where
    pub of_domain :
        (id : Text) → get types.domain active.query_types ≡ some id → v.domain ≡ w.domain
    pub of_macs :
        (id : Text)
        → get types.mac active.query_types ≡ some id
        → v.mac_addresses ≡ sanitize_mac_addresses w.clean_mac w.mac_addresses
    pub of_os_type : (id : Text) → get types.os active.query_types ≡ some id → v.os_type ≡ w.os_type
    pub of_os_version :
        (id : Text) → get types.os active.query_types ≡ some id → v.os_version ≡ w.os_version
    pub of_processes :
        (path id : Text)
        → get path active.active_processes ≡ some id
        → v.processes path ≡ some (report (w.process_info path))

  candidate-Reported :
      (w : Surroundings) (active : ActiveQueries) (token : TotpToken) (c : Cache lib types)
      (v : View)
      → Agrees lib types active.query_types (candidate_data lib types w active token c) v
      → Reported w active v
  unfolding candidate_data
  candidate-Reported w active token c v agrees = record {
    of_domain = agrees.on_domain;
    of_macs = agrees.on_macs;
    of_os_type = agrees.on_os_type;
    of_os_version = agrees.on_os_version;
    of_processes = λ path id asked.
        let (q, is_q) =
          watch-Watched w.process_info path id active.active_processes lib.new_map asked in
        agrees.on_processes path (record (w.process_info path) { query_id = q }) is_q;
  }

  submitted :
      (w : Surroundings) (active : List (Text × Text)) (candidate : CacheData lib)
      (rs : List Response) (c : Cache lib types) (v : View)
      → Takes w
      → Agrees lib types active c.current_data v
      → Agrees lib types active candidate (learn_all rs v)
      → Agrees lib types active
          (submit_changes lib types w candidate rs c).1.current_data
          (learn_all (submit_changes lib types w candidate rs c).0 v)
        × Agrees lib types active candidate
            (learn_all (submit_changes lib types w candidate rs c).0 v)
  unfolding submit_changes
  submitted w active candidate [] c v takes old new = (old, new)
  submitted w active candidate (r ∷ rs) c v takes old new =
      let all = sym (send_responses-all w c.do_single_submissions (r ∷ rs) takes) in
      let known = subst (λ t. Agrees lib types active candidate (learn_all t v)) all new in
      (
        record {
          on_domain = known.on_domain;
          on_token = known.on_token;
          on_macs = known.on_macs;
          on_os_type = known.on_os_type;
          on_os_version = known.on_os_version;
          on_processes = known.on_processes;
        },
        known,
      )

  pub evaluate-active :
      (w : Surroundings) (c : Cache lib types) (active : ActiveQueries)
      → get_active_query_info types w.dial_services w.bind_services ≡ some active
      → evaluate lib types w c ≡ some (evaluate_active lib types w active c)
  unfolding evaluate
  evaluate-active w c active is_active =
      ap
        (λ o. elim o as (λ o. Option (List Response × Cache lib types)) [
          | none ↦ none
          | some a ↦ some (evaluate_active lib types w a c)
        ])
        is_active

  -- When the posture queries can be read, the cache is not closed while it waits for a token and
  -- the submitter takes everything: Evaluate returns, and a receiver that agreed with the current
  -- data on every type that is asked for, and on the processes, then has what the providers say of
  -- the domain, the MAC addresses, the operating system and the processes that are asked for, and
  -- agrees with the new current data.
  pub evaluate-Reported :
      (w : Surroundings) (c : Cache lib types) (active : ActiveQueries) (v : View)
      → get_active_query_info types w.dial_services w.bind_services ≡ some active
      → w.totp_provider ≢ some close_notified
      → Takes w
      → Agrees lib types active.query_types c.current_data v
      → (taken : List Response) × (d : Cache lib types) × (evaluate lib types w c ≡ some (taken, d))
        × Reported w active (learn_all taken v)
        × Agrees lib types active.query_types d.current_data (learn_all taken v)
  unfolding evaluate_active
  evaluate-Reported w c active v is_active goes_on takes agrees =
      let entered =
        totp_timeout_window_entered active.lowest_totp_timeout c.previous_data.totp_token w.now in
      let (reported, kept) =
        by_token (candidate_token lib types entered w.totp_provider c.previous_data.totp_token)
          (answered entered w.totp_provider goes_on) in
      (
        (evaluate_active lib types w active c).0,
        (evaluate_active lib types w active c).1,
        evaluate-active w c active is_active,
        reported,
        kept,
      )
    where
      timed : Cache lib types
      timed = record c { totp_timeout = active.lowest_totp_timeout }

      answered :
          (entered : Bool) (reply : Option TotpReply)
          → reply ≢ some close_notified
          → (t : TotpToken) × (candidate_token lib types entered reply c.previous_data.totp_token
              ≡ some t)
      answered false reply h = (c.previous_data.totp_token, refl)
      answered true none h = (c.previous_data.totp_token, refl)
      answered true (some no_channel) h = (c.previous_data.totp_token, refl)
      answered true (some (token_result t)) h = (t, refl)
      answered true (some token_error) h = (c.previous_data.totp_token, refl)
      answered true (some close_notified) h = absurd (h refl)

      by_token :
          (o : Option TotpToken)
          → (t : TotpToken) × (o ≡ some t)
          → Reported w active (learn_all (evaluate_token lib types w active o timed).0 v)
            × Agrees lib types active.query_types
                (evaluate_token lib types w active o timed).1.current_data
                (learn_all (evaluate_token lib types w active o timed).0 v)
      by_token none (t, is_t) = absurd (let impossible : none ≡ some t = is_t in cc)
      by_token (some token) h =
          let candidate = candidate_data lib types w active token timed in
          let (kept, new) =
            submitted w active.query_types candidate
              (get_changed_responses lib types c.current_data candidate active.query_types) timed v
              takes agrees
              (get_changed_responses-Agrees active.query_types c.current_data candidate v agrees) in
          (candidate-Reported w active token timed _ new, kept)

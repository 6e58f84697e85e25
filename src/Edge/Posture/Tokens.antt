-- ===== src/Edge/Posture/Tokens.antt =====
-- The TOTP token that evaluations carry on, and the timeout that decides when one is asked for.
use sdk_golang.Common.{
  true_ne_false, suc, ◌≡◌, ◌≢◌, refl, sym, ap, ◌∙◌, inl, inr, ◌⊎◌, Bool, true, false, ◌&&◌, Option,
  none, some, List, [], ◌∷◌, ◌++◌, ◌==◌, if◌then◌else◌, length, arith,
}
use sdk_golang.Common.Text.{Text, str_eq-false, get}
use sdk_golang.Edge.Posture.{
  CheckTypes, Libraries, Response, CacheData, ActiveQueries, TotpToken, get_active_query_info,
  changed_responses, get_changed_responses, respond, endpoint_part, domain_part, totp_part,
  mac_part, os_part, process_responses, totp_response,
}
use sdk_golang.Edge.Posture.Evaluate.{
  Surroundings, Cache, candidate_data, submit_changes, evaluate, evaluate_active, candidate_token,
  evaluate_token, totp_timeout_window_entered,
}
use sdk_golang.Edge.Posture.Reports.{evaluate-active}

not_empty : {A : Type 0} (xs ys : List A) (x : A) → (xs ++ (x ∷ ys)) ≢ []
not_empty [] ys x e = cc
not_empty (z ∷ xs) ys x e = cc

append_empty : {A : Type 0} (xs ys : List A) → xs ++ ys ≡ [] → (xs ≡ []) × (ys ≡ [])
append_empty [] ys e = (refl, e)
append_empty (x ∷ xs) ys e = cc

module _ (lib : Libraries) (types : CheckTypes) where
  -- A token that changes makes a response.
  token_responds :
      (active : List (Text × Text)) (cur new : CacheData lib) (id : Text)
      → get types.mfa active ≡ some id
      → cur.totp_token.token ≢ new.totp_token.token
      → get_changed_responses lib types cur new active ≢ []
  unfolding get_changed_responses changed_responses
  token_responds [] cur new id asked other h =
      absurd (let impossible : none ≡ some id = asked in cc)
  token_responds (a ∷ active) cur new id asked other h =
      let all = a ∷ active in
      let e = endpoint_part lib types cur new all in
      let d = domain_part lib types cur new all in
      let t = totp_part lib types cur new all in
      let m = mac_part lib types cur new all in
      let o = os_part lib types cur new all in
      let p = process_responses lib cur.processes (lib.items new.processes) in
      let some_type : (suc (length active) == 0) ≡ false = ground arith in
      let no_items = length (lib.items new.processes) == 0 in
      let is_empty : changed_responses lib types cur new all ≡ [] =
        sym (
          ap (λ b. if b && no_items then [] else changed_responses lib types cur new all) some_type)
        ∙ h in
      let upto_os = append_empty (e ++ d ++ t ++ m ++ o) p is_empty in
      let upto_mac = append_empty (e ++ d ++ t ++ m) o upto_os.0 in
      let upto_totp = append_empty (e ++ d ++ t) m upto_mac.0 in
      let gone : t ≡ [] = (append_empty (e ++ d) t upto_totp.0).1 in
      let sent : t ≡ totp_response id new.totp_token.token ∷ [] =
        ap
          (λ b.
            if b
            then []
            else respond lib (get types.mfa all) (λ i. totp_response i new.totp_token.token))
          (str_eq-false cur.totp_token.token new.totp_token.token other)
        ∙ ap (λ g. respond lib g (λ i. totp_response i new.totp_token.token)) asked in
      not_empty [] [] (totp_response id new.totp_token.token) (sym sent ∙ gone)

  submitted_tokens :
      (w : Surroundings) (candidate : CacheData lib) (rs : List Response) (c : Cache lib types)
      → rs ≢ []
      → ((submit_changes lib types w candidate rs c).1.current_data.totp_token
          ≡ candidate.totp_token)
        × ((submit_changes lib types w candidate rs c).1.previous_data.totp_token
            ≡ c.current_data.totp_token)
  unfolding submit_changes
  submitted_tokens w candidate [] c some_response = absurd (some_response refl)
  submitted_tokens w candidate (r ∷ rs) c some_response = (refl, refl)

  -- When the posture queries can be read and ask for a TOTP token, no new token is asked for, and
  -- the token of the current data differs from that of the previous data, Evaluate returns, and the
  -- two tokens have changed places.
  pub evaluate-swaps :
      (w : Surroundings) (c : Cache lib types) (active : ActiveQueries) (id : Text)
      → get_active_query_info types w.dial_services w.bind_services ≡ some active
      → get types.mfa active.query_types ≡ some id
      → (w.totp_provider ≡ none)
        ⊎ (totp_timeout_window_entered active.lowest_totp_timeout c.previous_data.totp_token w.now
            ≡ false)
      → c.current_data.totp_token.token ≢ c.previous_data.totp_token.token
      → (taken : List Response) × (d : Cache lib types) × (evaluate lib types w c ≡ some (taken, d))
        × (d.current_data.totp_token ≡ c.previous_data.totp_token)
        × (d.previous_data.totp_token ≡ c.current_data.totp_token)
  unfolding evaluate_active candidate_data
  evaluate-swaps w c active id is_active asked no_request other =
      let entered =
        totp_timeout_window_entered active.lowest_totp_timeout c.previous_data.totp_token w.now in
      let (current, previous) =
        by_token (candidate_token lib types entered w.totp_provider c.previous_data.totp_token)
          (carried entered w.totp_provider no_request) in
      (
        (evaluate_active lib types w active c).0,
        (evaluate_active lib types w active c).1,
        evaluate-active lib types w c active is_active,
        current,
        previous,
      )
    where
      timed : Cache lib types
      timed = record c { totp_timeout = active.lowest_totp_timeout }

      old : TotpToken
      old = c.previous_data.totp_token

      carried :
          (entered : Bool) (reply : Option _)
          → (reply ≡ none) ⊎ (entered ≡ false)
          → candidate_token lib types entered reply old ≡ some old
      carried false reply h = refl
      carried true none h = refl
      carried true (some r) (inl h) = absurd (let impossible : some r ≡ none = h in cc)
      carried true (some r) (inr h) = absurd (true_ne_false h)

      by_token :
          (o : Option TotpToken)
          → o ≡ some old
          → ((evaluate_token lib types w active o timed).1.current_data.totp_token ≡ old)
            × ((evaluate_token lib types w active o timed).1.previous_data.totp_token
                ≡ c.current_data.totp_token)
      by_token none e = absurd (let impossible : none ≡ some old = e in cc)
      by_token (some token) e =
          let is_old : token ≡ old = (let h : some token ≡ some old = e in cc) in
          let candidate = candidate_data lib types w active token timed in
          let (current, previous) =
            submitted_tokens w candidate
              (get_changed_responses lib types c.current_data candidate active.query_types) timed
              (token_responds active.query_types c.current_data candidate id asked
                (λ same. other (same ∙ ap (λ t. t.token) is_old))) in
          (current ∙ is_old, previous)

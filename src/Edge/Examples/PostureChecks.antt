-- ===== src/Edge/Examples/PostureChecks.antt =====
-- The properties of the posture cache and of its submitter at concrete data.
use sdk_golang.Common.{
  false_ne_true, ◌≡◌, ◌≢◌, refl, inl, Bool, true, false, Option, none, some, List, [], ◌∷◌,
  if◌then◌else◌,
}
use sdk_golang.Common.Text.{Text, str_eq, str_eq-true, get, put, get-put, Keyed, put-Keyed}
use sdk_golang.Common.Int.{ℤ, pos}
use sdk_golang.Edge.Posture.{
  CheckTypes, Libraries, ProcessInfo, Query, Service, ActiveQueries, Response, domain_response,
  totp_response, totp_posture_check_no_timeout, get_active_query_info, get_lowest_totp_timeout,
  new_cache_data,
}
use sdk_golang.Edge.Posture.Evaluate.{
  Surroundings, Cache, new_cache, evaluate, bulk_taken, close_notified,
}
use sdk_golang.Edge.Posture.View.{View, Agrees, learn_all}
use sdk_golang.Edge.Posture.Reports.{Reported, evaluate-Reported}
use sdk_golang.Edge.Posture.Tokens.{evaluate-swaps}
use sdk_golang.Edge.Posture.Timeouts.{
  IsLowest, behind_never, mfa_timeouts, get_lowest_totp_timeout-IsLowest,
}
use sdk_golang.Edge.Posture.Submitter.{MultiSubmitter, send_posture_response_bulk}
use sdk_golang.Edge.Posture.Submitter.Deliveries.{Reached, send_posture_response_bulk-Reached}

abbrev same_texts : List Text → List Text → Bool
same_texts [] [] = true
same_texts [] (t ∷ ts) = false
same_texts (s ∷ ss) [] = false
same_texts (s ∷ ss) (t ∷ ts) = if str_eq s t then same_texts ss ts else false

same_texts-true : (ss ts : List Text) → same_texts ss ts ≡ true → ss ≡ ts
same_texts-true [] [] e = refl
same_texts-true [] (t ∷ ts) e = cc
same_texts-true (s ∷ ss) [] e = cc
same_texts-true (s ∷ ss) (t ∷ ts) e = by_head (str_eq s t) refl e (same_texts-true ss ts)
  where
    by_head :
        (b : Bool)
        → str_eq s t ≡ b
        → (if b then same_texts ss ts else false) ≡ true
        → (same_texts ss ts ≡ true → ss ≡ ts)
        → s ∷ ss ≡ t ∷ ts
    by_head true same e rest = λ i. str_eq-true s t same i ∷ rest e i
    by_head false other e rest = absurd (false_ne_true e)

-- A map is a list of entries with distinct keys.
abbrev test_libraries : Libraries
test_libraries = record {
  ProcessMap = (l : List (Text × ProcessInfo)) × Keyed l;
  new_map = ([], tt);
  lookup = λ k m. get k m.0;
  set = λ k p m. (put k p m.0, put-Keyed k p m.0 m.1);
  items = λ m. m.0;
  equal_slices = same_texts;
  lookup-items = λ k m. refl;
  items-new_map = refl;
  lookup-set = λ j k p m. get-put k j p m.0;
  items-Keyed = λ m. m.1;
  equal_slices-true = same_texts-true;
}

abbrev test_types : CheckTypes
test_types = record {
  mfa = b'F' ∷ [];
  os = b'O' ∷ [];
  mac = b'M' ∷ [];
  domain = b'D' ∷ [];
  process = b'P' ∷ [];
  process_multi = b'Q' ∷ [];
  dial = b'd' ∷ [];
  bind = b'b' ∷ [];
}

abbrev test_query : Text → Option ℤ → Option Text → Query
test_query kind timeout process = record {
  id = b'q' ∷ kind;
  query_type = kind;
  timeout = timeout;
  process = process;
  processes = [];
}

-- A service that asks for a TOTP token, the domain and the process `p` when it is dialed.
abbrev test_service : Service
test_service = record {
  posture_queries =
      record {
        policy_type = test_types.dial;
        queries =
            test_query test_types.mfa (some (pos 600)) none
            ∷ test_query test_types.domain none none
            ∷ test_query test_types.process none (some (b'p' ∷ []))
            ∷ [];
      }
      ∷ [];
}

abbrev test_surroundings : Surroundings
test_surroundings = record {
  dial_services = test_service ∷ [];
  bind_services = [];
  os_type = b'l' ∷ [];
  os_version = b'1' ∷ [];
  domain = b'h' ∷ [];
  mac_addresses = [];
  clean_mac = λ a. a;
  process_info =
      λ path. record { is_running = true; hash = path; signer_fingerprints = []; query_id = [] };
  totp_provider = none;
  now = 1000;
  submit_bulk = λ rs. bulk_taken;
  submit_one = λ r. true;
}

abbrev test_active : ActiveQueries
test_active = record {
  query_types =
      (test_types.mfa, b'q' ∷ test_types.mfa)
      ∷ (test_types.domain, b'q' ∷ test_types.domain)
      ∷ (test_types.process, b'q' ∷ test_types.process)
      ∷ (test_types.os, b'q' ∷ test_types.process)
      ∷ [];
  active_processes = (b'p' ∷ [], b'q' ∷ test_types.process) ∷ [];
  lowest_totp_timeout = pos 600;
}

is_active : get_active_query_info test_types (test_service ∷ []) [] ≡ some test_active
unfolding get_active_query_info
is_active = refl

-- Nothing is known.
abbrev test_view : View
test_view = record {
  domain = [];
  token = [];
  mac_addresses = [];
  os_type = [];
  os_version = [];
  processes = λ path. none;
}

view-Agrees :
    Agrees test_libraries test_types test_active.query_types
      (new_cache test_libraries test_types).current_data
      test_view
unfolding new_cache
view-Agrees = record {
  on_domain = λ id asked. refl;
  on_token = λ id asked. refl;
  on_macs = λ id asked. refl;
  on_os_type = λ id asked. refl;
  on_os_version = λ id asked. refl;
  on_processes = λ path p found. absurd (let impossible : none ≡ some p = found in cc);
}

evaluate-Reported_example :
    (taken : List Response) × (d : Cache test_libraries test_types) × (evaluate test_libraries
        test_types test_surroundings
        (new_cache test_libraries test_types)
      ≡ some (taken, d))
    × Reported test_libraries test_types test_surroundings test_active (learn_all taken test_view)
    × Agrees test_libraries test_types test_active.query_types d.current_data
        (learn_all taken test_view)
evaluate-Reported_example =
    evaluate-Reported test_libraries test_types test_surroundings
      (new_cache test_libraries test_types) test_active test_view is_active
      (λ e. absurd (let impossible : none ≡ some close_notified = e in cc))
      (record { takes_bulk = λ rs. refl; takes_one = λ r. refl }) view-Agrees

-- A cache that was given the token `t`, after none.
abbrev token_cache : Cache test_libraries test_types
token_cache = record (new_cache test_libraries test_types) {
  current_data = record (new_cache_data test_libraries) {
    totp_token = record { token = b't' ∷ []; issued_at = 900 };
  };
}

tokens_differ :
    token_cache.current_data.totp_token.token ≢ token_cache.previous_data.totp_token.token
unfolding new_cache
tokens_differ e = cc

evaluate-swaps_example :
    (taken : List Response) × (d : Cache test_libraries test_types) × (evaluate test_libraries
        test_types test_surroundings token_cache
      ≡ some (taken, d))
    × (d.current_data.totp_token ≡ token_cache.previous_data.totp_token)
    × (d.previous_data.totp_token ≡ token_cache.current_data.totp_token)
evaluate-swaps_example =
    evaluate-swaps test_libraries test_types test_surroundings token_cache test_active
      (b'q' ∷ test_types.mfa) is_active refl (inl refl) tokens_differ

-- A lower timeout in front of a query that never times out.
abbrev test_timeouts : List Query
test_timeouts =
    test_query test_types.mfa (some (pos 300)) none
    ∷ test_query test_types.mfa (some totp_posture_check_no_timeout) none
    ∷ test_query test_types.mfa (some (pos 600)) none
    ∷ []

get_lowest_totp_timeout-IsLowest_example :
    IsLowest
      (get_lowest_totp_timeout test_types test_timeouts totp_posture_check_no_timeout)
      (behind_never (mfa_timeouts test_types test_timeouts))
get_lowest_totp_timeout-IsLowest_example =
    get_lowest_totp_timeout-IsLowest test_types test_timeouts (tt, (tt, (tt, tt)))

-- A router with posture checks and one without.
abbrev test_submitter : MultiSubmitter
test_submitter = record {
  legacy_session = false;
  router_conns =
      record { supports_posture_checks = true; sends_posture = λ rs. true }
      ∷ record { supports_posture_checks = false; sends_posture = λ rs. true }
      ∷ [];
  legacy_sends = λ rs. true;
}

abbrev test_responses : List Response
test_responses = domain_response [] (b'h' ∷ []) ∷ totp_response [] (b't' ∷ []) ∷ []

some_response : test_responses ≢ []
some_response e = cc

no_error : (send_posture_response_bulk test_submitter test_responses).1 ≡ none
unfolding send_posture_response_bulk
no_error = refl

send_posture_response_bulk-Reached_example :
    Reached test_submitter.legacy_sends 0 test_submitter.router_conns test_responses
      (send_posture_response_bulk test_submitter test_responses).0
send_posture_response_bulk-Reached_example =
    send_posture_response_bulk-Reached test_submitter test_responses refl some_response no_error

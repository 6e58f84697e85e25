-- ===== src/Edge/Posture/Evaluate.antt =====
-- zt/edge/posture/cache.go: Evaluate, the window in which a TOTP token is asked for, and the sending
-- of responses.
use sdk_golang.Common.{
  ℕ, suc, ◌+◌, ◌*◌, ◌%◌, ◌^◌, Bool, true, false, Option, none, some, List, [], ◌∷◌, ltb, ◌==◌,
  if◌then◌else◌, length,
}
use sdk_golang.Common.Text.{Text}
use sdk_golang.Common.Int.{ℤ, eq_int, int64_of, pos_part, neg_part}
use sdk_golang.Edge.Posture.{
  CheckTypes, Libraries, ProcessInfo, Service, ActiveQueries, TotpToken, CacheData, Response,
  get_active_query_info, new_cache_data, get_changed_responses, totp_posture_check_no_timeout,
}

-- What comes of a request for a TOTP token: there is no channel, or a token, an error or the close
-- of the cache comes first.
pub data TotpReply : Type 0 where
  no_channel : TotpReply
  token_result : TotpToken → TotpReply
  token_error : TotpReply
  close_notified : TotpReply

-- What the controller or the router makes of a bulk submission.
pub data BulkResult : Type 0 where
  bulk_taken : BulkResult
  bulk_not_found : BulkResult
  bulk_refused : BulkResult

-- What the providers say at the time of an evaluation. `clean_mac` is TrimSpace and ToLower.
pub record Surroundings : Type 0 where
  pub dial_services : List Service
  pub bind_services : List Service
  pub os_type : Text
  pub os_version : Text
  pub domain : Text
  pub mac_addresses : List Text
  pub clean_mac : Text → Text
  pub process_info : Text → ProcessInfo
  pub totp_provider : Option TotpReply
  pub now : ℕ
  pub submit_bulk : List Response → BulkResult
  pub submit_one : Response → Bool

-- SendResponses: the responses that were taken, how many errors there are, and whether single
-- submissions are made from now on.
pub record Sending : Type 0 where
  pub taken : List Response
  pub errors : ℕ
  pub singles : Bool

unfoldable pub send_singles : (Response → Bool) → List Response → Sending
send_singles submit [] = record { taken = []; errors = 0; singles = true }
send_singles submit (r ∷ rs) =
    let rest = send_singles submit rs in
    if submit r
    then record rest { taken = r ∷ rest.taken }
    else record rest { errors = suc rest.errors }

abbrev pub send_bulk : BulkResult → (Response → Bool) → List Response → Sending
send_bulk bulk_taken submit rs = record { taken = rs; errors = 0; singles = false }
send_bulk bulk_not_found submit rs = send_singles submit rs
send_bulk bulk_refused submit rs = record { taken = []; errors = 1; singles = false }

-- SendResponses
unfoldable pub send_responses : Surroundings → Bool → List Response → Sending
unfolding send_singles
send_responses w singles rs =
    if singles then send_singles w.submit_one rs else send_bulk (w.submit_bulk rs) w.submit_one rs

-- The colon
abbrev pub without_colons : Text → Text
without_colons [] = []
without_colons (c ∷ s) = if c == b':' then without_colons s else c ∷ without_colons s

-- sanitizeMacAddresses
unfoldable pub sanitize_mac_addresses : (Text → Text) → List Text → List Text
sanitize_mac_addresses clean [] = []
sanitize_mac_addresses clean (a ∷ rest) =
    without_colons (clean a) ∷ sanitize_mac_addresses clean rest

-- Nanoseconds of TotpAttemptDelta
abbrev pub totp_attempt_delta : ℕ
totp_attempt_delta = 300 * 1000000000

-- time.Duration(timeout)*time.Second - TotpAttemptDelta
unfoldable pub effective_timeout : ℤ → ℤ
effective_timeout timeout =
    let d = int64_of (pos_part timeout * 1000000000) (neg_part timeout * 1000000000) in
    int64_of (pos_part d) (neg_part d + totp_attempt_delta)

-- totpTimeoutWindowEntered, for the previous data's token
unfoldable pub totp_timeout_window_entered : ℤ → TotpToken → ℕ → Bool
unfolding effective_timeout
totp_timeout_window_entered timeout previous now =
    let d = effective_timeout timeout in
    if eq_int timeout totp_posture_check_no_timeout
    then false
    else if previous.issued_at == 0
    then true
    else if length previous.token == 0
    then true
    else ltb (previous.issued_at + pos_part d) (now + neg_part d)

module _ (lib : Libraries) (types : CheckTypes) where
  pub record Cache : Type 0 where
    pub current_data : CacheData lib
    pub previous_data : CacheData lib
    pub do_single_submissions : Bool
    pub totp_timeout : ℤ

  -- NewCache
  unfoldable pub new_cache : Cache
  unfolding new_cache_data
  new_cache = record {
    current_data = record (new_cache_data lib) { index = 1 };
    previous_data = new_cache_data lib;
    do_single_submissions = false;
    totp_timeout = totp_posture_check_no_timeout;
  }

  -- SetTotpToken, onWake and OnUnlock
  unfoldable pub set_totp_token : TotpToken → Cache → Cache
  set_totp_token token c = record c { current_data = record c.current_data { totp_token = token } }

  unfoldable pub set_on_wake : ℕ → Cache → Cache
  set_on_wake at c = record c { current_data = record c.current_data { on_wake = at } }

  unfoldable pub set_on_unlock : ℕ → Cache → Cache
  set_on_unlock at c = record c { current_data = record c.current_data { on_unlock = at } }

  -- The processes that are asked for, with what the provider says of them.
  abbrev pub watch : (Text → ProcessInfo) → List (Text × Text) → lib.ProcessMap → lib.ProcessMap
  watch info [] m = m
  watch info ((path, id) ∷ active) m =
      watch info active (lib.set path (record (info path) { query_id = id }) m)

  -- The candidate's token: the previous data's, or a new one. `none` ends the evaluation.
  abbrev pub candidate_token : Bool → Option TotpReply → TotpToken → Option TotpToken
  candidate_token false reply previous = some previous
  candidate_token true none previous = some previous
  candidate_token true (some no_channel) previous = some previous
  candidate_token true (some (token_result t)) previous = some t
  candidate_token true (some token_error) previous = some previous
  candidate_token true (some close_notified) previous = none

  -- The data of the providers.
  unfoldable pub candidate_data : Surroundings → ActiveQueries → TotpToken → Cache → CacheData lib
  unfolding new_cache_data sanitize_mac_addresses
  candidate_data w active token c = record (new_cache_data lib) {
    index = (c.current_data.index + 1) % 2 ^ 64;
    os_type = w.os_type;
    os_version = w.os_version;
    domain = w.domain;
    mac_addresses = sanitize_mac_addresses w.clean_mac w.mac_addresses;
    processes = watch w.process_info active.active_processes lib.new_map;
    totp_token = token;
  }

  -- What Evaluate does with the responses.
  unfoldable pub submit_changes :
      Surroundings → CacheData lib → List Response → Cache → List Response × Cache
  unfolding send_responses
  submit_changes w candidate [] c = ([], c)
  submit_changes w candidate (r ∷ rs) c =
      let sending = send_responses w c.do_single_submissions (r ∷ rs) in
      (
        sending.taken,
        record c {
          previous_data = c.current_data;
          current_data = record candidate { responses = r ∷ rs };
          do_single_submissions = sending.singles;
        },
      )

  abbrev pub evaluate_token :
      Surroundings → ActiveQueries → Option TotpToken → Cache → List Response × Cache
  evaluate_token w active none c = ([], c)
  evaluate_token w active (some token) c =
      let candidate = candidate_data w active token c in
      submit_changes w candidate
        (get_changed_responses lib types c.current_data candidate active.query_types) c

  unfoldable pub evaluate_active : Surroundings → ActiveQueries → Cache → List Response × Cache
  unfolding candidate_data submit_changes totp_timeout_window_entered get_changed_responses
  evaluate_active w active c =
      let timed : Cache = record c { totp_timeout = active.lowest_totp_timeout } in
      let entered =
        totp_timeout_window_entered timed.totp_timeout c.previous_data.totp_token w.now in
      evaluate_token w active (candidate_token entered w.totp_provider c.previous_data.totp_token)
        timed

  -- Evaluate: the responses that were taken and the cache behind it, or `none` where it panics.
  unfoldable pub evaluate : Surroundings → Cache → Option (List Response × Cache)
  unfolding evaluate_active get_active_query_info
  evaluate w c = elim (get_active_query_info types w.dial_services w.bind_services) [
    | none ↦ none
    | some active ↦ some (evaluate_active w active c)
  ]

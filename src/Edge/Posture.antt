-- ===== src/Edge/Posture.antt =====
-- zt/edge/posture/cache.go: which posture data the services in use ask for, and which responses a
-- change of the data makes. The files below this one hold Evaluate and the submitter.
pub mod Evaluate
pub mod View
pub mod Processes
pub mod Sync
pub mod Reports
pub mod Tokens
pub mod Timeouts
pub mod Submitter
use sdk_golang.Common.{
  ℕ, zero, suc, ◌+◌, ◌*◌, ◌≡◌, Bool, true, false, not, ◌&&◌, ◌||◌, Option, none, some, List, [],
  ◌∷◌, ◌++◌, map, ltb, ◌==◌, if◌then◌else◌, length,
}
use sdk_golang.Common.Text.{Text, str_eq, get, put, Keyed}
use sdk_golang.Common.Int.{ℤ, pos, negsuc, ltb_int, eq_int, int64_of, pos_part, neg_part}

-- edge-api's rest_model: the names of the posture checks and of the policies.
pub record CheckTypes : Type 0 where
  pub mfa : Text
  pub os : Text
  pub mac : Text
  pub domain : Text
  pub process : Text
  pub process_multi : Text
  pub dial : Text
  pub bind : Text

pub record ProcessInfo : Type 0 where
  pub is_running : Bool
  pub hash : Text
  pub signer_fingerprints : List Text
  pub query_id : Text

-- github.com/orcaman/concurrent-map/v2 from paths to processes, and EqualSlices of foundation's
-- stringz.
pub record Libraries : Type 1 where
  pub ProcessMap : Type 0
  pub new_map : ProcessMap
  pub lookup : Text → ProcessMap → Option ProcessInfo
  pub set : Text → ProcessInfo → ProcessMap → ProcessMap
  pub items : ProcessMap → List (Text × ProcessInfo)
  pub equal_slices : List Text → List Text → Bool
  pub lookup-items : (k : Text) (m : ProcessMap) → lookup k m ≡ get k (items m)
  pub items-new_map : items new_map ≡ []
  pub lookup-set :
      (j k : Text) (p : ProcessInfo) (m : ProcessMap)
      → lookup j (set k p m) ≡ (if str_eq k j then some p else lookup j m)
  pub items-Keyed : (m : ProcessMap) → Keyed (items m)
  pub equal_slices-true : (a b : List Text) → equal_slices a b ≡ true → a ≡ b

-- A posture query; `process` is the path of its process, of which there may be none.
pub record Query : Type 0 where
  pub id : Text
  pub query_type : Text
  pub timeout : Option ℤ
  pub process : Option Text
  pub processes : List Text

pub record QueryState : Type 0 where
  pub policy_type : Text
  pub queries : List Query

-- A service, by its posture queries.
pub record Service : Type 0 where
  pub posture_queries : List QueryState

-- The query types and processes that are asked for, with the id of a query each, and the timeout of
-- a TOTP check.
pub record ActiveQueries : Type 0 where
  pub query_types : List (Text × Text)
  pub active_processes : List (Text × Text)
  pub lowest_totp_timeout : ℤ

-- TotpPostureCheckNoTimeout
abbrev pub totp_posture_check_no_timeout : ℤ
totp_posture_check_no_timeout = negsuc 0

module _ (types : CheckTypes) where
  abbrev pub lower : Option ℤ → ℤ → ℤ
  lower none cur = cur
  lower (some t) cur =
      if eq_int cur totp_posture_check_no_timeout && not (eq_int t totp_posture_check_no_timeout)
      then t
      else if ltb_int t cur
      then t
      else cur

  -- getLowestTotpTimeout
  unfoldable pub get_lowest_totp_timeout : List Query → ℤ → ℤ
  get_lowest_totp_timeout [] cur = cur
  get_lowest_totp_timeout (q ∷ qs) cur =
      get_lowest_totp_timeout qs
        (if str_eq q.query_type types.mfa then lower q.timeout cur else cur)

  abbrev pub put_all : List Text → Text → List (Text × Text) → List (Text × Text)
  put_all [] id m = m
  put_all (path ∷ paths) id m = put_all paths id (put path id m)

  -- A PROCESS query without a process makes the code panic, which is `none`.
  abbrev pub add_process : Option Text → Text → ActiveQueries → Option ActiveQueries
  add_process none id a = none
  add_process (some path) id a = some (record a {
    query_types = put types.os id a.query_types;
    active_processes = put path id a.active_processes;
  })

  unfoldable pub add_query : Query → ActiveQueries → Option ActiveQueries
  add_query q a =
      let typed : ActiveQueries = record a { query_types = put q.query_type q.id a.query_types } in
      if str_eq q.query_type types.process
      then add_process q.process q.id typed
      else if str_eq q.query_type types.process_multi
      then some (record typed {
        query_types = put types.os q.id typed.query_types;
        active_processes = put_all q.processes q.id typed.active_processes;
      })
      else some typed

  infixl 5 ◌then_add◌
  abbrev pub ◌then_add◌ :
      Option ActiveQueries → (ActiveQueries → Option ActiveQueries) → Option ActiveQueries
  none then_add f = none
  (some a) then_add f = f a

  -- addQueryInfoToMaps
  unfoldable pub add_query_info_to_maps : List Query → ActiveQueries → Option ActiveQueries
  unfolding add_query
  add_query_info_to_maps [] a = some a
  add_query_info_to_maps (q ∷ qs) a = add_query q a then_add add_query_info_to_maps qs

  -- The queries of a state of the policy type.
  unfoldable pub add_state : List Query → ActiveQueries → Option ActiveQueries
  unfolding add_query_info_to_maps get_lowest_totp_timeout
  add_state queries a = add_query_info_to_maps queries a then_add λ b.
      some
        (record b { lowest_totp_timeout = get_lowest_totp_timeout queries b.lowest_totp_timeout })

  unfoldable pub add_states : Text → List QueryState → ActiveQueries → Option ActiveQueries
  unfolding add_state
  add_states policy [] a = some a
  add_states policy (st ∷ sts) a =
      let added = if str_eq st.policy_type policy then add_state st.queries a else some a in
      added then_add add_states policy sts

  unfoldable pub add_services : Text → List Service → ActiveQueries → Option ActiveQueries
  unfolding add_states
  add_services policy [] a = some a
  add_services policy (service ∷ services) a =
      add_states policy service.posture_queries a then_add add_services policy services

  -- getActiveQueryInfo
  unfoldable pub get_active_query_info : List Service → List Service → Option ActiveQueries
  unfolding add_services
  get_active_query_info dials binds =
      add_services types.dial dials (record {
        query_types = [];
        active_processes = [];
        lowest_totp_timeout = totp_posture_check_no_timeout;
      })
      then_add add_services types.bind binds

-- What is sent: the id of the query and the data.
pub data Response : Type 0 where
  endpoint_state : Text → Bool → Bool → Response
  domain_response : Text → Text → Response
  totp_response : Text → Text → Response
  mac_response : Text → List Text → Response
  os_response : Text → Text → Text → Response
  process_response : Text → Text → ProcessInfo → Response

-- TotpTokenResult; times are nanoseconds, and 0 is Go's zero time.
pub record TotpToken : Type 0 where
  pub token : Text
  pub issued_at : ℕ

module _ (lib : Libraries) where
  pub record CacheData : Type 0 where
    pub processes : lib.ProcessMap
    pub mac_addresses : List Text
    pub os_type : Text
    pub os_version : Text
    pub domain : Text
    pub totp_token : TotpToken
    pub on_wake : ℕ
    pub on_unlock : ℕ
    pub index : ℕ
    pub responses : List Response

  -- NewCacheData
  unfoldable pub new_cache_data : CacheData
  new_cache_data = record {
    processes = lib.new_map;
    mac_addresses = [];
    os_type = [];
    os_version = [];
    domain = [];
    totp_token = record { token = []; issued_at = 0 };
    on_wake = 0;
    on_unlock = 0;
    index = 0;
    responses = [];
  }

  -- The response for a type that is asked for.
  abbrev pub respond : Option Text → (Text → Response) → List Response
  respond none make = []
  respond (some id) make = make id ∷ []

  abbrev pub process_changed : Option ProcessInfo → ProcessInfo → Bool
  process_changed none p = true
  process_changed (some cur) p =
      not (if cur.is_running then p.is_running else not p.is_running)
      || not (str_eq cur.hash p.hash)
      || not (lib.equal_slices cur.signer_fingerprints p.signer_fingerprints)

  -- The processes of the map in the order of the iteration.
  abbrev pub process_responses : lib.ProcessMap → List (Text × ProcessInfo) → List Response
  process_responses current [] = []
  process_responses current ((path, p) ∷ ps) =
      if process_changed (lib.lookup path current) p
      then process_response p.query_id path p ∷ process_responses current ps
      else process_responses current ps

  module _ (types : CheckTypes) where
    -- A response where the data changed.
    abbrev pub changed : Bool → Text → (Text → Response) → List (Text × Text) → List Response
    changed same query_type make active = if same then [] else respond (get query_type active) make

    -- The parts of GetChangedResponses.
    abbrev pub endpoint_part : CacheData → CacheData → List (Text × Text) → List Response
    endpoint_part cur new =
        changed (cur.on_wake == new.on_wake && cur.on_unlock == new.on_unlock) types.mfa (λ id.
          endpoint_state id (not (cur.on_unlock == new.on_unlock))
            (not (cur.on_wake == new.on_wake)))

    abbrev pub domain_part : CacheData → CacheData → List (Text × Text) → List Response
    domain_part cur new =
        changed (str_eq cur.domain new.domain) types.domain (λ id. domain_response id new.domain)

    abbrev pub totp_part : CacheData → CacheData → List (Text × Text) → List Response
    totp_part cur new =
        changed (str_eq cur.totp_token.token new.totp_token.token) types.mfa
          (λ id. totp_response id new.totp_token.token)

    abbrev pub mac_part : CacheData → CacheData → List (Text × Text) → List Response
    mac_part cur new =
        changed (lib.equal_slices cur.mac_addresses new.mac_addresses) types.mac
          (λ id. mac_response id new.mac_addresses)

    abbrev pub os_part : CacheData → CacheData → List (Text × Text) → List Response
    os_part cur new =
        changed (str_eq cur.os_version new.os_version && str_eq cur.os_type new.os_type) types.os
          (λ id. os_response id new.os_type new.os_version)

    unfoldable pub changed_responses : CacheData → CacheData → List (Text × Text) → List Response
    changed_responses cur new active =
        endpoint_part cur new active
        ++ domain_part cur new active
        ++ totp_part cur new active
        ++ mac_part cur new active
        ++ os_part cur new active
        ++ process_responses cur.processes (lib.items new.processes)

    -- GetChangedResponses
    unfoldable pub get_changed_responses :
        CacheData → CacheData → List (Text × Text) → List Response
    unfolding changed_responses
    get_changed_responses cur new active =
        if (length active == 0) && (length (lib.items new.processes) == 0)
        then []
        else changed_responses cur new active

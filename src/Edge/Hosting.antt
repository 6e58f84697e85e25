-- ===== src/Edge/Hosting.antt =====
-- zt/edge/network/hosting_conn.go: edgeHostConn, which accepts the dials of a hosted service, with
-- newConnHandler of zt/edge/network/conn.go.
pub mod Dials
pub mod Accepts
use sdk_golang.Common.{
  ℕ, suc, ◌+◌, ◌≡◌, Bool, true, false, not, Option, none, some, List, [], ◌∷◌, ltb, ◌==◌,
  if◌then◌else◌,
}
use sdk_golang.Common.Text.{Text, str_eq}
use sdk_golang.Common.Outcome.{Outcome, ok, err, panic, stuck, ◌>>=◌}
use sdk_golang.Edge.Mux.{ConcurrentMap, ConnMux, AddError, add, get_next_id, remove_by_conn_id}

-- Why a dial is refused.
pub data Refusal : Type 0 where
  invalid_token id_already_in_use no_flow_control no_crypto_session not_started : Refusal
  accept_failed : Refusal

-- What the hosting connection does: it replies to a dial, sends that a connection is closed, closes
-- the peer of a connection's Xgress, writes a crypto header, hands a connection to Accept, unbinds,
-- tells Accept that it is closed, and tells its listener of an event.
pub data HostEvent : Type 0 where
  dial_failed : Refusal → HostEvent
  dial_success : ℕ → HostEvent
  state_closed : ℕ → HostEvent
  xg_peer_closed : ℕ → HostEvent
  crypto_header : List ℕ → HostEvent
  handed_over : ℕ → HostEvent
  unbound : HostEvent
  accept_ended : HostEvent
  listener_established : HostEvent
  listener_start_over : HostEvent
  listener_not_retriable : HostEvent

-- A dial request, by what is read of the message.
pub record DialRequest : Type 0 where
  pub token : Text
  pub router_provided_id : Option ℕ
  pub use_xgress : Bool
  pub ctrl_id : Option Text
  pub address : Option Text
  pub client_key : Option (List ℕ)

-- What comes of the reply that a dial succeeded: it is not sent, or it is and the router answers
-- that the connection starts, or something else.
pub data StartReply : Type 0 where
  send_error : StartReply
  state_connected : StartReply
  other_reply : StartReply

-- What is outside of the connection: the channel's default underlays, the key exchange with the
-- encryptor's header, the reply, and whether the crypto header is written. Other messages are given to
-- the sender, and an error of it is logged.
pub record HostEnv : Type 0 where
  pub default_connections : ℕ
  pub server_header : List ℕ → Option (List ℕ)
  pub start_reply : StartReply
  pub header_written : Bool

-- A connection that is made for a dial.
pub record Child : Type 0 where
  pub id : ℕ
  pub has_xg : Bool
  pub closed : Bool

-- What dialSucceeded returns: no error, or an error and whether it has cleaned up.
pub data Started : Type 0 where
  started : Started
  failed : Bool → Started

-- A message for the hosting connection, with the retry hint of a router's error.
pub data RetryHint : Type 0 where
  retry_default : RetryHint
  retry_start_over : RetryHint
  retry_not_retriable : RetryHint

pub data HostMessage : Type 0 where
  dial : DialRequest → HostMessage
  closed_by_router : Option RetryHint → HostMessage
  bind_success : HostMessage
  other_message : HostMessage

module _ {Sink : Type 0} (cm : ConcurrentMap Sink) (child_sink : ℕ → Sink) where
  pub record HostConn : Type 0 where
    pub id : ℕ
    pub mux : ConnMux cm
    pub token : Text
    pub crypto : Bool
    pub manual_start : Bool
    pub closed : Bool
    pub established : Bool
    pub events : List HostEvent

  abbrev pub report : HostEvent → HostConn → HostConn
  report e h = record h { events = e ∷ h.events }

  -- close of the child connection.
  unfoldable pub close_child : Bool → Child → HostConn → HostConn
  close_child notify c h =
      let told = if notify then report (state_closed c.id) h else h in
      if c.closed
      then h
      else if c.has_xg
      then report (xg_peer_closed c.id) h
      else record told { mux = remove_by_conn_id cm c.id told.mux }

  -- cleanupAndReportError
  unfoldable pub refuse : Refusal → Child → HostConn → HostConn
  unfolding close_child
  refuse reason c h = report (dial_failed reason) (close_child false c h)

  -- The crypto header of a child, or that the session fails. There is no header without a key of
  -- the client.
  unfoldable pub child_header : HostEnv → DialRequest → HostConn → Option (Option (List ℕ))
  child_header env d h =
      let exchanged : Option (Option (List ℕ)) = elim d.client_key [
        | none ↦ some none
        | some key ↦ elim (env.server_header key) [ none ↦ none | some header ↦ some (some header) ]
      ] in
      if h.crypto then exchanged else some none

  -- The part of dialSucceeded behind the reply.
  unfoldable pub write_header : HostEnv → Option (List ℕ) → Child → HostConn → Started × HostConn
  unfolding close_child
  write_header env none c h = (started, h)
  write_header env (some header) c h =
      if env.header_written
      then (started, report (crypto_header header) h)
      else (failed true, close_child true c h)

  -- newConnHandler.dialSucceeded
  unfoldable pub dial_succeeded :
      HostEnv → StartReply → Bool → Option (List ℕ) → Child → HostConn → Started × HostConn
  unfolding write_header
  dial_succeeded env send_error provided header c h = (failed false, h)
  dial_succeeded env state_connected provided header c h =
      write_header env header c (report (dial_success c.id) h)
  dial_succeeded env other_reply true header c h =
      write_header env header c (report (dial_success c.id) h)
  dial_succeeded env other_reply false header c h =
      (failed true, close_child true c (report (dial_success c.id) h))

  -- A child whose dial is answered goes to Accept.
  abbrev pub hand_over : Child → Started × HostConn → HostConn
  hand_over c (started, h) = report (handed_over c.id) h
  hand_over c (failed true, h) = h
  hand_over c (failed false, h) = refuse not_started c h

  unfoldable pub start_child :
      HostEnv → Bool → Option (Option (List ℕ)) → Child → HostConn → HostConn
  unfolding dial_succeeded refuse
  start_child env provided (some header) c h =
      if h.manual_start
      then report (handed_over c.id) h
      else hand_over c (dial_succeeded env env.start_reply provided header c h)
  start_child env provided none c h = refuse no_crypto_session c h

  -- setupFlowControl, with what follows it on each branch. Without a header that is needed, the
  -- child is closed with a message before the error is reported.
  unfoldable pub setup_child : HostEnv → Bool → DialRequest → Child → HostConn → HostConn
  unfolding start_child child_header
  setup_child env provided d c h =
      let header_missing : HostConn =
        refuse no_flow_control (record c { closed = true }) (close_child true c h) in
      let with_xg : HostConn =
        start_child env provided (child_header env d h) (record c { has_xg = true }) h in
      let with_address : HostConn = elim d.address [
        | none ↦ header_missing
        | some address ↦ with_xg
      ] in
      if d.use_xgress
      then elim d.ctrl_id [ none ↦ header_missing | some ctrl_id ↦ with_address ]
      else if ltb 1 env.default_connections
      then refuse no_flow_control c h
      else start_child env provided (child_header env d h) c h

  -- The child of an id.
  unfoldable pub add_child : HostEnv → Bool → DialRequest → ℕ → HostConn → HostConn
  unfolding setup_child
  add_child env provided d id h =
      let c : Child = record { id = id; has_xg = false; closed = false } in
      elim (add cm id (child_sink id) h.mux) [
        | ok mux ↦ setup_child env provided d c (record h { mux = mux })
        | err e ↦ refuse id_already_in_use c h
        | panic ↦ h
        | stuck ↦ h
      ]

  -- newChildConnection
  unfoldable pub new_child_connection : HostEnv → DialRequest → HostConn → Outcome AddError HostConn
  unfolding add_child
  new_child_connection env d h =
      let own_id =
        get_next_id cm h.mux >>= λ r. ok (add_child env false d r.0 (record h { mux = r.1 })) in
      if not (str_eq h.token d.token)
      then ok (report (dial_failed invalid_token) h)
      else elim d.router_provided_id [ none ↦ own_id | some id ↦ ok (add_child env true d id h) ]

  -- CompleteAcceptSuccess and CompleteAcceptFailed of a child that waits for them.
  unfoldable pub complete_accept_success :
      HostEnv → Bool → Option (List ℕ) → Child → HostConn → HostConn
  unfolding dial_succeeded refuse
  complete_accept_success env provided header c h =
      let (result, after) = dial_succeeded env env.start_reply provided header c h in
      elim result [
        | started ↦ after
        | failed true ↦ after
        | failed false ↦ refuse not_started c after
      ]

  abbrev pub complete_accept_failed : HostConn → HostConn
  complete_accept_failed h = report (dial_failed accept_failed) h

  -- close
  unfoldable pub close_host : Bool → HostConn → HostConn
  close_host by_remote h =
      let shut : HostConn = record h { closed = true } in
      let told = report (state_closed h.id) (report unbound shut) in
      if h.closed then h else report accept_ended (if by_remote then shut else told)

  abbrev pub tell_listener : Option RetryHint → HostConn → HostConn
  tell_listener (some retry_start_over) h = report listener_start_over h
  tell_listener (some retry_not_retriable) h = report listener_not_retriable h
  tell_listener _ h = h

  -- AcceptMessage
  unfoldable pub accept_host_message : HostEnv → HostMessage → HostConn → Outcome AddError HostConn
  unfolding new_child_connection close_host
  accept_host_message env (dial d) h = new_child_connection env d h
  accept_host_message env (closed_by_router hint) h = ok (close_host true (tell_listener hint h))
  accept_host_message env bind_success h =
      ok (report listener_established (record h { established = true }))
  accept_host_message env other_message h = ok h

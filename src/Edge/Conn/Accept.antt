-- ===== src/Edge/Conn/Accept.antt =====
-- zt/edge/network/conn.go: what edgeConn does with the messages that the multiplexer gives it, and
-- when its channel or its multiplexer closes.
use sdk_golang.Common.{
  ℕ, ◌-◌, Bool, true, false, ◌&&◌, Option, none, some, List, [], ◌∷◌, ◌++◌, ltb, ◌==◌,
  if◌then◌else◌,
}
use sdk_golang.Common.Map.{lookup}
use sdk_golang.Common.Outcome.{Outcome, ok}
use sdk_golang.Xgress.Channel.{Message, Channel, get_header, put_header}
use sdk_golang.Xgress.Messages.{Payload, Acknowledgement}
use sdk_golang.Xgress.Messages.Codec.{unmarshall_payload, unmarshall_acknowledgement}
use sdk_golang.Xgress.Wire.{WireError}
use sdk_golang.Xgress.Lifecycle.{calls_close, calls_close_send_buffer}
use sdk_golang.Edge.Messages.{
  content_type_state_closed, content_type_xg_payload, content_type_xg_acknowledgement,
  content_type_conn_inspect_request, content_type_inspect_request, content_type_trace_route,
  uuid_header, conn_id_header, timestamp_header, trace_hop_count_header,
  trace_source_request_id_header, or_zero, new_trace_route_response_msg,
}
use sdk_golang.Edge.Conn.{
  SecretStream, Env, Conn, ConnEvent, log, answered, called, gave_payload, gave_ack, close,
}

-- "sdk/golang"
abbrev pub sdk_hop_type : List ℕ
sdk_hop_type = b's' ∷ b'd' ∷ b'k' ∷ b'/' ∷ b'g' ∷ b'o' ∷ b'l' ∷ b'a' ∷ b'n' ∷ b'g' ∷ []

module _ (s : SecretStream) (ch : Channel) (env : Env) where
  -- What the Xgress of the connection is given, or its Close if it cannot be given.
  abbrev pub give : Bool → ConnEvent → Conn s → Conn s
  give takes e c = if takes then log s e c else log s (called calls_close) c

  unfoldable pub give_payload : Outcome WireError Payload → Conn s → Conn s
  give_payload (ok payload) c = give (env.xg_takes_payload payload) (gave_payload payload) c
  give_payload _ c = log s (called calls_close) c

  -- HandleXgPayload
  unfoldable pub handle_xg_payload : Message → Conn s → Conn s
  unfolding give_payload
  handle_xg_payload msg c = if c.has_xg then give_payload (unmarshall_payload ch msg) c else c

  unfoldable pub give_acknowledgement : Outcome WireError Acknowledgement → Conn s → Conn s
  give_acknowledgement (ok ack) c = give (env.xg_takes_ack ack) (gave_ack ack) c
  give_acknowledgement _ c = log s (called calls_close) c

  -- HandleXgAcknowledgement
  unfoldable pub handle_xg_acknowledgement : Message → Conn s → Conn s
  unfolding give_acknowledgement
  handle_xg_acknowledgement msg c =
      if c.has_xg then give_acknowledgement (unmarshall_acknowledgement ch msg) c else c

  abbrev pub copy_uuid : Option (List ℕ) → Message → Message
  copy_uuid none resp = resp
  copy_uuid (some uuid) resp = put_header uuid_header uuid resp

  -- The answer to a ContentTypeTraceRoute message.
  unfoldable pub trace_route_answer : Message → Message
  unfolding new_trace_route_response_msg
  trace_route_answer msg =
      let hops = or_zero (get_header ch.uint32_of_bytes trace_hop_count_header msg) in
      let ts = or_zero (get_header ch.uint64_of_bytes timestamp_header msg) in
      let conn_id = or_zero (get_header ch.uint32_of_bytes conn_id_header msg) in
      let request = or_zero (get_header ch.uint32_of_bytes trace_source_request_id_header msg) in
      let left = if ltb 0 hops then hops - 1 else hops in
      copy_uuid (lookup uuid_header msg.headers) (
        put_header trace_source_request_id_header (ch.bytes_of_uint32 request)
          (new_trace_route_response_msg ch conn_id left ts sdk_hop_type []))

  -- PutSequenced once the queue has room. On a connection that is closed the select may also choose
  -- to drop the message.
  unfoldable pub put_sequenced : Bool → Message → Conn s → Conn s
  put_sequenced drops m c =
      if c.closed && drops then c else record c { read_q = c.read_q ++ m ∷ [] }

  -- AcceptMessage
  unfoldable pub accept_message : Bool → Message → Conn s → Conn s
  unfolding handle_xg_payload handle_xg_acknowledgement trace_route_answer put_sequenced
  accept_message drops msg c =
      let halved : Conn s =
        record (if c.has_xg then log s (called calls_close_send_buffer) c else c) {
          sent_fin = true;
        } in
      if msg.content_type == content_type_conn_inspect_request
      then log s (answered msg) c
      else if msg.content_type == content_type_xg_payload
      then handle_xg_payload msg c
      else if msg.content_type == content_type_xg_acknowledgement
      then handle_xg_acknowledgement msg c
      else if msg.content_type == content_type_state_closed
      then if c.closed then c else put_sequenced drops msg halved
      else if msg.content_type == content_type_inspect_request
      then log s (answered msg) c
      else if msg.content_type == content_type_trace_route
      then log s (answered (trace_route_answer msg)) c
      else put_sequenced drops msg c

  -- HandleMuxClose
  unfoldable pub handle_mux_close : Conn s → Conn s
  unfolding close
  handle_mux_close c =
      let shut = close s ch env false c in
      if c.has_xg then log s (called calls_close) shut else shut

  -- HandleClose
  unfoldable pub handle_close : Conn s → Conn s
  unfolding close
  handle_close c =
      let shut = close s ch env false c in
      if c.has_xg then log s (called calls_close_send_buffer) shut else shut

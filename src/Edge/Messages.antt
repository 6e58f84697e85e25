-- ===== src/Edge/Messages.antt =====
-- zt/edge/messages.go and MsgChannel of zt/edge/conn.go: the messages of edge connections.
use sdk_golang.Common.{ℕ, Option, none, some, List, [], ◌∷◌}
use sdk_golang.Xgress.Channel.{Message, Channel, put_header, new_message}

abbrev pub content_type_xg_payload : ℕ
content_type_xg_payload = 1100

abbrev pub content_type_state_closed : ℕ
content_type_state_closed = 60785

abbrev pub content_type_conn_inspect_request : ℕ
content_type_conn_inspect_request = 60798

abbrev pub content_type_inspect_request : ℕ
content_type_inspect_request = 60804

abbrev pub conn_id_header : ℕ
conn_id_header = 1000

abbrev pub seq_header : ℕ
seq_header = 1001

abbrev pub content_type_xg_acknowledgement : ℕ
content_type_xg_acknowledgement = 1101

abbrev pub content_type_data : ℕ
content_type_data = 60786

abbrev pub content_type_trace_route : ℕ
content_type_trace_route = 60796

abbrev pub content_type_trace_route_response : ℕ
content_type_trace_route_response = 60797

abbrev pub uuid_header : ℕ
uuid_header = 128

abbrev pub flags_header : ℕ
flags_header = 1010

abbrev pub timestamp_header : ℕ
timestamp_header = 1015

abbrev pub trace_hop_count_header : ℕ
trace_hop_count_header = 1016

abbrev pub trace_hop_type_header : ℕ
trace_hop_type_header = 1017

abbrev pub trace_hop_id_header : ℕ
trace_hop_id_header = 1018

abbrev pub trace_source_request_id_header : ℕ
trace_source_request_id_header = 1019

abbrev pub fin : ℕ
fin = 1

abbrev pub multipart : ℕ
multipart = 4

abbrev pub stream : ℕ
stream = 8

abbrev pub multipart_msg : ℕ
multipart_msg = 16

abbrev pub or_zero : Option ℕ → ℕ
or_zero none = 0
or_zero (some v) = v

abbrev pub put_headers : List (ℕ × List ℕ) → Message → Message
put_headers [] msg = msg
put_headers ((k, v) ∷ hdrs) msg = put_headers hdrs (put_header k v msg)

module _ (c : Channel) where
  -- newMsg
  unfoldable pub new_msg : ℕ → ℕ → List ℕ → Message
  new_msg content_type conn_id body =
      put_header conn_id_header (c.bytes_of_uint32 conn_id) (new_message content_type body)

  -- NewDataMsg
  unfoldable pub new_data_msg : ℕ → List ℕ → Message
  unfolding new_msg
  new_data_msg conn_id body = new_msg content_type_data conn_id body

  -- NewStateClosedMsg
  unfoldable pub new_state_closed_msg : ℕ → List ℕ → Message
  unfolding new_msg
  new_state_closed_msg conn_id reason = new_msg content_type_state_closed conn_id reason

  -- NewTraceRouteResponseMsg
  unfoldable pub new_trace_route_response_msg : ℕ → ℕ → ℕ → List ℕ → List ℕ → Message
  new_trace_route_response_msg conn_id hops timestamp hop_type hop_id =
      put_header trace_hop_id_header hop_id (
        put_header trace_hop_type_header hop_type (
          put_header timestamp_header (c.bytes_of_uint64 timestamp) (
            put_header trace_hop_count_header (c.bytes_of_uint32 hops) (
              put_header conn_id_header (c.bytes_of_uint32 conn_id)
                (new_message content_type_trace_route_response [])))))

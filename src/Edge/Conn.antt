-- ===== src/Edge/Conn.antt =====
-- zt/edge/network/conn.go: edgeConn, a connection over an edge router, with WriteTraced of
-- zt/edge/conn.go and the queue of zt/edge/network/seq.go.
pub mod Write
pub mod Accept
pub mod Content
pub mod Rounds
pub mod Reads
pub mod Sends
pub mod Streams
pub mod Lifecycle
use sdk_golang.Common.{
  ℕ, zero, suc, ◌+◌, ◌-◌, ◌*◌, ◌%◌, ◌^◌, ◌≡◌, Bool, true, false, not, ◌&&◌, ◌||◌, Option, none,
  some, List, [], ◌∷◌, ◌++◌, bit_and, bit_or, ltb, ◌==◌, if◌then◌else◌, length, take, drop,
}
use sdk_golang.Common.Outcome.{Outcome, ok, err, panic, stuck, ◌>>=◌}
use sdk_golang.Xgress.Channel.{Message, Channel, get_header, put_header}
use sdk_golang.Xgress.Messages.{Payload, Acknowledgement}
use sdk_golang.Xgress.Messages.Codec.{unmarshall_payload, unmarshall_acknowledgement}
use sdk_golang.Xgress.Lifecycle.{
  Call, calls_close, calls_close_send_buffer, calls_close_rx_timeout, calls_peer_closed,
}
use sdk_golang.Edge.Messages.{
  content_type_data, content_type_state_closed, content_type_xg_payload,
  content_type_xg_acknowledgement, content_type_conn_inspect_request, content_type_inspect_request,
  content_type_trace_route, flags_header, uuid_header, conn_id_header, seq_header, timestamp_header,
  trace_hop_count_header, trace_source_request_id_header, fin, multipart, stream, multipart_msg,
  or_zero, put_headers, new_data_msg, new_state_closed_msg, new_trace_route_response_msg,
}

-- github.com/hanzozt/secretstream: a stream is opened by a header, and each message that is pushed
-- is pulled by a decryptor that has seen all before it.
pub record SecretStream : Type 1 where
  pub Encryptor : Type 0
  pub Decryptor : Type 0
  pub header_bytes : ℕ
  pub new_encryptor : List ℕ → Option (Encryptor × List ℕ)
  pub new_decryptor : List ℕ → List ℕ → Option Decryptor
  pub push : List ℕ → Encryptor → Option (List ℕ × Encryptor)
  pub pull : List ℕ → Decryptor → Option (List ℕ × Decryptor)
  pub InSync : Encryptor → Decryptor → Type 0
  pub opened :
      (key header : List ℕ) (e : Encryptor)
      → new_encryptor key ≡ some (e, header)
      → (d : Decryptor) × (new_decryptor key header ≡ some d)
        × (length header ≡ header_bytes)
        × InSync e d
  pub pulled :
      (e e' : Encryptor) (d : Decryptor) (plain cipher : List ℕ)
      → InSync e d
      → push plain e ≡ some (cipher, e')
      → (d' : Decryptor) × (pull cipher d ≡ some (plain, d')) × InSync e' d'

-- What the connection does to its surroundings: a message goes to the router, bytes go to the
-- Xgress, the Xgress is called, gets a payload or an acknowledgement, its write deadline passes, the
-- notify channel is closed, the connection leaves the multiplexer, a request is answered.
pub data ConnEvent : Type 0 where
  sent_message : Message → ConnEvent
  sent_state : Message → ConnEvent
  wrote : List ℕ → ConnEvent
  called : Call → ConnEvent
  gave_payload : Payload → ConnEvent
  gave_ack : Acknowledgement → ConnEvent
  cancelled_writes closed_notify left_mux : ConnEvent
  answered : Message → ConnEvent

pub data ReadError : Type 0 where
  timed_out bad_crypto_header no_decryptor bad_cipher : ReadError

pub data WriteFailure : Type 0 where
  connection_closed closed_for_writes not_encrypted not_sent : WriteFailure

-- What Read returns, or that it waits, or panics; `read_stuck` is a model's loop without fuel.
pub data ReadResult : Type 0 where
  got : List ℕ → ReadResult
  eof : ReadResult
  failed : ReadError → ReadResult
  waits read_panics read_stuck : ReadResult

-- What the senders and the Xgress make of what they are given, and the next number of the sequence
-- of messages.
pub record Env : Type 0 where
  pub sends : Message → Bool
  pub next_seq : ℕ
  pub xg_writes : List ℕ → Bool
  pub xg_takes_payload : Payload → Bool
  pub xg_takes_ack : Acknowledgement → Bool

-- Slices of the body of a multipart message: a length of two bytes, low byte first, in front of each
-- part. The body is taken to have no capacity behind its end, where a slice panics. Each part takes
-- two bytes at least.
unfoldable pub split_parts : ℕ → List ℕ → Outcome ReadError (List (List ℕ))
split_parts fuel [] = ok []
split_parts zero (x ∷ xs) = stuck
split_parts (suc fuel) (x ∷ []) = panic
split_parts (suc fuel) (x ∷ y ∷ d) =
    let l = x + 256 * y in
    let rest = split_parts fuel (drop l d) in
    if ltb (length d) l then panic else rest >>= λ parts. ok (take l d ∷ parts)

-- `inBuffer` behind a copy of the first chunk into a slice of n bytes.
abbrev pub leftover : ℕ → List ℕ → List (List ℕ) → List (List ℕ)
leftover n first chunks = if length (drop n first) == 0 then chunks else drop n first ∷ chunks

module _ (s : SecretStream) where
  pub record Conn : Type 0 where
    pub id : ℕ
    pub in_buffer : List (List ℕ)
    pub read_q : List Message
    pub q_closed : Bool
    pub flags : ℕ
    pub closed : Bool
    pub read_fin : Bool
    pub sent_fin : Bool
    pub rx_key : Option (List ℕ)
    pub receiver : Option s.Decryptor
    pub sender : Option s.Encryptor
    pub has_xg : Bool
    pub first_msg_sent : Bool
    pub events : List ConnEvent

  -- NewDialConn and newChildConnection, before flow control and encryption are set up.
  unfoldable pub new_conn : ℕ → Bool → Conn
  new_conn id has_xg = record {
    id = id;
    in_buffer = [];
    read_q = [];
    q_closed = false;
    flags = 0;
    closed = false;
    read_fin = false;
    sent_fin = false;
    rx_key = none;
    receiver = none;
    sender = none;
    has_xg = has_xg;
    first_msg_sent = false;
    events = [];
  }

  abbrev pub log : ConnEvent → Conn → Conn
  log e c = record c { events = e ∷ c.events }

  -- A round of the loop in Read: it returns, or goes on.
  pub data Round : Type 0 where
    returns : ReadResult → Conn → Round
    goes_on : Conn → Round

  abbrev pub go_on : Round → (Conn → ReadResult × Conn) → ReadResult × Conn
  go_on (returns r c) next = (r, c)
  go_on (goes_on c) next = next c

  -- What Read returns for the chunks of a message; `inBuffer` is empty before.
  unfoldable pub read_chunks : ℕ → Outcome ReadError (List (List ℕ)) → Conn → Round
  read_chunks n (ok []) c = returns read_panics c
  read_chunks n (ok (first ∷ chunks)) c =
      returns (got (take n first)) (record c { in_buffer = c.in_buffer ++ leftover n first chunks })
  read_chunks n (err e) c = returns (failed e) c
  read_chunks n panic c = returns read_panics c
  read_chunks n stuck c = returns read_stuck c

  unfoldable pub read_plain : ℕ → Bool → List ℕ → Conn → Round
  unfolding read_chunks split_parts
  read_plain n parts d c =
      if parts && ltb 0 (length d)
      then read_chunks n (split_parts (length d) d) c
      else read_chunks n (ok (d ∷ [])) c

  -- A body behind the crypto header, for the pull of a receiver.
  unfoldable pub read_pulled : ℕ → Bool → Option (List ℕ × s.Decryptor) → Conn → Round
  unfolding read_plain
  read_pulled n parts none c = returns (failed bad_cipher) c
  read_pulled n parts (some (d, rx)) c = read_plain n parts d (record c { receiver = some rx })

  unfoldable pub read_received : ℕ → Bool → List ℕ → Option s.Decryptor → Conn → Round
  unfolding read_plain read_pulled
  read_received n parts d none c = read_plain n parts d c
  read_received n parts d (some rx) c = read_pulled n parts (s.pull d rx) c

  unfoldable pub open_stream : Option s.Decryptor → Conn → Round
  open_stream none c = returns (failed no_decryptor) (record c { receiver = none })
  open_stream (some rx) c = goes_on (record c { receiver = some rx; rx_key = none })

  -- A data message, for the key that is set until the crypto header has come.
  unfoldable pub read_data : ℕ → Bool → List ℕ → Option (List ℕ) → Conn → Round
  unfolding read_received open_stream
  read_data n parts d (some key) c =
      if (length d == 0) && c.read_fin
      then returns eof c
      else if not (length d == s.header_bytes)
      then returns (failed bad_crypto_header) c
      else open_stream (s.new_decryptor key d) c
  read_data n parts d none c =
      if (length d == 0) && c.read_fin then returns eof c else read_received n parts d c.receiver c

  module _ (ch : Channel) where
    abbrev pub message_flags : Message → ℕ
    message_flags m = or_zero (get_header ch.uint32_of_bytes flags_header m)

    abbrev pub has_flag : ℕ → ℕ → Bool
    has_flag flags flag = not (bit_and flags flag == 0)

    module _ (env : Env) where
      -- SendState: the message is numbered, and sent if the sender takes it.
      unfoldable pub send_state : Message → Conn → Conn
      send_state m c =
          let numbered = put_header seq_header (ch.bytes_of_uint32 env.next_seq) m in
          if env.sends numbered then log (sent_state numbered) c else c

      -- close
      unfoldable pub close : Bool → Conn → Conn
      unfolding send_state new_state_closed_msg
      close notify_ctrl c =
          let shut : Conn =
            log closed_notify (record c { closed = true; read_fin = true; sent_fin = true }) in
          let told : Conn =
            if notify_ctrl then send_state (new_state_closed_msg ch shut.id []) shut else shut in
          if c.closed
          then c
          else if c.has_xg
          then log (called calls_peer_closed) (log cancelled_writes shut)
          else log left_mux told

      -- The case of Read for a ContentTypeStateClosed message.
      unfoldable pub read_state_closed : Conn → Conn
      unfolding close
      read_state_closed c =
          let half : Conn = record c { read_fin = true } in
          if c.has_xg then if c.sent_fin then close false half else half else close false c

      -- The round of the loop for a message.
      unfoldable pub read_message : ℕ → Message → Conn → Round
      unfolding read_data read_state_closed
      read_message n m c =
          let flags = message_flags m in
          let seen : Conn = record c {
            read_fin = c.read_fin || has_flag flags fin;
            flags = bit_or c.flags (bit_and flags (bit_or stream multipart));
          } in
          if m.content_type == content_type_state_closed
          then goes_on (read_state_closed seen)
          else if m.content_type == content_type_data
          then read_data n (has_flag flags multipart_msg) m.body seen.rx_key seen
          else goes_on seen

      -- GetNext of the queue gives a queued message first, whatever else is ready; without one it
      -- times out, says that it is closed, or waits.
      abbrev pub read_empty : Bool → Conn → ReadResult × Conn
      read_empty expired c =
          if expired
          then (failed timed_out, c)
          else if c.q_closed || c.closed
          then (eof, record c { read_fin = true })
          else (waits, c)

      -- The loop of Read, over the messages that are queued.
      unfoldable pub read_loop : ℕ → Bool → List Message → Conn → ReadResult × Conn
      unfolding read_message
      read_loop n expired [] c = if c.read_fin then (eof, c) else read_empty expired c
      read_loop n expired (m ∷ q) c = elim c.read_fin [
        | true ↦ (eof, c)
        | false ↦ go_on (read_message n m (record c { read_q = q })) (read_loop n expired q)
      ]

      -- Read into a slice of n bytes.
      unfoldable pub read_buffered : ℕ → Bool → List (List ℕ) → Conn → ReadResult × Conn
      unfolding read_loop
      read_buffered n expired [] c = read_loop n expired c.read_q c
      read_buffered n expired (first ∷ chunks) c =
          (got (take n first), record c { in_buffer = leftover n first chunks })

      unfoldable pub read : ℕ → Bool → Conn → ReadResult × Conn
      unfolding read_buffered
      read n expired c = if c.closed then (eof, c) else read_buffered n expired c.in_buffer c

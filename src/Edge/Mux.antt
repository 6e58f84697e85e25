-- ===== src/Edge/Mux.antt =====
-- zt/edge/msg_mux.go: ConnMuxImpl, which routes the messages of a channel to connections by their
-- ids and gives out new ids.
pub mod NextId
pub mod Routing
pub mod Registry
use sdk_golang.Common.{
  ℕ, zero, suc, ◌+◌, ◌-◌, ◌*◌, ◌%◌, ◌^◌, ◌≡◌, Bool, true, false, not, ◌&&◌, ◌||◌, Option, none,
  some, List, [], ◌∷◌, ◌++◌, map, ltb, leb, ◌==◌, if◌then◌else◌, length,
}
use sdk_golang.Common.Words.{add32, max_uint32}
use sdk_golang.Common.Map.{lookup, insert, erase}
use sdk_golang.Common.Outcome.{Outcome, ok, err, panic, stuck, ◌>>=◌}
use sdk_golang.Xgress.Channel.{Message, Channel, get_header, put_header}
use sdk_golang.Xgress.Messages.{
  Payload, invert, get_originator, new_acknowledgement, is_circuit_end_flag_set, is_flag_eof_set,
}
use sdk_golang.Xgress.Messages.Codec.{unmarshall_payload, marshall_ack}
use sdk_golang.Xgress.Wire.{WireError}
use sdk_golang.Edge.Messages.{
  content_type_xg_payload, content_type_state_closed, content_type_conn_inspect_request,
  content_type_inspect_request, conn_id_header,
}

abbrev pub is_none : {A : Type 0} → Option A → Bool
is_none none = true
is_none (some a) = false

-- github.com/orcaman/concurrent-map, whose entries `items` lists: SetIfAbsent stores a value only
-- under a key that is not there.
pub record ConcurrentMap (V : Type 0) : Type 1 where
  pub Map : Type 0
  pub new_map : Map
  pub get : ℕ → Map → Option V
  pub set_if_absent : ℕ → V → Map → Bool × Map
  pub remove : ℕ → Map → Map
  pub items : Map → List (ℕ × V)
  pub count : Map → ℕ
  pub items-new_map : items new_map ≡ []
  pub get-items : (k : ℕ) (m : Map) → get k m ≡ lookup k (items m)
  pub set_if_absent-items :
      (k : ℕ) (v : V) (m : Map)
      → ((set_if_absent k v m).0 ≡ is_none (lookup k (items m)))
        × (items (set_if_absent k v m).1
            ≡ (if is_none (lookup k (items m)) then insert k v (items m) else items m))
  pub remove-items : (k : ℕ) (m : Map) → items (remove k m) ≡ erase k (items m)
  pub count-items : (m : Map) → count m ≡ length (items m)

-- What HandleReceive does with a message: a sink gets it, the inspection answers it, the peer is
-- told that the connection id is invalid, a message is sent, or nothing happens.
pub data Reaction (Sink : Type 0) : Type 0 where
  accepted : ℕ → Sink → Message → Reaction Sink
  inspected : Message → Reaction Sink
  answered_invalid : ℕ → Message → Reaction Sink
  sent : Message → Reaction Sink
  ignored : Reaction Sink

pub data AddError : Type 0 where
  mux_closed id_in_use : AddError

module _ {Sink : Type 0} (cm : ConcurrentMap Sink) where
  pub record ConnMux : Type 0 where
    pub closed : Bool
    pub sinks : cm.Map
    pub next_id : ℕ
    pub min_id : ℕ
    pub max_id : ℕ

  -- NewChannelConnMapMux
  unfoldable pub new_mux : ConnMux
  new_mux = record {
    closed = false;
    sinks = cm.new_map;
    next_id = 0;
    min_id = 0;
    max_id = 0x7fff_ffff - 1;
  }

  unfoldable pub has_conn : ℕ → ConnMux → Bool
  has_conn conn_id mux = not (is_none (cm.get conn_id mux.sinks))

  unfoldable pub get_active_conn_ids : ConnMux → List ℕ
  get_active_conn_ids mux = map (λ (e : ℕ × Sink). e.0) (cm.items mux.sinks)

  unfoldable pub get_conn_count : ConnMux → ℕ
  get_conn_count mux = cm.count mux.sinks

  unfoldable pub get_sinks : ConnMux → List (ℕ × Sink)
  get_sinks mux = cm.items mux.sinks

  -- The loop of GetNextId, on fuel: `id` is nextId, which is also in the mux.
  unfoldable pub next_id_loop : ℕ → ℕ → ConnMux → Outcome AddError (ℕ × ConnMux)
  next_id_loop zero id mux = stuck
  next_id_loop (suc fuel) id mux =
      let following = add32 id 1 in
      let reset = add32 mux.min_id 1 in
      let again = next_id_loop fuel following (record mux { next_id = following }) in
      let restarted = next_id_loop fuel reset (record mux { next_id = reset }) in
      if not (is_none (cm.get id mux.sinks))
      then again
      else if ltb id mux.min_id || leb mux.max_id id
      then restarted
      else ok (id, mux)

  -- GetNextId. Each of its two scans passes an id in use at a time, and starts once more.
  unfoldable pub get_next_id : ConnMux → Outcome AddError (ℕ × ConnMux)
  get_next_id mux =
      let first = add32 mux.next_id 1 in
      next_id_loop (suc (suc (cm.count mux.sinks + cm.count mux.sinks))) first
        (record mux { next_id = first })

  -- Add
  unfoldable pub add : ℕ → Sink → ConnMux → Outcome AddError ConnMux
  add id sink mux =
      let (stored, sinks) = cm.set_if_absent id sink mux.sinks in
      if mux.closed
      then err mux_closed
      else if stored
      then ok (record mux { sinks = sinks })
      else err id_in_use

  -- RemoveByConnId
  unfoldable pub remove_by_conn_id : ℕ → ConnMux → ConnMux
  remove_by_conn_id id mux = record mux { sinks = cm.remove id mux.sinks }

  -- Close: the sinks whose HandleMuxClose is called.
  unfoldable pub close : ConnMux → ConnMux × List (ℕ × Sink)
  close mux = if mux.closed then (mux, []) else (record mux { closed = true }, cm.items mux.sinks)

  module _ (c : Channel) where
    -- handlePayloadWithNoSink. The code builds the acknowledgement `ack_msg` and sends `msg`.
    unfoldable pub ack_msg : ℕ → Payload → Message
    unfolding new_acknowledgement
    ack_msg conn_id payload =
        put_header conn_id_header (c.bytes_of_uint32 conn_id) (
          marshall_ack c (new_acknowledgement payload.circuit_id (invert (get_originator payload))))

    unfoldable pub is_end : Payload → Bool
    is_end payload =
        (is_circuit_end_flag_set payload || is_flag_eof_set payload)
        && (length payload.payload_data == 0)

    unfoldable pub handle_payload_with_no_sink : Message → Reaction Sink
    handle_payload_with_no_sink msg = elim (unmarshall_payload c msg) [
      | ok payload ↦ if is_end payload then sent msg else ignored
      | err e ↦ ignored
      | panic ↦ ignored
      | stuck ↦ ignored
    ]

    -- HandleReceive for a message whose connection id has no sink.
    unfoldable pub receive_unknown : ℕ → Message → Reaction Sink
    receive_unknown conn_id msg =
        if msg.content_type == content_type_conn_inspect_request
        then answered_invalid conn_id msg
        else if msg.content_type == content_type_xg_payload
        then handle_payload_with_no_sink msg
        else ignored

    unfoldable pub receive_found : ℕ → Option Sink → Message → Reaction Sink
    receive_found conn_id none msg = receive_unknown conn_id msg
    receive_found conn_id (some sink) msg = accepted conn_id sink msg

    unfoldable pub receive_for : Option ℕ → ConnMux → Message → Reaction Sink
    receive_for none mux msg =
        if msg.content_type == content_type_inspect_request then inspected msg else ignored
    receive_for (some conn_id) mux msg = receive_found conn_id (cm.get conn_id mux.sinks) msg

    -- HandleReceive
    unfoldable pub handle_receive : ConnMux → Message → Reaction Sink
    handle_receive mux msg = receive_for (get_header c.uint32_of_bytes conn_id_header msg) mux msg

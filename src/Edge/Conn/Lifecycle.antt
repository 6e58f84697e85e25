-- ===== src/Edge/Conn/Lifecycle.antt =====
-- The life of a connection: what it sends and calls over any sequence of calls, and when it closes.
pub mod Events
pub mod Preserved
pub mod Reading
use sdk_golang.Common.{
  ℕ, ◌≡◌, refl, Bool, true, false, not, ◌&&◌, ◌||◌, Option, none, some, List, [], ◌∷◌,
  if◌then◌else◌,
}
use sdk_golang.Xgress.Channel.{Message, Channel}
use sdk_golang.Edge.Conn.{
  SecretStream, Env, Conn, ConnEvent, sent_message, sent_state, wrote, called, gave_payload,
  gave_ack, cancelled_writes, closed_notify, left_mux, answered, close, read,
}
use sdk_golang.Edge.Conn.Write.{write, close_write}
use sdk_golang.Edge.Conn.Accept.{accept_message, handle_mux_close, handle_close}
use sdk_golang.Edge.Conn.Content.{is_last}

-- A call that the connection gets from the application, the multiplexer or the channel.
pub data Operation : Type 0 where
  reads : ℕ → Bool → Operation
  writes : List ℕ → Operation
  closes_write closes mux_closes channel_closes : Operation
  accepts : Bool → Message → Operation

abbrev pub some_event : (ConnEvent → Bool) → List ConnEvent → Bool
some_event test [] = false
some_event test (e ∷ es) = test e || some_event test es

abbrev pub is_notify : ConnEvent → Bool
is_notify closed_notify = true
is_notify _ = false

abbrev pub is_state : ConnEvent → Bool
is_state (sent_state m) = true
is_state _ = false

abbrev pub is_leave : ConnEvent → Bool
is_leave left_mux = true
is_leave _ = false

abbrev pub is_cancel : ConnEvent → Bool
is_cancel cancelled_writes = true
is_cancel _ = false

module _ (s : SecretStream) (ch : Channel) where
  -- The stream of the connection ends: a message with the flag FIN, or the close.
  abbrev pub ends_stream : ConnEvent → Bool
  ends_stream (sent_message m) = is_last s ch m
  ends_stream closed_notify = true
  ends_stream _ = false

  -- The event may come behind the earlier ones.
  abbrev pub may_follow : ConnEvent → List ConnEvent → Bool
  may_follow (sent_message m) es = not (some_event ends_stream es)
  may_follow (wrote body) es = not (some_event ends_stream es)
  may_follow (sent_state m) es = not (some_event is_state es)
  may_follow closed_notify es = not (some_event is_notify es)
  may_follow left_mux es = not (some_event is_leave es)
  may_follow cancelled_writes es = not (some_event is_cancel es)
  may_follow _ es = true

  -- The events, newest first, each of which may come behind the earlier ones.
  abbrev pub in_order : List ConnEvent → Bool
  in_order [] = true
  in_order (e ∷ es) = may_follow e es && in_order es

  -- Nothing is sent behind the end of the stream; a connection is closed exactly if its notify
  -- channel is, which then has happened once, as has its leave of the multiplexer without flow
  -- control and the end of its Xgress's writes with it.
  pub record Orderly (has_xg closed read_fin sent_fin : Bool) (es : List ConnEvent) : Type 0 where
    pub order : in_order es ≡ true
    pub ended : sent_fin ≡ false → some_event ends_stream es ≡ false
    pub notified : some_event is_notify es ≡ closed
    pub left : some_event is_leave es ≡ (closed && not has_xg)
    pub cancelled : some_event is_cancel es ≡ (closed && has_xg)
    pub told : closed ≡ false → some_event is_state es ≡ false
    pub shut_read : closed ≡ true → read_fin ≡ true
    pub shut_write : closed ≡ true → sent_fin ≡ true

  abbrev pub IsOrderly : Conn s → Type 0
  IsOrderly c = Orderly c.has_xg c.closed c.read_fin c.sent_fin c.events

  module _ (env : Env) where
    unfoldable pub perform : Operation → Conn s → Conn s
    perform (reads n expired) c = (read s ch env n expired c).1
    perform (writes body) c = (write s ch env body c).1
    perform closes_write c = (close_write s ch env c).1
    perform closes c = close s ch env true c
    perform mux_closes c = handle_mux_close s ch env c
    perform channel_closes c = handle_close s ch env c
    perform (accepts drops m) c = accept_message s ch env drops m c

    -- The calls in order.
    unfoldable pub perform_all : List Operation → Conn s → Conn s
    unfolding perform
    perform_all [] c = c
    perform_all (o ∷ os) c = perform_all os (perform o c)

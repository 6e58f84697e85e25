-- ===== src/Edge/Conn/Lifecycle/Events.antt =====
-- Events that keep the order of the events, and the close of a connection.
use sdk_golang.Common.{
  true_ne_false, ◌≡◌, refl, inl, inr, Bool, true, false, not, List, [], ◌∷◌, if◌then◌else◌,
  Bool-cases,
}
use sdk_golang.Xgress.Channel.{Message, Channel, put_header}
use sdk_golang.Edge.Conn.{
  SecretStream, Env, Conn, ConnEvent, sent_message, called, close, send_state,
}
use sdk_golang.Edge.Messages.{new_state_closed_msg, seq_header}
use sdk_golang.Xgress.Lifecycle.{Call}
use sdk_golang.Edge.Conn.Content.{is_last}
use sdk_golang.Edge.Conn.Lifecycle.{
  Orderly, IsOrderly, some_event, is_notify, is_state, is_leave, is_cancel, ends_stream, may_follow,
  in_order,
}

module _ (s : SecretStream) (ch : Channel) (env : Env) where
  -- An event that the record does not speak of.
  abbrev pub Neutral : ConnEvent → Type 0
  Neutral e =
      (ends_stream s ch e ≡ false)
      × (is_notify e ≡ false)
      × (is_leave e ≡ false)
      × (is_cancel e ≡ false)
      × (is_state e ≡ false)

  pub log-Neutral :
      {has_xg closed read_fin sent_fin : Bool} {es : List ConnEvent} (e : ConnEvent)
      → Neutral e
      → may_follow s ch e es ≡ true
      → Orderly s ch has_xg closed read_fin sent_fin es
      → Orderly s ch has_xg closed read_fin sent_fin (e ∷ es)
  log-Neutral e (no_end, no_notify, no_leave, no_cancel, no_state) follows o = record {
    order = rw (follows, o.order) refl;
    ended = λ going. rw (no_end, o.ended going) refl;
    notified = rw no_notify o.notified;
    left = rw no_leave o.left;
    cancelled = rw no_cancel o.cancelled;
    told = λ going. rw (no_state, o.told going) refl;
    shut_read = o.shut_read;
    shut_write = o.shut_write;
  }

  -- The state that follows a set of sentFIN or readFIN.
  pub fin_set :
      {has_xg closed read_fin sent_fin read_fin' sent_fin' : Bool} {es : List ConnEvent}
      → (read_fin ≡ true → read_fin' ≡ true)
      → (sent_fin ≡ true → sent_fin' ≡ true)
      → Orderly s ch has_xg closed read_fin sent_fin es
      → Orderly s ch has_xg closed read_fin' sent_fin' es
  fin_set {sent_fin = sent_fin} {sent_fin' = sent_fin'} reads writes o = record {
    order = o.order;
    ended = λ going. o.ended (elim (Bool-cases sent_fin) [
      | inl shut ↦ absurd (let no = writes shut in cc)
      | inr going ↦ going
    ]);
    notified = o.notified;
    left = o.left;
    cancelled = o.cancelled;
    told = o.told;
    shut_read = λ e. reads (o.shut_read e);
    shut_write = λ e. writes (o.shut_write e);
  }

  shut :
      {has_xg read_fin sent_fin : Bool} {es es' : List ConnEvent}
      → Orderly s ch has_xg false read_fin sent_fin es
      → in_order s ch es' ≡ true
      → some_event is_notify es' ≡ true
      → some_event is_leave es' ≡ not has_xg
      → some_event is_cancel es' ≡ has_xg
      → Orderly s ch has_xg true true true es'
  shut o ordered notified left cancelled = record {
    order = ordered;
    ended = λ h. absurd (true_ne_false h);
    notified = notified;
    left = left;
    cancelled = cancelled;
    told = λ h. absurd (true_ne_false h);
    shut_read = λ h. refl;
    shut_write = λ h. refl;
  }

  close_at :
      (has_xg closed notify : Bool) (c : Conn s)
      → c.has_xg ≡ has_xg
      → c.closed ≡ closed
      → Orderly s ch has_xg closed c.read_fin c.sent_fin c.events
      → IsOrderly s ch (close s ch env notify c)
  unfolding close send_state
  close_at has_xg true notify c is_xg is_closed o = rw (is_closed, is_xg) o
  close_at true false notify c is_xg going o =
      rw (going, is_xg) (shut o (rw (o.cancelled, o.notified, o.order) refl) refl o.left refl)
  close_at false false false c is_xg going o =
      rw (going, is_xg) (shut o (rw (o.left, o.notified, o.order) refl) refl refl o.cancelled)
  close_at false false true c is_xg going o =
      elim (Bool-cases (
        env.sends (
          put_header seq_header (ch.bytes_of_uint32 env.next_seq)
            (new_state_closed_msg ch c.id [])))) [
              | inl sends ↦
                  rw (going, is_xg, sends)
                    (shut o (rw (o.left, o.told refl, o.notified, o.order) refl) refl refl
                      o.cancelled)
              | inr fails ↦
                  rw (going, is_xg, fails)
                    (shut o (rw (o.left, o.notified, o.order) refl) refl refl o.cancelled)
            ]

  pub close-IsOrderly :
      (notify : Bool) (c : Conn s) → IsOrderly s ch c → IsOrderly s ch (close s ch env notify c)
  close-IsOrderly notify c o = close_at c.has_xg c.closed notify c refl refl o

  -- A call of the Xgress.
  pub log_call :
      {has_xg closed read_fin sent_fin : Bool} {es : List ConnEvent} (k : Call)
      → Orderly s ch has_xg closed read_fin sent_fin es
      → Orderly s ch has_xg closed read_fin sent_fin (called k ∷ es)
  log_call k o = log-Neutral (called k) (refl, refl, refl, refl, refl) refl o

  pub log_message :
      {has_xg closed read_fin sent_fin : Bool} {es : List ConnEvent} (m : Message)
      → (sent_fin ≡ false → is_last s ch m ≡ false)
      → some_event (ends_stream s ch) es ≡ false
      → Orderly s ch has_xg closed read_fin sent_fin es
      → Orderly s ch has_xg closed read_fin sent_fin (sent_message m ∷ es)
  log_message m goes_on no_end o = record {
    order = rw (no_end, o.order) refl;
    ended = λ going. rw (goes_on going, no_end) refl;
    notified = o.notified;
    left = o.left;
    cancelled = o.cancelled;
    told = o.told;
    shut_read = o.shut_read;
    shut_write = o.shut_write;
  }

  -- A test between two results, of which each is in order where it is taken.
  pub choose {ℓ} :
      {A : Type ℓ} (b : Bool) (x y : A × Conn s)
      → (b ≡ true → IsOrderly s ch x.1)
      → (b ≡ false → IsOrderly s ch y.1)
      → IsOrderly s ch (if b then x else y).1
  choose true x y first second = first refl
  choose false x y first second = second refl

  pub choose_conn :
      (b : Bool) (c d : Conn s)
      → (b ≡ true → IsOrderly s ch c)
      → (b ≡ false → IsOrderly s ch d)
      → IsOrderly s ch (if b then c else d)
  choose_conn true c d first second = first refl
  choose_conn false c d first second = second refl

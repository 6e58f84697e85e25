-- ===== src/Edge/Conn/Lifecycle/Preserved.antt =====
-- A connection's calls keep its events in order.
use sdk_golang.Common.{
  true_ne_false, ℕ, ◌≡◌, refl, Bool, true, false, ◌&&◌, Option, none, some, List, [], ◌∷◌,
  if◌then◌else◌, ◌==◌, length,
}
use sdk_golang.Common.Outcome.{Outcome, ok, err, panic, stuck}
use sdk_golang.Xgress.Channel.{Message, Channel}
use sdk_golang.Edge.Conn.{
  SecretStream, Env, Conn, ConnEvent, WriteFailure, wrote, called, gave_payload, gave_ack, answered,
}
use sdk_golang.Edge.Messages.{
  content_type_conn_inspect_request, content_type_xg_payload, content_type_xg_acknowledgement,
  content_type_state_closed, content_type_inspect_request, content_type_trace_route, flags_header,
  fin,
}
use sdk_golang.Xgress.Lifecycle.{calls_close, calls_close_send_buffer, calls_close_rx_timeout}
use sdk_golang.Xgress.Messages.{Payload, Acknowledgement}
use sdk_golang.Xgress.Wire.{WireError}
use sdk_golang.Xgress.Messages.Codec.{unmarshall_payload, unmarshall_acknowledgement}
use sdk_golang.Edge.Conn.Write.{
  write_traced, traced_message, sink_write, write_pushed, write_with, written, write, close_write,
}
use sdk_golang.Edge.Conn.Accept.{
  give, give_payload, give_acknowledgement, handle_xg_payload, handle_xg_acknowledgement,
  put_sequenced, accept_message, handle_mux_close, handle_close, trace_route_answer,
}
use sdk_golang.Edge.Conn.Sends.{next_message-Plain}
use sdk_golang.Edge.Conn.Content.{is_last}
use sdk_golang.Edge.Conn.Lifecycle.{IsOrderly, some_event, ends_stream, may_follow}
use sdk_golang.Edge.Conn.Lifecycle.Events.{
  log-Neutral, fin_set, close-IsOrderly, log_call, log_message, choose_conn, choose, Neutral,
}

module _ (s : SecretStream) (ch : Channel) (env : Env) where
  write_traced-IsOrderly :
      (body : List ℕ) (hdrs : List (ℕ × List ℕ)) (c : Conn s)
      → (c.sent_fin ≡ false
          → is_last s ch (traced_message s ch env c.first_msg_sent c.id hdrs body) ≡ false)
      → some_event (ends_stream s ch) c.events ≡ false
      → IsOrderly s ch c
      → IsOrderly s ch (write_traced s ch env body hdrs c).1
  unfolding write_traced
  write_traced-IsOrderly body hdrs c goes_on no_end o =
      let m = traced_message s ch env c.first_msg_sent c.id hdrs body in
      choose s ch env (env.sends m) _ _ (λ sends. log_message s ch env m goes_on no_end o)
        (λ fails. o)

  sink_write-IsOrderly :
      (body : List ℕ) (c : Conn s)
      → c.sent_fin ≡ false
      → IsOrderly s ch c
      → IsOrderly s ch (sink_write s ch env body c).1
  unfolding sink_write
  sink_write-IsOrderly body c going o =
      choose s ch env c.has_xg _ _
        (λ is_xg.
          choose s ch env (env.xg_writes body) _ _
            (λ takes.
              log-Neutral s ch env (wrote body) (refl, refl, refl, refl, refl)
                (rw (o.ended going) refl) o)
            (λ fails. o))
        (λ direct.
          write_traced-IsOrderly body [] c (λ h. (next_message-Plain s ch env c body).0)
            (o.ended going) o)

  write_with-IsOrderly :
      (body : List ℕ) (sender : Option s.Encryptor) (c : Conn s)
      → c.sent_fin ≡ false
      → IsOrderly s ch c
      → IsOrderly s ch (write_with s ch env body sender c).1
  unfolding write_with write_pushed
  write_with-IsOrderly body none c going o = sink_write-IsOrderly body c going o
  write_with-IsOrderly body (some e) c going o = pushed (s.push body e)
    where
      kept :
          (x : Outcome WriteFailure ℕ × Conn s)
          → IsOrderly s ch x.1
          → IsOrderly s ch (written s ch env (length body) x).1
      kept (ok n, d) h = h
      kept (err r, d) h = h
      kept (panic, d) h = h
      kept (stuck, d) h = h

      pushed :
          (o : Option (List ℕ × s.Encryptor)) → IsOrderly s ch (write_pushed s ch env body o c).1
      pushed none = o
      pushed (some (cipher, e')) =
          kept (sink_write s ch env cipher (record c { sender = some e' }))
            (sink_write-IsOrderly cipher (record c { sender = some e' }) going o)

  pub write-IsOrderly :
      (body : List ℕ) (c : Conn s) → IsOrderly s ch c → IsOrderly s ch (write s ch env body c).1
  unfolding write
  write-IsOrderly body c o =
      choose s ch env c.sent_fin _ _ (λ ended. o)
        (λ going. write_with-IsOrderly body c.sender c going o)

  pub close_write-IsOrderly :
      (c : Conn s) → IsOrderly s ch c → IsOrderly s ch (close_write s ch env c).1
  unfolding close_write
  close_write-IsOrderly c o =
      let hdrs : List (ℕ × List ℕ) = (flags_header, ch.bytes_of_uint32 fin) ∷ [] in
      let half : Conn s = record c { sent_fin = true } in
      choose s ch env c.sent_fin _ _ (λ ended. o)
        (λ going.
          let sent =
            write_traced-IsOrderly [] hdrs half (λ h. absurd (true_ne_false h)) (o.ended going)
              (fin_set s ch env (λ h. h) (λ h. refl) o) in
          choose_conn s ch env c.has_xg _ _ (λ is_xg. log_call s ch env calls_close_rx_timeout sent)
            (λ direct. sent))

  give-IsOrderly :
      (takes : Bool) (e : ConnEvent) (c : Conn s)
      → Neutral s ch env e
      → may_follow s ch e c.events ≡ true
      → IsOrderly s ch c
      → IsOrderly s ch (give s ch env takes e c)
  give-IsOrderly takes e c n follows o =
      choose_conn s ch env takes _ _ (λ h. log-Neutral s ch env e n follows o)
        (λ h. log_call s ch env calls_close o)

  handle_xg_payload-IsOrderly :
      (m : Message) (c : Conn s)
      → IsOrderly s ch c
      → IsOrderly s ch (handle_xg_payload s ch env m c)
  unfolding handle_xg_payload give_payload
  handle_xg_payload-IsOrderly m c o =
      choose_conn s ch env c.has_xg _ _ (λ is_xg. given (unmarshall_payload ch m)) (λ direct. o)
    where
      given : (r : Outcome WireError Payload) → IsOrderly s ch (give_payload s ch env r c)
      given (ok p) =
          give-IsOrderly (env.xg_takes_payload p) (gave_payload p) c (refl, refl, refl, refl, refl)
            refl o
      given (err e) = log_call s ch env calls_close o
      given panic = log_call s ch env calls_close o
      given stuck = log_call s ch env calls_close o

  handle_xg_acknowledgement-IsOrderly :
      (m : Message) (c : Conn s)
      → IsOrderly s ch c
      → IsOrderly s ch (handle_xg_acknowledgement s ch env m c)
  unfolding handle_xg_acknowledgement give_acknowledgement
  handle_xg_acknowledgement-IsOrderly m c o =
      choose_conn s ch env c.has_xg _ _ (λ is_xg. given (unmarshall_acknowledgement ch m))
        (λ direct. o)
    where
      given :
          (r : Outcome WireError Acknowledgement)
          → IsOrderly s ch (give_acknowledgement s ch env r c)
      given (ok a) =
          give-IsOrderly (env.xg_takes_ack a) (gave_ack a) c (refl, refl, refl, refl, refl) refl o
      given (err e) = log_call s ch env calls_close o
      given panic = log_call s ch env calls_close o
      given stuck = log_call s ch env calls_close o

  put_sequenced-IsOrderly :
      (drops : Bool) (m : Message) (c : Conn s)
      → IsOrderly s ch c
      → IsOrderly s ch (put_sequenced s ch env drops m c)
  unfolding put_sequenced
  put_sequenced-IsOrderly drops m c o =
      choose_conn s ch env (c.closed && drops) _ _ (λ h. o) (λ h. o)

  pub accept_message-IsOrderly :
      (drops : Bool) (m : Message) (c : Conn s)
      → IsOrderly s ch c
      → IsOrderly s ch (accept_message s ch env drops m c)
  unfolding accept_message
  accept_message-IsOrderly drops m c o =
      let answer = λ (a : Message).
        log-Neutral s ch env {es = c.events} (answered a) (refl, refl, refl, refl, refl) refl o in
      let called_half : Conn s =
        if c.has_xg then record c { events = called calls_close_send_buffer ∷ c.events } else c in
      let half : IsOrderly s ch called_half =
        choose_conn s ch env c.has_xg _ _ (λ h. log_call s ch env calls_close_send_buffer o)
          (λ h. o) in
      choose_conn s ch env (m.content_type == content_type_conn_inspect_request) _ _ (λ h. answer m)
        (λ h.
          choose_conn s ch env (m.content_type == content_type_xg_payload) _ _
            (λ h. handle_xg_payload-IsOrderly m c o)
            (λ h.
              choose_conn s ch env (m.content_type == content_type_xg_acknowledgement) _ _
                (λ h. handle_xg_acknowledgement-IsOrderly m c o)
                (λ h.
                  choose_conn s ch env (m.content_type == content_type_state_closed) _ _
                    (λ h.
                      choose_conn s ch env c.closed _ _ (λ h. o)
                        (λ h.
                          put_sequenced-IsOrderly drops m (record called_half { sent_fin = true })
                            (fin_set s ch env (λ r. r) (λ w. refl) half)))
                    (λ h.
                      choose_conn s ch env (m.content_type == content_type_inspect_request) _ _
                        (λ h. answer m)
                        (λ h.
                          choose_conn s ch env (m.content_type == content_type_trace_route) _ _
                            (λ h. answer (trace_route_answer s ch env m))
                            (λ h. put_sequenced-IsOrderly drops m c o))))))

  pub handle_mux_close-IsOrderly :
      (c : Conn s) → IsOrderly s ch c → IsOrderly s ch (handle_mux_close s ch env c)
  unfolding handle_mux_close
  handle_mux_close-IsOrderly c o =
      let shut = close-IsOrderly s ch env false c o in
      choose_conn s ch env c.has_xg _ _ (λ h. log_call s ch env calls_close shut) (λ h. shut)

  pub handle_close-IsOrderly :
      (c : Conn s) → IsOrderly s ch c → IsOrderly s ch (handle_close s ch env c)
  unfolding handle_close
  handle_close-IsOrderly c o =
      let shut = close-IsOrderly s ch env false c o in
      choose_conn s ch env c.has_xg _ _ (λ h. log_call s ch env calls_close_send_buffer shut)
        (λ h. shut)

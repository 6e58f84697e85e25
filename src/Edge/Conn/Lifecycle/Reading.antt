-- ===== src/Edge/Conn/Lifecycle/Reading.antt =====
-- A Read keeps the events in order, and so does any sequence of calls.
use sdk_golang.Common.{
  false_ne_true, ℕ, ◌≡◌, refl, Bool, true, false, not, ◌&&◌, ◌||◌, Option, none, some, List, [],
  ◌∷◌, if◌then◌else◌, ◌==◌, ltb, length, bit_and, bit_or,
}
use sdk_golang.Common.Outcome.{Outcome, ok, err, panic, stuck}
use sdk_golang.Xgress.Channel.{Message, Channel}
use sdk_golang.Edge.Messages.{
  content_type_data, content_type_state_closed, fin, stream, multipart, multipart_msg,
}
use sdk_golang.Edge.Conn.{
  SecretStream, Env, Conn, ReadError, ReadResult, Round, returns, goes_on, go_on, split_parts,
  read_chunks, read_plain, read_pulled, read_received, open_stream, read_data, read_state_closed,
  read_message, read_loop, read_buffered, read, eof, read_empty, has_flag, message_flags, new_conn,
}
use sdk_golang.Edge.Conn.Lifecycle.{
  IsOrderly, Operation, reads, writes, closes_write, closes, mux_closes, channel_closes, accepts,
  perform, perform_all,
}
use sdk_golang.Edge.Conn.Lifecycle.Events.{choose, choose_conn, fin_set, close-IsOrderly}
use sdk_golang.Edge.Conn.Lifecycle.Preserved.{
  write-IsOrderly, close_write-IsOrderly, accept_message-IsOrderly, handle_mux_close-IsOrderly,
  handle_close-IsOrderly,
}

pub or-left : (a b : Bool) → a ≡ true → (a || b) ≡ true
or-left true b e = refl
or-left false b e = absurd (false_ne_true e)

module _ (s : SecretStream) (ch : Channel) (env : Env) where
  abbrev RoundOrderly : Round s → Type 0
  RoundOrderly (returns r c) = IsOrderly s ch c
  RoundOrderly (goes_on c) = IsOrderly s ch c

  choose_round :
      (b : Bool) (x y : Round s)
      → (b ≡ true → RoundOrderly x)
      → (b ≡ false → RoundOrderly y)
      → RoundOrderly (if b then x else y)
  choose_round true x y first second = first refl
  choose_round false x y first second = second refl

  read_chunks-Orderly :
      (n : ℕ) (r : Outcome ReadError (List (List ℕ))) (c : Conn s)
      → IsOrderly s ch c
      → RoundOrderly (read_chunks s n r c)
  unfolding read_chunks
  read_chunks-Orderly n (ok []) c o = o
  read_chunks-Orderly n (ok (first ∷ chunks)) c o = o
  read_chunks-Orderly n (err e) c o = o
  read_chunks-Orderly n panic c o = o
  read_chunks-Orderly n stuck c o = o

  read_plain-Orderly :
      (n : ℕ) (parts : Bool) (d : List ℕ) (c : Conn s)
      → IsOrderly s ch c
      → RoundOrderly (read_plain s n parts d c)
  unfolding read_plain
  read_plain-Orderly n parts d c o =
      choose_round (parts && ltb 0 (length d)) _ _
        (λ h. read_chunks-Orderly n (split_parts (length d) d) c o)
        (λ h. read_chunks-Orderly n (ok (d ∷ [])) c o)

  read_pulled-Orderly :
      (n : ℕ) (parts : Bool) (r : Option (List ℕ × s.Decryptor)) (c : Conn s)
      → IsOrderly s ch c
      → RoundOrderly (read_pulled s n parts r c)
  unfolding read_pulled
  read_pulled-Orderly n parts none c o = o
  read_pulled-Orderly n parts (some (d, rx)) c o =
      read_plain-Orderly n parts d (record c { receiver = some rx }) o

  read_received-Orderly :
      (n : ℕ) (parts : Bool) (d : List ℕ) (rx : Option s.Decryptor) (c : Conn s)
      → IsOrderly s ch c
      → RoundOrderly (read_received s n parts d rx c)
  unfolding read_received
  read_received-Orderly n parts d none c o = read_plain-Orderly n parts d c o
  read_received-Orderly n parts d (some rx) c o = read_pulled-Orderly n parts (s.pull d rx) c o

  open_stream-Orderly :
      (rx : Option s.Decryptor) (c : Conn s) → IsOrderly s ch c → RoundOrderly (open_stream s rx c)
  unfolding open_stream
  open_stream-Orderly none c o = o
  open_stream-Orderly (some rx) c o = o

  read_data-Orderly :
      (n : ℕ) (parts : Bool) (d : List ℕ) (key : Option (List ℕ)) (c : Conn s)
      → IsOrderly s ch c
      → RoundOrderly (read_data s n parts d key c)
  unfolding read_data
  read_data-Orderly n parts d (some key) c o =
      choose_round ((length d == 0) && c.read_fin) _ _ (λ h. o)
        (λ h.
          choose_round (not (length d == s.header_bytes)) _ _ (λ h. o)
            (λ h. open_stream-Orderly (s.new_decryptor key d) c o))
  read_data-Orderly n parts d none c o =
      choose_round ((length d == 0) && c.read_fin) _ _ (λ h. o)
        (λ h. read_received-Orderly n parts d c.receiver c o)

  read_state_closed-Orderly :
      (c : Conn s) → IsOrderly s ch c → IsOrderly s ch (read_state_closed s ch env c)
  unfolding read_state_closed
  read_state_closed-Orderly c o =
      let half : Conn s = record c { read_fin = true } in
      let o' = fin_set s ch env {read_fin' = true} (λ h. refl) (λ h. h) o in
      choose_conn s ch env c.has_xg _ _
        (λ h.
          choose_conn s ch env c.sent_fin _ _ (λ h. close-IsOrderly s ch env false half o')
            (λ h. o'))
        (λ h. close-IsOrderly s ch env false c o)

  read_message-Orderly :
      (n : ℕ) (m : Message) (c : Conn s)
      → IsOrderly s ch c
      → RoundOrderly (read_message s ch env n m c)
  unfolding read_message
  read_message-Orderly n m c o =
      let flags = message_flags s ch m in
      let seen : Conn s = record c {
        read_fin = c.read_fin || has_flag s ch flags fin;
        flags = bit_or c.flags (bit_and flags (bit_or stream multipart));
      } in
      let o' : IsOrderly s ch seen =
        fin_set s ch env (or-left c.read_fin (has_flag s ch flags fin)) (λ h. h) o in
      choose_round (m.content_type == content_type_state_closed) _ _
        (λ h. read_state_closed-Orderly seen o')
        (λ h.
          choose_round (m.content_type == content_type_data) _ _
            (λ h.
              read_data-Orderly n (has_flag s ch flags multipart_msg) m.body seen.rx_key seen o')
            (λ h. o'))

  read_empty-Orderly :
      (expired : Bool) (c : Conn s)
      → IsOrderly s ch c
      → IsOrderly s ch (read_empty s ch env expired c).1
  read_empty-Orderly expired c o =
      choose s ch env expired _ _ (λ h. o)
        (λ h.
          choose s ch env (c.q_closed || c.closed) _ _
            (λ h. fin_set s ch env (λ r. refl) (λ w. w) o) (λ h. o))

  go_on-Orderly :
      (r : Round s) (next : Conn s → ReadResult × Conn s)
      → ((d : Conn s) → IsOrderly s ch d → IsOrderly s ch (next d).1)
      → RoundOrderly r
      → IsOrderly s ch (go_on s r next).1
  go_on-Orderly (returns r d) next later o = o
  go_on-Orderly (goes_on d) next later o = later d o

  read_loop-Orderly :
      (n : ℕ) (expired : Bool) (q : List Message) (c : Conn s)
      → IsOrderly s ch c
      → IsOrderly s ch (read_loop s ch env n expired q c).1
  unfolding read_loop
  read_loop-Orderly n expired [] c o =
      choose s ch env c.read_fin _ _ (λ h. o) (λ h. read_empty-Orderly expired c o)
  read_loop-Orderly n expired (m ∷ q) c o = by_fin c.read_fin (λ d. read_loop-Orderly n expired q d)
    where
      by_fin :
          (b : Bool)
          → ((d : Conn s) → IsOrderly s ch d → IsOrderly s ch (read_loop s ch env n expired q d).1)
          → IsOrderly s ch
              (elim b as (λ b. ReadResult × Conn s) [
                | true ↦ (eof, c)
                | false ↦
                    go_on s
                      (read_message s ch env n m (record c { read_q = q }))
                      (read_loop s ch env n expired q)
              ]).1
      by_fin true later = o
      by_fin false later =
          go_on-Orderly (read_message s ch env n m (record c { read_q = q }))
            (read_loop s ch env n expired q) later
            (read_message-Orderly n m (record c { read_q = q }) o)

  read-Orderly :
      (n : ℕ) (expired : Bool) (c : Conn s)
      → IsOrderly s ch c
      → IsOrderly s ch (read s ch env n expired c).1
  unfolding read read_buffered
  read-Orderly n expired c o = choose s ch env c.closed _ _ (λ h. o) (λ h. buffered c.in_buffer)
    where
      buffered : (b : List (List ℕ)) → IsOrderly s ch (read_buffered s ch env n expired b c).1
      buffered [] = read_loop-Orderly n expired c.read_q c o
      buffered (first ∷ chunks) = o

  perform-Orderly :
      (op : Operation) (c : Conn s) → IsOrderly s ch c → IsOrderly s ch (perform s ch env op c)
  unfolding perform
  perform-Orderly (reads n expired) c o = read-Orderly n expired c o
  perform-Orderly (writes body) c o = write-IsOrderly s ch env body c o
  perform-Orderly closes_write c o = close_write-IsOrderly s ch env c o
  perform-Orderly closes c o = close-IsOrderly s ch env true c o
  perform-Orderly mux_closes c o = handle_mux_close-IsOrderly s ch env c o
  perform-Orderly channel_closes c o = handle_close-IsOrderly s ch env c o
  perform-Orderly (accepts drops m) c o = accept_message-IsOrderly s ch env drops m c o

  performs-kept :
      (ops : List Operation) (c : Conn s)
      → IsOrderly s ch c
      → IsOrderly s ch (perform_all s ch env ops c)
  unfolding perform_all
  performs-kept [] c o = o
  performs-kept (op ∷ ops) c o = performs-kept ops (perform s ch env op c) (perform-Orderly op c o)

  -- Whatever calls a new connection gets, in any order: it sends nothing behind its FIN or its
  -- close, and at most one state message; it is closed exactly if its notify channel is closed,
  -- which happens once; then it has left the multiplexer once, or ended the writes of its Xgress
  -- once with flow control, and both of its directions have ended. Before the close none of this
  -- has happened.
  pub perform_all-IsOrderly :
      (id : ℕ) (has_xg : Bool) (ops : List Operation)
      → IsOrderly s ch (perform_all s ch env ops (new_conn s id has_xg))
  unfolding new_conn
  perform_all-IsOrderly id has_xg ops = performs-kept ops (new_conn s id has_xg) (record {
    order = refl;
    ended = λ h. refl;
    notified = refl;
    left = refl;
    cancelled = refl;
    told = λ h. refl;
    shut_read = λ h. absurd (false_ne_true h);
    shut_write = λ h. absurd (false_ne_true h);
  })

-- ===== src/Edge/Conn/Streams.antt =====
-- What one connection writes, the other one reads, with encryption or without it.
use sdk_golang.Common.{
  ℕ, ◌≡◌, refl, sym, ap, ◌∙◌, inl, inr, Bool, true, false, Option, none, some, List, [], ◌∷◌, ◌++◌,
  arith, ◌==◌, if◌then◌else◌, length, Bool-cases, ==_iff,
}
use mathlib.Core.Path.{subst}
use mathlib.Core.List.{append_assoc, append-nil}
use sdk_golang.Common.Outcome.{Outcome, ok, err, panic, stuck, ◌>>=◌}
use sdk_golang.Xgress.Channel.{Message, Channel}
use sdk_golang.Edge.Messages.{content_type_data, content_type_state_closed}
use sdk_golang.Edge.Conn.{
  SecretStream, Env, Conn, new_conn, sent_message, log, WriteFailure, not_encrypted,
  connection_closed, closed_for_writes,
}
use sdk_golang.Edge.Conn.Write.{
  sink_write, write_with, write, establish_client_crypto, establish_with, written,
}
use sdk_golang.Edge.Conn.Content.{content, concat, meaning, meaning_opened, follow, pending, unless}
use sdk_golang.Edge.Conn.Sends.{
  sent, not_a_success, sink_write_sends, next_message, next_message-Plain, not_ended, Plain, Paired,
  write-Sends,
}

-- Writes of buffers, one after another, all of which succeed.
abbrev pub Writes : (s : SecretStream) → Channel → Env → Conn s → List (List ℕ) → Conn s → Type 0
Writes s ch env c [] d = c ≡ d
Writes s ch env c (body ∷ bodies) d =
    (e : Conn s) × (write s ch env body c ≡ (ok (length body), e)) × Writes s ch env e bodies d

module _ (s : SecretStream) (ch : Channel) (env : Env) where
  -- The messages of a run of writes.
  record Run (c d : Conn s) (rx : Option s.Decryptor) (bodies : List (List ℕ)) : Type 0 where
    messages : List Message
    now_sent : sent d.events ≡ sent c.events ++ messages
    is_content : content s ch none rx messages ≡ concat bodies

  still_open :
      (c d : Conn s) (body : List ℕ)
      → write s ch env body c ≡ (ok (length body), d)
      → write_with s ch env body c.sender c ≡ (ok (length body), d)
  unfolding write
  still_open c d body e = elim (Bool-cases c.sent_fin) [
    | inl shut ↦
        let failure : WriteFailure = if c.closed then connection_closed else closed_for_writes in
        absurd (
          not_a_success failure (
            sym (ap (λ b. if b then (err failure, c) else write_with s ch env body c.sender c) shut)
            ∙ e))
    | inr going ↦
        let failure : WriteFailure = if c.closed then connection_closed else closed_for_writes in
        sym (ap (λ b. if b then (err failure, c) else write_with s ch env body c.sender c) going)
        ∙ e
  ]

  Writes-Run :
      (bodies : List (List ℕ)) (c d : Conn s) (rx : Option s.Decryptor)
      → c.has_xg ≡ false
      → Paired s ch env c.sender rx
      → Writes s ch env c bodies d
      → Run c d rx bodies
  unfolding content
  Writes-Run [] c d rx direct pair same = record {
    messages = [];
    now_sent = ap (λ x. sent x.events) (sym same) ∙ sym (append-nil (sent c.events));
    is_content = refl;
  }
  Writes-Run (body ∷ bodies) c d rx direct pair (e, first, later) =
      let one =
        write-Sends s ch env c e c.sender rx body refl direct pair (still_open c e body first) in
      let rest = Writes-Run bodies e d one.next_rx one.direct one.paired later in
      record {
        messages = one.message ∷ rest.messages;
        now_sent =
            rest.now_sent
            ∙ ap (λ t. t ++ rest.messages) one.now_sent
            ∙ append_assoc (sent c.events) (one.message ∷ []) rest.messages;
        is_content = one.is_content rest.messages ∙ ap (λ t. body ++ t) rest.is_content;
      }

  -- A connection is opened without a key, or by establishClientCrypto with the key to send with.
  abbrev pub Opened : Option (List ℕ) → Conn s → Conn s → Type 0
  Opened none c d = c ≡ d
  Opened (some tx) c d = (rx : List ℕ) × (establish_client_crypto s ch env rx tx c ≡ (ok tt, d))

  content_header :
      (m : Message) (header tx : List ℕ) (r : s.Decryptor) (q : List Message)
      → Plain s ch env m header
      → length header ≡ s.header_bytes
      → s.new_decryptor tx header ≡ some r
      → content s ch (some tx) none (m ∷ q) ≡ content s ch none (some r) q
  unfolding content
  content_header m header tx r q (last, parts, is_body, kind) size opened =
      let data_kind : (m.content_type == content_type_data) ≡ true = ground (arith, kind) in
      let not_closed : (m.content_type == content_type_state_closed) ≡ false =
        ground (arith, kind) in
      let fits : (length m.body == s.header_bytes) ≡ true =
        ap (λ d. length d == s.header_bytes) is_body ∙ (==_iff _ _).1 size in
      let step = λ (b : Bool).
        follow s (meaning s ch b (some tx) none m) b (some tx) none (λ k x. content s ch k x q) in
      ap step last
      ∙ rw (not_closed, data_kind, not_ended s ch env (length m.body == 0), fits)
          (ap (λ o. follow s (meaning_opened s o) false (some tx) none (λ k x. content s ch k x q))
            (ap (s.new_decryptor tx) is_body ∙ opened))

  opened-ok :
      (x : Outcome WriteFailure ℕ × Conn s) (d : Conn s)
      → ◌≡◌ {A = Outcome WriteFailure (Unit {0}) × Conn s} (x.0 >>= λ n. ok tt, x.1) (ok tt, d)
      → (m : ℕ) × (x ≡ (ok m, d))
  opened-ok (ok m, c) d h = (m, ap (λ t. (ok m, t.1)) h)
  opened-ok (err r, c) d h = absurd (let no : err r ≡ ok tt = ap (λ t. t.0) h in cc)
  opened-ok (panic, c) d h = absurd (let no : panic ≡ ok tt = ap (λ t. t.0) h in cc)
  opened-ok (stuck, c) d h = absurd (let no : stuck ≡ ok tt = ap (λ t. t.0) h in cc)

  established :
      (rx tx : List ℕ) (c d : Conn s)
      → c.has_xg ≡ false
      → establish_client_crypto s ch env rx tx c ≡ (ok tt, d)
      → (en : s.Encryptor) × (header : List ℕ) × (s.new_encryptor tx ≡ some (en, header))
        × (d
            ≡ log s
                (sent_message (next_message s ch env c header))
                (record c { sender = some en; rx_key = some rx; first_msg_sent = true }))
  unfolding establish_client_crypto establish_with
  established rx tx c d direct e = with_encryptor (s.new_encryptor tx) refl e
    where
      with_encryptor :
          (o : Option (s.Encryptor × List ℕ))
          → s.new_encryptor tx ≡ o
          → establish_with s ch env rx o c ≡ (ok tt, d)
          → (en : s.Encryptor) × (header : List ℕ) × (s.new_encryptor tx ≡ some (en, header))
            × (d
                ≡ log s
                    (sent_message (next_message s ch env c header))
                    (record c { sender = some en; rx_key = some rx; first_msg_sent = true }))
      with_encryptor none is_o h =
          absurd (let no : err not_encrypted ≡ ok tt = ap (λ t. t.0) h in cc)
      with_encryptor (some (en, header)) is_o h =
          let c' : Conn s = record c { sender = some en; rx_key = some rx } in
          let (m, sunk) = opened-ok (sink_write s ch env header c') d h in
          (en, header, is_o, sink_write_sends s ch env c' d header m direct sunk)

  -- A connection without flow control is opened as new, or by establishClientCrypto with a key, and
  -- then writes buffers one after another, all of which succeed. A connection that has read
  -- nothing, has the sending key as its reading key, if there is one, and has the messages that
  -- were sent in its queue, then has exactly the bytes of the buffers in order to read.
  pub pending-written :
      (id : ℕ) (key : Option (List ℕ)) (opened written : Conn s) (bodies : List (List ℕ))
      (reader : Conn s)
      → Opened key (new_conn s id false) opened
      → Writes s ch env opened bodies written
      → reader.in_buffer ≡ []
      → reader.read_fin ≡ false
      → reader.rx_key ≡ key
      → reader.receiver ≡ none
      → reader.read_q ≡ sent written.events
      → pending s ch reader ≡ concat bodies
  unfolding new_conn
  pending-written id key opened written bodies reader open_by writes empty going is_key no_rx
        queue =
      ap
        (λ t.
          concat t
          ++ unless reader.read_fin (content s ch reader.rx_key reader.receiver reader.read_q))
        empty
      ∙ ap (λ b. unless b (content s ch reader.rx_key reader.receiver reader.read_q)) going
      ∙ ap (λ k. content s ch k reader.receiver reader.read_q) is_key
      ∙ ap (λ r. content s ch key r reader.read_q) no_rx
      ∙ ap (content s ch key none) queue
      ∙ by_key key open_by
    where
      by_key :
          (key : Option (List ℕ))
          → Opened key (new_conn s id false) opened
          → content s ch key none (sent written.events) ≡ concat bodies
      by_key none same =
          let run =
            Writes-Run bodies opened written none (ap (λ x. x.has_xg) (sym same))
              (subst (λ x. Paired s ch env x.sender none) same tt) writes in
          ap (content s ch none none)
            (run.now_sent ∙ ap (λ x. sent x.events ++ run.messages) (sym same))
          ∙ run.is_content
      by_key (some tx) (rx, e) =
          let c = new_conn s id false in
          let (en, header, made, is_opened) = established rx tx c opened refl e in
          let (r, is_r, size, pair) = s.opened tx header en made in
          let run =
            Writes-Run bodies opened written (some r) (ap (λ x. x.has_xg) is_opened)
              (subst (λ x. Paired s ch env x.sender (some r)) (sym is_opened) pair) writes in
          ap (content s ch (some tx) none)
            (run.now_sent ∙ ap (λ x. sent x.events ++ run.messages) is_opened)
          ∙ content_header (next_message s ch env c header) header tx r run.messages
              (next_message-Plain s ch env c header) size is_r
          ∙ run.is_content

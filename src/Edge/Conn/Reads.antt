-- ===== src/Edge/Conn/Reads.antt =====
-- The bytes that Read returns are those of the queued messages, in order.
use sdk_golang.Common.{
  ℕ, ◌≡◌, refl, sym, ap, ◌∙◌, inl, inr, ◌⊎◌, Bool, true, false, ◌||◌, List, [], ◌∷◌, ◌++◌, ◌==◌,
  if◌then◌else◌, take, Bool-cases, bit_and, bit_or,
}
use mathlib.Core.Path.{subst}
use mathlib.Core.List.{append_assoc}
use sdk_golang.Xgress.Channel.{Message, Channel}
use sdk_golang.Edge.Messages.{content_type_data, content_type_state_closed, stream, multipart}
use sdk_golang.Edge.Conn.{
  SecretStream, Env, Conn, ReadResult, eof, Round, returns, goes_on, go_on, leftover, message_flags,
  close, read_state_closed, read_message, read_loop, read_buffered, read,
}
use sdk_golang.Edge.Conn.Content.{
  concat, unless, follow, is_last, has_parts, meaning, content, pending, Answers,
}
use sdk_golang.Edge.Conn.Rounds.{take-le, concat-leftover, behind, RoundAnswers, read_data-Answers}

module _ (s : SecretStream) (ch : Channel) (env : Env) where
  read_state_closed_ends :
      (c : Conn s)
      → c.closed ≡ false
      → ((read_state_closed s ch env c).read_fin ≡ true)
        × ((read_state_closed s ch env c).in_buffer ≡ c.in_buffer)
        × ((read_state_closed s ch env c).read_q ≡ c.read_q)
  unfolding read_state_closed close
  read_state_closed_ends c up = elim (Bool-cases c.has_xg) [
    | inr plain ↦ rw (plain, up) (refl, refl, refl)
    | inl xg ↦ elim (Bool-cases c.sent_fin) [
      | inl sent ↦ rw (xg, sent, up) (refl, refl, refl)
      | inr open_end ↦ rw (xg, open_end) (refl, refl, refl)
    ]
  ]

  read_message-Answers :
      (n : ℕ) (m : Message) (c : Conn s)
      → c.in_buffer ≡ []
      → c.closed ≡ false
      → RoundAnswers s ch n
          (follow s
            (meaning s ch (c.read_fin || is_last s ch m) c.rx_key c.receiver m)
            (c.read_fin || is_last s ch m)
            c.rx_key
            c.receiver
            (behind s ch c))
          c.read_q
          (read_message s ch env n m c)
  unfolding read_message
  read_message-Answers n m c empty up =
      let seen : Conn s = record c {
        read_fin = c.read_fin || is_last s ch m;
        flags = bit_or c.flags (bit_and (message_flags s ch m) (bit_or stream multipart));
      } in
      elim (Bool-cases (m.content_type == content_type_state_closed)) [
        | inl closing ↦
            let (ended, kept, queue) = read_state_closed_ends seen up in
            rw (closing, ended) (refl, kept ∙ empty, queue, inr refl)
        | inr other ↦ elim (Bool-cases (m.content_type == content_type_data)) [
          | inr odd ↦ rw (other, odd) (refl, empty, refl, inl up)
          | inl bytes ↦
              rw (other, bytes)
                (read_data-Answers s ch n (has_parts s ch m) m.body seen.rx_key seen refl empty up)
        ]
      ]

  after_round :
      (n : ℕ) (q : List Message) (bytes : List ℕ) (round : Round s)
      (next : Conn s → ReadResult × Conn s)
      → ((c : Conn s)
          → c.in_buffer ≡ []
          → c.closed ≡ false ⊎ (c.read_fin ≡ true)
          → Answers s ch n (unless c.read_fin (content s ch c.rx_key c.receiver q)) (next c))
      → RoundAnswers s ch n bytes q round
      → Answers s ch n bytes (go_on s round next)
  after_round n q bytes (returns r c) next later h = h
  after_round n q bytes (goes_on c) next later (is_bytes, empty, queue, up) =
      subst (λ t. Answers s ch n t (next c)) (sym is_bytes) (later c empty up)

  read_loop-Answers :
      (n : ℕ) (expired : Bool) (q : List Message) (c : Conn s)
      → c.in_buffer ≡ []
      → c.closed ≡ false ⊎ (c.read_fin ≡ true)
      → Answers s ch n
          (unless c.read_fin (content s ch c.rx_key c.receiver q))
          (read_loop s ch env n expired q c)
  unfolding read_loop content
  read_loop-Answers n expired [] c empty up = elim (Bool-cases c.read_fin) [
    | inl done ↦ rw done refl
    | inr going ↦ rw going (elim (Bool-cases expired) [
      | inl late ↦ rw late refl
      | inr early ↦ elim (Bool-cases (c.q_closed || c.closed)) [
        | inl shut ↦ rw (early, shut) refl
        | inr waiting ↦ rw (early, waiting) refl
      ]
    ])
  ]
  read_loop-Answers n expired (m ∷ q) c empty up = elim (Bool-cases c.read_fin) [
    | inl done ↦ rw (done, read_loop) refl
    | inr going ↦
        let here : Conn s = record c { read_q = q } in
        let up' : c.closed ≡ false = elim up [ inl e ↦ e | inr e ↦ cc ] in
        let last = λ (b : Bool).
          RoundAnswers s ch n
            (follow s (meaning s ch (b || is_last s ch m) c.rx_key c.receiver m)
              (b || is_last s ch m) c.rx_key c.receiver (λ k r. content s ch k r q))
            q (read_message s ch env n m here) in
        rw (going, read_loop)
          (after_round n q _ (read_message s ch env n m here) (read_loop s ch env n expired q)
            (λ c' e u. read_loop-Answers n expired q c' e u)
            (subst last going (read_message-Answers n m here empty up')))
  ]

  -- Read on a connection that is not closed returns the next bytes of what there is to read, at
  -- most as many as there is room for, and leaves the connection open with the rest to be read.
  -- It returns the end, an error, waits or panics only when there is nothing to read, and the
  -- loop of the model never runs out of messages.
  pub read-Answers :
      (n : ℕ) (expired : Bool) (c : Conn s)
      → c.closed ≡ false
      → Answers s ch n (pending s ch c) (read s ch env n expired c)
  unfolding read read_buffered
  read-Answers n expired c up =
      subst
        (λ b.
          Answers s ch n (pending s ch c)
            (if b then (eof, c) else read_buffered s ch env n expired c.in_buffer c))
        (sym up) (from_buffer c.in_buffer refl)
    where
      from_buffer :
          (chunks : List (List ℕ))
          → c.in_buffer ≡ chunks
          → Answers s ch n
              (concat chunks ++ unless c.read_fin (content s ch c.rx_key c.receiver c.read_q))
              (read_buffered s ch env n expired chunks c)
      from_buffer [] e = read_loop-Answers n expired c.read_q c e (inl up)
      from_buffer (first ∷ chunks) e = (
        ap (λ t. t ++ unless c.read_fin (content s ch c.rx_key c.receiver c.read_q))
              (concat-leftover n first chunks)
            ∙ append_assoc (take n first) (concat (leftover n first chunks)) _,
        take-le n first,
        up,
      )

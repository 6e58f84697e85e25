-- ===== src/Edge/Conn/Sends.antt =====
-- A write sends one message, which the other side reads as the buffer.
use sdk_golang.Common.{
  ℕ, ◌≡◌, refl, sym, ap, ◌∙◌, inl, inr, Bool, true, false, ◌&&◌, Option, none, some, List, [], ◌∷◌,
  ◌++◌, arith, ◌==◌, if◌then◌else◌, length, Bool-cases,
}
use mathlib.Core.Path.{subst}
use mathlib.Core.List.{append-nil}
use sdk_golang.Common.Outcome.{Outcome, ok, err, panic, stuck}
use sdk_golang.Xgress.Channel.{Message, Channel}
use sdk_golang.Edge.Messages.{
  content_type_data, content_type_state_closed, fin, multipart, multipart_msg, or_zero,
  new_data_msg, new_msg,
}
use sdk_golang.Edge.Conn.{
  SecretStream, Env, Conn, ConnEvent, sent_message, wrote, log, WriteFailure, not_sent,
  not_encrypted, message_flags, has_flag,
}
use sdk_golang.Edge.Conn.Write.{
  traced_message, write_traced, sink_write, write_pushed, write_with, written,
}
use sdk_golang.Edge.Conn.Content.{
  content, meaning, meaning_received, meaning_pulled, follow, is_last, has_parts,
}

-- The messages that a connection has sent, in order.
abbrev pub sent : List ConnEvent → List Message
sent [] = []
sent (sent_message m ∷ es) = sent es ++ m ∷ []
sent (e ∷ es) = sent es

pub not_a_success :
    {A : Type 0} {n : ℕ} {a b : A} (r : WriteFailure)
    → ◌≡◌ {A = Outcome WriteFailure ℕ × A} (err r, a) (ok n, b)
    → ⊥
not_a_success {n = n} r h = let no : err r ≡ ok n = ap (λ t. t.0) h in cc

module _ (s : SecretStream) (ch : Channel) (env : Env) where
  -- The flags of a message of Write.
  flags_of_traced :
      (first_sent : Bool) (id : ℕ) (body : List ℕ)
      → (message_flags s ch (traced_message s ch env first_sent id [] body)
          ≡ (if first_sent then 0 else multipart))
        × ((traced_message s ch env first_sent id [] body).body ≡ body)
        × ((traced_message s ch env first_sent id [] body).content_type ≡ content_type_data)
  unfolding traced_message new_data_msg new_msg
  flags_of_traced true id body = (refl, refl, refl)
  flags_of_traced false id body =
      (ap or_zero (ch.get_put_uint32 multipart (omega arith)), refl, refl)

  -- The message that the sink of a connection without flow control sends.
  abbrev pub next_message : Conn s → List ℕ → Message
  next_message c body = traced_message s ch env c.first_msg_sent c.id [] body

  pub sink_write_sends :
      (c d : Conn s) (body : List ℕ) (n : ℕ)
      → c.has_xg ≡ false
      → sink_write s ch env body c ≡ (ok n, d)
      → d ≡ log s (sent_message (next_message c body)) (record c { first_msg_sent = true })
  unfolding sink_write write_traced
  sink_write_sends c d body n direct e =
      let to_xg : Outcome WriteFailure ℕ × Conn s =
        if env.xg_writes body
        then (ok (length body), log s (wrote body) c)
        else (err not_sent, c) in
      let traced : write_traced s ch env body [] c ≡ (ok n, d) =
        sym (ap (λ b. if b then to_xg else write_traced s ch env body [] c) direct) ∙ e in
      elim (Bool-cases (env.sends (next_message c body))) [
        | inl taken ↦ sym (ap (λ r. r.1) (rw taken at traced))
        | inr refused ↦ absurd (not_a_success not_sent (rw refused at traced))
      ]

  written-ok :
      (n k : ℕ) (x : Outcome WriteFailure ℕ × Conn s) (d : Conn s)
      → written s ch env n x ≡ (ok k, d)
      → (m : ℕ) × (x ≡ (ok m, d))
  written-ok n k (ok m, c) d h = (m, ap (λ t. (ok m, t.1)) h)
  written-ok n k (err r, c) d h = absurd (not_a_success r h)
  written-ok n k (panic, c) d h = absurd (let no : panic ≡ ok k = ap (λ t. t.0) h in cc)
  written-ok n k (stuck, c) d h = absurd (let no : stuck ≡ ok k = ap (λ t. t.0) h in cc)

  -- A reader's state fits a sender's: no encryption, or streams in step.
  abbrev pub Paired : Option s.Encryptor → Option s.Decryptor → Type 0
  Paired none none = Unit {0}
  Paired (some e) (some d) = s.InSync e d
  Paired none (some d) = ⊥
  Paired (some e) none = ⊥

  -- A data message without flags that end the stream or say that it has parts.
  abbrev pub Plain : Message → List ℕ → Type 0
  Plain m body =
      (is_last s ch m ≡ false)
      × (has_parts s ch m ≡ false)
      × (m.body ≡ body)
      × (m.content_type ≡ content_type_data)

  pub next_message-Plain : (c : Conn s) (body : List ℕ) → Plain (next_message c body) body
  next_message-Plain c body =
      let (flags, is_body, kind) = flags_of_traced c.first_msg_sent c.id body in
      (
        ap (λ f. has_flag s ch f fin) flags ∙ no_fin c.first_msg_sent,
        ap (λ f. has_flag s ch f multipart_msg) flags ∙ no_parts c.first_msg_sent,
        is_body,
        kind,
      )
    where
      no_fin : (b : Bool) → has_flag s ch (if b then 0 else multipart) fin ≡ false
      no_fin true = refl
      no_fin false = refl

      no_parts : (b : Bool) → has_flag s ch (if b then 0 else multipart) multipart_msg ≡ false
      no_parts true = refl
      no_parts false = refl

  pub not_ended : (b : Bool) → (b && false) ≡ false
  not_ended true = refl
  not_ended false = refl

  meaning-Plain :
      (m : Message) (body : List ℕ) (rx : Option s.Decryptor)
      → Plain m body
      → meaning s ch (is_last s ch m) none rx m ≡ meaning_received s false body rx
  meaning-Plain m body rx (last, parts, is_body, kind) =
      let data_kind : (m.content_type == content_type_data) ≡ true = ground (arith, kind) in
      let not_closed : (m.content_type == content_type_state_closed) ≡ false =
        ground (arith, kind) in
      ap (λ b. meaning s ch b none rx m) last
      ∙ rw (not_closed, data_kind, not_ended (length m.body == 0), parts)
          (ap (λ d. meaning_received s false d rx) is_body)

  content-Plain :
      (m : Message) (body : List ℕ) (rx : Option s.Decryptor) (q : List Message)
      → Plain m body
      → content s ch none rx (m ∷ q)
        ≡ follow s (meaning_received s false body rx) false none rx (λ k r. content s ch k r q)
  unfolding content
  content-Plain m body rx q plain =
      ap (λ g. follow s g (is_last s ch m) none rx (λ k r. content s ch k r q))
        (meaning-Plain m body rx plain)
      ∙ ap (λ b. follow s (meaning_received s false body rx) b none rx (λ k r. content s ch k r q))
          plain.0

  content_of_clear :
      (m : Message) (body : List ℕ) (q : List Message)
      → Plain m body
      → content s ch none none (m ∷ q) ≡ body ++ content s ch none none q
  content_of_clear m body q plain =
      content-Plain m body none q plain ∙ ap (λ t. t ++ content s ch none none q) (append-nil body)

  content_of_cipher :
      (m : Message) (cipher body : List ℕ) (r r' : s.Decryptor) (q : List Message)
      → Plain m cipher
      → s.pull cipher r ≡ some (body, r')
      → content s ch none (some r) (m ∷ q) ≡ body ++ content s ch none (some r') q
  content_of_cipher m cipher body r r' q plain pulled =
      content-Plain m cipher (some r) q plain
      ∙ ap
          (λ o. follow s (meaning_pulled s false o) false none (some r) (λ k x. content s ch k x q))
          pulled
      ∙ ap (λ t. t ++ content s ch none (some r') q) (append-nil body)

  -- A write that succeeds sends one message, which a paired reader reads as the buffer.
  pub record Sends (c d : Conn s) (rx : Option s.Decryptor) (body : List ℕ) : Type 0 where
    pub message : Message
    pub now_sent : sent d.events ≡ sent c.events ++ message ∷ []
    pub next_rx : Option s.Decryptor
    pub paired : Paired d.sender next_rx
    pub direct : d.has_xg ≡ false
    pub is_content :
        (q : List Message)
        → content s ch none rx (message ∷ q) ≡ body ++ content s ch none next_rx q

  pub write-Sends :
      (c d : Conn s) (tx : Option s.Encryptor) (rx : Option s.Decryptor) (body : List ℕ)
      → c.sender ≡ tx
      → c.has_xg ≡ false
      → Paired tx rx
      → write_with s ch env body tx c ≡ (ok (length body), d)
      → Sends c d rx body
  unfolding write_with write_pushed
  write-Sends c d none none body is_tx direct pair e =
      let is_d = sink_write_sends c d body (length body) direct e in
      subst (λ x. Sends c x none body) (sym is_d)
        (record {
          message = next_message c body;
          now_sent = refl;
          next_rx = none;
          paired = subst (λ t. Paired t none) (sym is_tx) tt;
          direct = direct;
          is_content =
              λ q. content_of_clear (next_message c body) body q (next_message-Plain c body);
        })
  write-Sends c d none (some r) body is_tx direct pair e = absurd pair
  write-Sends c d (some en) none body is_tx direct pair e = absurd pair
  write-Sends c d (some en) (some r) body is_tx direct pair e = pushed (s.push body en) refl e
    where
      pushed :
          (o : Option (List ℕ × s.Encryptor))
          → s.push body en ≡ o
          → write_pushed s ch env body o c ≡ (ok (length body), d)
          → Sends c d (some r) body
      pushed none is_o h = absurd (not_a_success not_encrypted h)
      pushed (some (cipher, en')) is_o h =
          let c' : Conn s = record c { sender = some en' } in
          let (r', pulled, pair') = s.pulled en en' r body cipher pair is_o in
          let (m, sunk) = written-ok (length body) (length body) _ d h in
          let is_d = sink_write_sends c' d cipher m direct sunk in
          subst (λ x. Sends c x (some r) body) (sym is_d)
            (record {
              message = next_message c' cipher;
              now_sent = refl;
              next_rx = some r';
              paired = pair';
              direct = direct;
              is_content = λ q.
                  content_of_cipher (next_message c' cipher) cipher body r r' q
                    (next_message-Plain c' cipher) pulled;
            })

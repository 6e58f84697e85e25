-- ===== src/Edge/Conn/Content.antt =====
-- The bytes of the messages that are queued for a connection.
use sdk_golang.Common.{
  ℕ, ◌≤◌, ◌≡◌, Bool, true, false, not, ◌&&◌, Option, none, some, List, [], ◌∷◌, ◌++◌, ltb, ◌==◌,
  if◌then◌else◌, length,
}
use sdk_golang.Common.Outcome.{Outcome, ok}
use sdk_golang.Xgress.Channel.{Message, Channel}
use sdk_golang.Edge.Messages.{content_type_data, content_type_state_closed, fin, multipart_msg}
use sdk_golang.Edge.Conn.{
  SecretStream, Conn, ReadResult, ReadError, got, eof, failed, waits, read_panics, read_stuck,
  split_parts, message_flags, has_flag,
}

abbrev pub concat : List (List ℕ) → List ℕ
concat [] = []
concat (x ∷ xs) = x ++ concat xs

abbrev pub unless : Bool → List ℕ → List ℕ
unless true rest = []
unless false rest = rest

module _ (s : SecretStream) where
  -- What a message means to a reader: nothing, the end, a key stream, or bytes.
  pub data Meaning : Type 0 where
    skips ends : Meaning
    opens : s.Decryptor → Meaning
    brings : List ℕ → Option s.Decryptor → Meaning

  abbrev pub meaning_opened : Option s.Decryptor → Meaning
  meaning_opened none = ends
  meaning_opened (some rx) = opens rx

  -- The bytes of a multipart body are those of its parts, without their lengths.
  abbrev pub meaning_chunks : Outcome ReadError (List (List ℕ)) → Option s.Decryptor → Meaning
  meaning_chunks (ok (first ∷ chunks)) rx = brings (first ++ concat chunks) rx
  meaning_chunks _ rx = ends

  abbrev pub meaning_body : Bool → List ℕ → Option s.Decryptor → Meaning
  meaning_body parts d rx =
      if parts && ltb 0 (length d)
      then meaning_chunks (split_parts (length d) d) rx
      else meaning_chunks (ok (d ∷ [])) rx

  abbrev pub meaning_pulled : Bool → Option (List ℕ × s.Decryptor) → Meaning
  meaning_pulled parts none = ends
  meaning_pulled parts (some (d, rx)) = meaning_body parts d (some rx)

  abbrev pub meaning_received : Bool → List ℕ → Option s.Decryptor → Meaning
  meaning_received parts d none = meaning_body parts d none
  meaning_received parts d (some rx) = meaning_pulled parts (s.pull d rx)

  abbrev pub meaning_data : Bool → Bool → List ℕ → Option (List ℕ) → Option s.Decryptor → Meaning
  meaning_data parts last d (some key) rx =
      if (length d == 0) && last
      then ends
      else if not (length d == s.header_bytes)
      then ends
      else meaning_opened (s.new_decryptor key d)
  meaning_data parts last d none rx =
      if (length d == 0) && last then ends else meaning_received parts d rx

  -- The bytes of a message and of what comes behind it.
  abbrev pub follow :
      Meaning
      → Bool
      → Option (List ℕ)
      → Option s.Decryptor
      → (Option (List ℕ) → Option s.Decryptor → List ℕ)
      → List ℕ
  follow skips last key rx rest = unless last (rest key rx)
  follow ends last key rx rest = []
  follow (opens d) last key rx rest = unless last (rest none (some d))
  follow (brings bytes d) last key rx rest = bytes ++ unless last (rest none d)

  module _ (ch : Channel) where
    abbrev pub is_last : Message → Bool
    is_last m = has_flag s ch (message_flags s ch m) fin

    abbrev pub has_parts : Message → Bool
    has_parts m = has_flag s ch (message_flags s ch m) multipart_msg

    abbrev pub meaning : Bool → Option (List ℕ) → Option s.Decryptor → Message → Meaning
    meaning last key rx m =
        if m.content_type == content_type_state_closed
        then ends
        else if m.content_type == content_type_data
        then meaning_data (has_parts m) last m.body key rx
        else skips

    -- The bytes of a queue, for a connection that has not read to its end.
    unfoldable pub content : Option (List ℕ) → Option s.Decryptor → List Message → List ℕ
    content key rx [] = []
    content key rx (m ∷ q) =
        follow (meaning (is_last m) key rx m) (is_last m) key rx (λ k r. content k r q)

    -- What is still to be read from a connection.
    abbrev pub pending : Conn s → List ℕ
    pending c = concat c.in_buffer ++ unless c.read_fin (content c.rx_key c.receiver c.read_q)

    -- Read returns the next bytes, or there are none.
    abbrev pub Answers : ℕ → List ℕ → ReadResult × Conn s → Type 0
    Answers n bytes (got bs, c) = (bytes ≡ bs ++ pending c) × (length bs ≤ n) × (c.closed ≡ false)
    Answers n bytes (eof, c) = bytes ≡ []
    Answers n bytes (failed e, c) = bytes ≡ []
    Answers n bytes (waits, c) = bytes ≡ []
    Answers n bytes (read_panics, c) = bytes ≡ []
    Answers n bytes (read_stuck, c) = ⊥

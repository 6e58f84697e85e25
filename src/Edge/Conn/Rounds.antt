-- ===== src/Edge/Conn/Rounds.antt =====
-- A round of Read for a message, against the bytes that the message means.
use sdk_golang.Common.{
  ℕ, zero, suc, ◌+◌, ◌*◌, ◌≤◌, ◌≡◌, refl, sym, ap, ◌∙◌, inl, inr, ◌⊎◌, Bool, true, false, not, ◌&&◌,
  Option, none, some, List, [], ◌∷◌, ◌++◌, arith, ltb, ◌==◌, if◌then◌else◌, length, take, drop,
  Bool-cases, take-append-drop, length-take, length-drop, ◌≢◌,
}
use mathlib.Core.Path.{subst}
use mathlib.Core.List.{append_assoc, append-nil}
use sdk_golang.Common.Outcome.{Outcome, ok, err, panic, stuck, ◌>>=◌}
use sdk_golang.Xgress.Channel.{Message, Channel}
use sdk_golang.Edge.Conn.{
  SecretStream, Conn, ReadError, Round, returns, goes_on, split_parts, leftover, read_chunks,
  read_plain, read_pulled, read_received, open_stream, read_data,
}
use sdk_golang.Edge.Conn.Content.{
  concat, unless, meaning_opened, meaning_chunks, meaning_body, meaning_pulled, meaning_received,
  meaning_data, follow, content, Answers,
}

pub take-le : (n : ℕ) (x : List ℕ) → length (take n x) ≤ n
take-le n x = omega (arith, length-take n x)

pub concat-leftover :
    (n : ℕ) (first : List ℕ) (chunks : List (List ℕ))
    → first ++ concat chunks ≡ take n first ++ concat (leftover n first chunks)
concat-leftover n first chunks = elim (Bool-cases (length (drop n first) == 0)) [
  | inl empty ↦
      let none_left : drop n first ≡ [] = empty_of (drop n first) (ground (arith, empty)) in
      rw empty (
        ap (λ t. t ++ concat chunks)
          (sym (take-append-drop n first)
            ∙ ap (λ t. take n first ++ t) none_left
            ∙ append-nil (take n first)))
  | inr more ↦ rw more (
      ap (λ t. t ++ concat chunks) (sym (take-append-drop n first))
      ∙ append_assoc (take n first) (drop n first) (concat chunks))
]
  where
    empty_of : (l : List ℕ) → length l ≡ 0 → l ≡ []
    empty_of [] h = refl
    empty_of (x ∷ xs) h = absurd (omega arith)

-- The fuel of split_parts is enough.
split_parts_enough : (fuel : ℕ) (d : List ℕ) → length d ≤ fuel → split_parts fuel d ≢ stuck
unfolding split_parts
split_parts_enough fuel [] h e = cc
split_parts_enough zero (x ∷ xs) h e = absurd (omega (arith, h))
split_parts_enough (suc fuel) (x ∷ []) h e = cc
split_parts_enough (suc fuel) (x ∷ y ∷ d) h e =
    let rest =
      split_parts_enough fuel (drop (x + 256 * y) d)
        (omega (arith, length-drop (x + 256 * y) d, h)) in
    rest (stuck_part (ltb (length d) (x + 256 * y)) _ _ e)
  where
    stuck_part :
        (b : Bool) (o : Outcome ReadError (List (List ℕ))) (part : List ℕ)
        → (if b then panic else o >>= λ parts. ok (part ∷ parts)) ≡ stuck
        → o ≡ stuck
    stuck_part true o part e = cc
    stuck_part false (ok parts) part e = cc
    stuck_part false (err r) part e = cc
    stuck_part false panic part e = cc
    stuck_part false stuck part e = refl

module _ (s : SecretStream) (ch : Channel) where
  -- What is left to read behind a message that c has seen.
  abbrev pub behind : Conn s → Option (List ℕ) → Option s.Decryptor → List ℕ
  behind c key rx = content s ch key rx c.read_q

  abbrev pub RoundAnswers : ℕ → List ℕ → List Message → Round s → Type 0
  RoundAnswers n bytes q (returns r c) = Answers s ch n bytes (r, c)
  RoundAnswers n bytes q (goes_on c) =
      (bytes ≡ unless c.read_fin (content s ch c.rx_key c.receiver q))
      × (c.in_buffer ≡ [])
      × (c.read_q ≡ q)
      × ((c.closed ≡ false) ⊎ (c.read_fin ≡ true))

  read_chunks-Answers :
      (n : ℕ) (old : Option s.Decryptor) (o : Outcome ReadError (List (List ℕ))) (c : Conn s)
      → o ≢ stuck
      → c.in_buffer ≡ []
      → c.closed ≡ false
      → c.rx_key ≡ none
      → RoundAnswers n
          (follow s (meaning_chunks s o c.receiver) c.read_fin none old (behind c))
          c.read_q
          (read_chunks s n o c)
  unfolding read_chunks
  read_chunks-Answers n old (ok []) c fuel empty up plain = refl
  read_chunks-Answers n old (ok (first ∷ chunks)) c fuel empty up plain =
      rw (empty, plain)
        (
          ap (λ t. t ++ unless c.read_fin (behind c none c.receiver))
                (concat-leftover n first chunks)
              ∙ append_assoc (take n first) (concat (leftover n first chunks))
                  (unless c.read_fin (behind c none c.receiver)),
          take-le n first,
          up,
        )
  read_chunks-Answers n old (err e) c fuel empty up plain = refl
  read_chunks-Answers n old panic c fuel empty up plain = refl
  read_chunks-Answers n old stuck c fuel empty up plain = fuel refl

  read_plain-Answers :
      (n : ℕ) (old : Option s.Decryptor) (parts : Bool) (d : List ℕ) (c : Conn s)
      → c.in_buffer ≡ []
      → c.closed ≡ false
      → c.rx_key ≡ none
      → RoundAnswers n
          (follow s (meaning_body s parts d c.receiver) c.read_fin none old (behind c))
          c.read_q
          (read_plain s n parts d c)
  unfolding read_plain
  read_plain-Answers n old parts d c empty up plain =
      elim (Bool-cases (parts && ltb 0 (length d))) [
        | inl some_parts ↦ rw some_parts (
            read_chunks-Answers n old (split_parts (length d) d) c
              (split_parts_enough (length d) d (omega arith)) empty up plain)
        | inr whole ↦ rw whole (read_chunks-Answers n old (ok (d ∷ [])) c (λ h. cc) empty up plain)
      ]

  read_received-Answers :
      (n : ℕ) (parts : Bool) (d : List ℕ) (rx : Option s.Decryptor) (c : Conn s)
      → c.receiver ≡ rx
      → c.in_buffer ≡ []
      → c.closed ≡ false
      → c.rx_key ≡ none
      → RoundAnswers n
          (follow s (meaning_received s parts d rx) c.read_fin none rx (behind c))
          c.read_q
          (read_received s n parts d rx c)
  unfolding read_received read_pulled
  read_received-Answers n parts d none c same empty up plain =
      subst
        (λ r.
          RoundAnswers n (follow s (meaning_body s parts d r) c.read_fin none none (behind c))
            c.read_q (read_plain s n parts d c))
        same (read_plain-Answers n none parts d c empty up plain)
  read_received-Answers n parts d (some rx) c same empty up plain = pulled (s.pull d rx)
    where
      pulled :
          (o : Option (List ℕ × s.Decryptor))
          → RoundAnswers n
              (follow s (meaning_pulled s parts o) c.read_fin none (some rx) (behind c))
              c.read_q
              (read_pulled s n parts o c)
      pulled none = refl
      pulled (some (d', rx')) =
          read_plain-Answers n (some rx) parts d' (record c { receiver = some rx' }) empty up plain

  pub read_data-Answers :
      (n : ℕ) (parts : Bool) (d : List ℕ) (key : Option (List ℕ)) (c : Conn s)
      → c.rx_key ≡ key
      → c.in_buffer ≡ []
      → c.closed ≡ false
      → RoundAnswers n
          (follow s
            (meaning_data s parts c.read_fin d key c.receiver)
            c.read_fin
            key
            c.receiver
            (behind c))
          c.read_q
          (read_data s n parts d key c)
  unfolding read_data open_stream
  read_data-Answers n parts d none c same empty up =
      elim (Bool-cases ((length d == 0) && c.read_fin)) [
        | inl done ↦ rw done refl
        | inr more ↦ rw more (read_received-Answers n parts d c.receiver c refl empty up same)
      ]
  read_data-Answers n parts d (some key) c same empty up =
      elim (Bool-cases ((length d == 0) && c.read_fin)) [
        | inl done ↦ rw done refl
        | inr more ↦ elim (Bool-cases (not (length d == s.header_bytes))) [
          | inl short ↦ rw (more, short) refl
          | inr header ↦ rw (more, header) (opened_by (s.new_decryptor key d))
        ]
      ]
    where
      opened_by :
          (o : Option s.Decryptor)
          → RoundAnswers n
              (follow s (meaning_opened s o) c.read_fin (some key) c.receiver (behind c))
              c.read_q
              (open_stream s o c)
      opened_by none = refl
      opened_by (some rx) = (refl, empty, refl, inl up)

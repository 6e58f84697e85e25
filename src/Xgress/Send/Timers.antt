-- ===== src/Xgress/Send/Timers.antt =====
-- xgress/link_send_buffer.go: what the send buffer does as time passes, retransmit, scale and
-- checkForClose.
use sdk_golang.Common.{
  ℕ, ◌+◌, ◌-◌, ◌%◌, ◌^◌, Bool, true, false, not, none, some, List, [], ◌∷◌, ◌&&◌, ◌||◌, ltb, leb,
  ◌==◌, if◌then◌else◌, length, map,
}
use sdk_golang.Common.Words.{slt, add32, sub32}
use sdk_golang.Common.Map.{insert}
use sdk_golang.Xgress.Messages.{is_circuit_end_flag_set, is_flag_eof_set}
use sdk_golang.Xgress.Send.{
  Floats, TxPayload, Options, SendBuffer, not_sent, mark_queued, is_retransmittable,
}

-- slices.SortFunc by int(a.payload.Sequence - b.payload.Sequence), which the standard library gives
-- for a list of any order: b goes before a where that difference is negative.
abbrev pub insert_by_sequence : TxPayload → List TxPayload → List TxPayload
insert_by_sequence t [] = t ∷ []
insert_by_sequence t (u ∷ us) =
    if slt (sub32 u.payload.sequence t.payload.sequence) 0
    then u ∷ insert_by_sequence t us
    else t ∷ u ∷ us

abbrev pub sort_by_sequence : List TxPayload → List TxPayload
sort_by_sequence [] = []
sort_by_sequence (t ∷ ts) = insert_by_sequence t (sort_by_sequence ts)

module _ (f : Floats) where
  -- scale
  unfoldable pub scale : Options f → f.Float → SendBuffer f → SendBuffer f
  scale o factor s =
      let scaled = f.to_uint32 (f.mul (f.of_uint32 s.windows_size) factor) in
      record s {
        windows_size =
            if f.less f.one factor
            then if ltb o.tx_portal_max_size scaled then o.tx_portal_max_size else scaled
            else if ltb scaled o.tx_portal_min_size
            then o.tx_portal_min_size
            else scaled;
      }

  -- What the loop of retransmit asks of a payload. `now - age` is cut to 32 bits.
  unfoldable pub is_due : ℕ → ℕ → TxPayload → Bool
  unfolding is_retransmittable
  is_due now threshold t =
      (not (t.age == not_sent) && is_retransmittable t)
      && leb threshold ((now + 2 ^ 64 - t.age) % 2 ^ 32)

  abbrev pub due_payloads : ℕ → ℕ → List (ℕ × TxPayload) → List TxPayload
  due_payloads now threshold [] = []
  due_payloads now threshold ((k, t) ∷ m) =
      if is_due now threshold t
      then t ∷ due_payloads now threshold m
      else due_payloads now threshold m

  -- One round of the second loop of retransmit, up to the counters.
  unfoldable pub requeue : Options f → TxPayload → SendBuffer f → SendBuffer f
  unfolding mark_queued
  requeue o t s =
      let count = add32 s.retransmits 1 in
      let queued : SendBuffer f = record s {
        buffer = insert t.payload.sequence (mark_queued t) s.buffer;
      } in
      if leb o.tx_portal_retx_thresh count
      then scale o o.tx_portal_retx_scale (record queued { accumulator = 0; retransmits = 0 })
      else record queued { retransmits = count }

  unfoldable pub requeue_all : Options f → List TxPayload → SendBuffer f → SendBuffer f
  requeue_all o [] s = s
  requeue_all o (t ∷ ts) s = requeue_all o ts (requeue o t s)

  -- retransmit: the new state, and what goes to the retransmitter to be sent again.
  unfoldable pub retransmit : Options f → ℕ → SendBuffer f → SendBuffer f × List TxPayload
  retransmit o now s =
      let due = sort_by_sequence (due_payloads now s.retx_threshold s.buffer) in
      if ltb 0 (length s.buffer) && ltb 64 (now - s.last_retransmit_time)
      then (record (requeue_all o due s) { last_retransmit_time = now }, map mark_queued due)
      else (s, [])

  -- Whether the one payload that is left says that the circuit or its data has ended.
  abbrev pub is_end_only : List (ℕ × TxPayload) → Bool
  is_end_only [] = false
  is_end_only ((k, t) ∷ []) = is_circuit_end_flag_set t.payload || is_flag_eof_set t.payload
  is_end_only ((k, t) ∷ e ∷ m) = false

  abbrev pub five_seconds : ℕ
  five_seconds = 5_000_000_000

  -- checkForClose, up to what Close does outside of the buffer.
  unfoldable pub check_for_close : Options f → ℕ → SendBuffer f → SendBuffer f
  check_for_close o now s =
      let begun : ℕ = elim s.close_start [ none ↦ now | some t ↦ t ] in
      let waited = now - begun in
      let started : SendBuffer f = record s { close_start = some begun } in
      if not s.close_when_empty
      then s
      else if ((length s.buffer == 0) && ltb five_seconds waited) || ltb o.max_close_wait waited
      then record started { closed = true }
      else if ltb five_seconds waited && is_end_only s.buffer
      then record started { closed = true }
      else started

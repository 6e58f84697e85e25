-- ===== src/Edge/Conn/Write.antt =====
-- zt/edge/network/conn.go: Write and CloseWrite of edgeConn and the opening of its encryption, with
-- WriteTraced of zt/edge/conn.go.
use sdk_golang.Common.{
  ℕ, Bool, true, Option, none, some, List, [], ◌∷◌, bit_or, if◌then◌else◌, length,
}
use sdk_golang.Common.Outcome.{Outcome, ok, err, ◌>>=◌}
use sdk_golang.Xgress.Channel.{Message, Channel, get_header, put_header}
use sdk_golang.Xgress.Lifecycle.{calls_close_rx_timeout}
use sdk_golang.Edge.Messages.{flags_header, fin, multipart, or_zero, put_headers, new_data_msg}
use sdk_golang.Edge.Conn.{
  SecretStream, Env, Conn, log, sent_message, wrote, called, WriteFailure, connection_closed,
  closed_for_writes, not_encrypted, not_sent,
}

module _ (s : SecretStream) (ch : Channel) (env : Env) where
  -- The message of WriteTraced: the first message of a connection says that it takes multipart
  -- messages. Tracing is off.
  unfoldable pub traced_message : Bool → ℕ → List (ℕ × List ℕ) → List ℕ → Message
  unfolding new_data_msg
  traced_message first_sent id hdrs body =
      let msg = put_headers hdrs (new_data_msg ch id body) in
      let flags = bit_or (or_zero (get_header ch.uint32_of_bytes flags_header msg)) multipart in
      if first_sent then msg else put_header flags_header (ch.bytes_of_uint32 flags) msg

  -- WriteTraced
  unfoldable pub write_traced :
      List ℕ → List (ℕ × List ℕ) → Conn s → Outcome WriteFailure ℕ × Conn s
  unfolding traced_message
  write_traced body hdrs c =
      let msg = traced_message c.first_msg_sent c.id hdrs body in
      let marked : Conn s = record c { first_msg_sent = true } in
      if env.sends msg
      then (ok (length body), log s (sent_message msg) marked)
      else (err not_sent, marked)

  -- dataSink.Write: the sink is the write adapter of the Xgress, or the message channel.
  unfoldable pub sink_write : List ℕ → Conn s → Outcome WriteFailure ℕ × Conn s
  unfolding write_traced
  sink_write body c =
      let to_xg : Outcome WriteFailure ℕ × Conn s =
        if env.xg_writes body
        then (ok (length body), log s (wrote body) c)
        else (err not_sent, c) in
      if c.has_xg then to_xg else write_traced body [] c

  abbrev pub written : ℕ → Outcome WriteFailure ℕ × Conn s → Outcome WriteFailure ℕ × Conn s
  written n (ok m, c) = (ok n, c)
  written n (result, c) = (result, c)

  unfoldable pub write_pushed :
      List ℕ → Option (List ℕ × s.Encryptor) → Conn s → Outcome WriteFailure ℕ × Conn s
  unfolding sink_write
  write_pushed body none c = (err not_encrypted, c)
  write_pushed body (some (cipher, e)) c =
      written (length body) (sink_write cipher (record c { sender = some e }))

  unfoldable pub write_with : List ℕ → Option s.Encryptor → Conn s → Outcome WriteFailure ℕ × Conn s
  unfolding sink_write write_pushed
  write_with body none c = sink_write body c
  write_with body (some e) c = write_pushed body (s.push body e) c

  -- Write
  unfoldable pub write : List ℕ → Conn s → Outcome WriteFailure ℕ × Conn s
  unfolding write_with
  write body c =
      if c.sent_fin
      then (err (if c.closed then connection_closed else closed_for_writes), c)
      else write_with body c.sender c

  -- CloseWrite
  unfoldable pub close_write : Conn s → Outcome WriteFailure (Unit {0}) × Conn s
  unfolding write_traced
  close_write c =
      let (result, sent) =
        write_traced [] ((flags_header, ch.bytes_of_uint32 fin) ∷ [])
          (record c { sent_fin = true }) in
      let told : Conn s = if c.has_xg then log s (called calls_close_rx_timeout) sent else sent in
      if c.sent_fin then (ok tt, c) else (result >>= λ n. ok tt, told)

  -- establishClientCrypto behind the key exchange: the key to send with, and the one to read with.
  unfoldable pub establish_with :
      List ℕ → Option (s.Encryptor × List ℕ) → Conn s → Outcome WriteFailure (Unit {0}) × Conn s
  unfolding sink_write
  establish_with rx none c = (err not_encrypted, record c { sender = none })
  establish_with rx (some (e, header)) c =
      let (result, sent) = sink_write header (record c { sender = some e; rx_key = some rx }) in
      (result >>= λ n. ok tt, sent)

  unfoldable pub establish_client_crypto :
      List ℕ → List ℕ → Conn s → Outcome WriteFailure (Unit {0}) × Conn s
  unfolding establish_with
  establish_client_crypto rx tx c = establish_with rx (s.new_encryptor tx) c

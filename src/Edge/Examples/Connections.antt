-- ===== src/Edge/Examples/Connections.antt =====
-- The properties of connections at a stream that does not hide what it sends.
use sdk_golang.Common.{◌≡◌, refl, sym, ap, true, false, some, [], ◌∷◌, length}
use sdk_golang.Edge.Messages.{content_type_data}
use sdk_golang.Edge.Conn.{SecretStream, Env, Conn, new_conn, read}
use sdk_golang.Edge.Conn.Write.{write, establish_client_crypto}
use sdk_golang.Edge.Conn.Content.{concat, pending, Answers}
use sdk_golang.Edge.Conn.Reads.{read-Answers}
use sdk_golang.Edge.Conn.Sends.{sent}
use sdk_golang.Edge.Conn.Streams.{pending-written}
use sdk_golang.Edge.Conn.Lifecycle.{
  IsOrderly, perform_all, writes, closes_write, closes, mux_closes,
}
use sdk_golang.Edge.Conn.Lifecycle.Reading.{perform_all-IsOrderly}
use sdk_golang.Edge.Examples.{test_channel}

-- A key opens a stream with itself as the header, and bytes are pushed as they are.
abbrev test_stream : SecretStream
test_stream = record {
  Encryptor = Unit {0};
  Decryptor = Unit {0};
  header_bytes = 1;
  new_encryptor = λ key. some (tt, 7 ∷ []);
  new_decryptor = λ key header. some tt;
  push = λ plain e. some (plain, e);
  pull = λ cipher d. some (cipher, d);
  InSync = λ e d. Unit {0};
  opened = λ key header e made.
      (tt, refl, (let is_header : header ≡ 7 ∷ [] = cc in ap length is_header), tt);
  pulled = λ e e' d plain cipher sync pushed.
      (tt, (let is_cipher : plain ≡ cipher = cc in ap (λ c. some (c, tt)) (sym is_cipher)), tt);
}

abbrev test_env : Env
test_env = record {
  sends = λ m. true;
  next_seq = 1;
  xg_writes = λ bytes. true;
  xg_takes_payload = λ p. true;
  xg_takes_ack = λ a. true;
}

-- A connection with three bytes in its queue.
abbrev test_conn : Conn test_stream
test_conn = record (new_conn test_stream 4 false) {
  read_q = record { content_type = content_type_data; headers = []; body = 1 ∷ 2 ∷ 3 ∷ [] } ∷ [];
}

read-Answers_example :
    Answers test_stream test_channel 2
      (pending test_stream test_channel test_conn)
      (read test_stream test_channel test_env 2 false test_conn)
unfolding new_conn
read-Answers_example = read-Answers test_stream test_channel test_env 2 false test_conn refl

-- A connection that is opened with a key and writes two buffers.
abbrev opened_conn : Conn test_stream
opened_conn =
    (establish_client_crypto test_stream test_channel test_env (8 ∷ []) (9 ∷ [])
      (new_conn test_stream 4 false)).1

abbrev one_written : Conn test_stream
one_written = (write test_stream test_channel test_env (1 ∷ 2 ∷ []) opened_conn).1

abbrev two_written : Conn test_stream
two_written = (write test_stream test_channel test_env (3 ∷ []) one_written).1

abbrev test_reader : Conn test_stream
test_reader = record (new_conn test_stream 5 false) {
  rx_key = some (9 ∷ []);
  read_q = sent two_written.events;
}

pending-written_example :
    pending test_stream test_channel test_reader ≡ concat ((1 ∷ 2 ∷ []) ∷ (3 ∷ []) ∷ [])
unfolding new_conn establish_client_crypto write
pending-written_example =
    pending-written test_stream test_channel test_env 4 (some (9 ∷ [])) opened_conn two_written
      ((1 ∷ 2 ∷ []) ∷ (3 ∷ []) ∷ []) test_reader (8 ∷ [], refl)
      (one_written, refl, (two_written, refl, refl)) refl refl refl refl refl

-- A write, the end of the writes, a write behind it, a close and the close of the multiplexer.
perform_all-IsOrderly_example : IsOrderly test_stream test_channel (
    perform_all test_stream test_channel test_env
      (writes (1 ∷ []) ∷ closes_write ∷ writes (2 ∷ []) ∷ closes ∷ mux_closes ∷ [])
      (new_conn test_stream 4 false))
perform_all-IsOrderly_example =
    perform_all-IsOrderly test_stream test_channel test_env 4 false
      (writes (1 ∷ []) ∷ closes_write ∷ writes (2 ∷ []) ∷ closes ∷ mux_closes ∷ [])

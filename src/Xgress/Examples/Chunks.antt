-- ===== src/Xgress/Examples/Chunks.antt =====
-- The properties of Write and tx for buffers that need one packet and several.
use sdk_golang.Common.{ℕ, ◌≡◌, refl, false, some, List, [], ◌∷◌, arith, replicate}
use sdk_golang.Common.Outcome.{Outcome, ok, panic}
use sdk_golang.Xgress.Channel.{Message}
use sdk_golang.Xgress.Messages.{Originator}
use sdk_golang.Xgress.Messages.Codec.{marshall}
use sdk_golang.Xgress.Wire.{WireError}
use sdk_golang.Xgress.Wire.Write.{
  ChunkInput, ChunkOutput, build_chunk, chunk_tail, fill_chunk, write_u8_to_bytes_map,
  write_entries,
}
use sdk_golang.Xgress.Wire.Packets.{IsSendable, receive-build_chunk, receive, arrived}
use sdk_golang.Common.Binary.{uvarint_bytes}
use sdk_golang.Xgress.Chunks.{Writer, write}
use sdk_golang.Xgress.Chunks.Pieces.{accept}
use sdk_golang.Xgress.Chunks.WholeWrite.{Arrives, arrives, Arrives-bare, first_input}
use sdk_golang.Xgress.Examples.{test_channel, test_payload}

abbrev test_writer : Writer
test_writer = record { mtu = 40; originator = Originator.terminator; circuit_id = 7 ∷ 8 ∷ [] }

abbrev long_buffer : List ℕ
long_buffer = replicate 100 1

abbrev test_headers : List (ℕ × List ℕ)
test_headers = (5, 9 ∷ []) ∷ []

abbrev first_chunk : ChunkInput
first_chunk = first_input test_writer test_headers long_buffer 0

abbrev first_output : Outcome WireError ChunkOutput → ChunkOutput
first_output (ok out) = out
first_output _ = record { payload = test_payload 0; chunked = false; buffer = [] }

Arrives-bare_example :
    Arrives (write accept false test_writer long_buffer [] 3) 1000 test_writer long_buffer []
Arrives-bare_example =
    Arrives-bare 1000 test_writer long_buffer 3 refl (omega arith) (omega arith) (omega arith)

abbrev test_output : ChunkOutput
test_output = first_output (build_chunk first_chunk)

laid_out : build_chunk first_chunk ≡ ok test_output
unfolding build_chunk chunk_tail fill_chunk write_u8_to_bytes_map write_entries uvarint_bytes
laid_out = refl

arrives_example :
    Arrives
      (write accept false test_writer long_buffer test_headers 0)
      1000
      test_writer
      long_buffer
      test_headers
arrives_example =
    arrives 1000 test_writer test_headers long_buffer 0 test_output laid_out refl (omega arith)
      (omega arith) (omega arith)

first_chunk-IsSendable : IsSendable first_chunk 777
first_chunk-IsSendable = record {
  mtu = omega arith;
  circuit_id = omega arith;
  seq = omega arith;
  now_in_range = omega arith;
  headers = omega arith;
  byte_keys = (omega arith, tt);
  distinct = (tt, tt);
}

abbrev refuse : List ℕ → Outcome WireError Message
refuse bytes = panic

receive-build_chunk_example :
    (packet : List ℕ) × (marshall test_channel 777 test_output.payload
      ≡ ok (
        record { content_type = test_channel.content_type_raw; headers = []; body = packet },
        record (ChunkOutput.payload test_output) { raw = some packet },
      ))
    × (receive test_channel refuse packet ≡ ok (arrived first_chunk 777 test_output.payload packet))
receive-build_chunk_example =
    receive-build_chunk test_channel refuse first_chunk test_output 777 first_chunk-IsSendable
      laid_out

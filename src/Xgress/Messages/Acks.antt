-- ===== src/Xgress/Messages/Acks.antt =====
-- An acknowledgement goes through Marshall and UnmarshallAcknowledgement unchanged.
use sdk_golang.Common.{ℕ, ◌*◌, ◌≡◌, refl, List, [], ◌∷◌, length, All, arith}
use sdk_golang.Common.Words.{IsU16, IsU32}
use sdk_golang.Common.Outcome.{ok}
use sdk_golang.Xgress.Messages.{Acknowledgement}
use sdk_golang.Xgress.Channel.{Channel}
use sdk_golang.Xgress.Messages.Codec.{
  marshall_sequence, read_sequences, unmarshall_sequence, marshall_ack, unmarshall_acknowledgement,
}

read_sequences-marshall_sequence :
    (seqs : List ℕ) → All IsU32 seqs → read_sequences (marshall_sequence seqs) ≡ seqs
unfolding read_sequences marshall_sequence
read_sequences-marshall_sequence [] h = refl
read_sequences-marshall_sequence (s ∷ seqs) h =
    ground (arith, read_sequences-marshall_sequence seqs h.1, h.0)

length-marshall_sequence : (seqs : List ℕ) → length (marshall_sequence seqs) ≡ 4 * length seqs
unfolding marshall_sequence
length-marshall_sequence [] = refl
length-marshall_sequence (s ∷ seqs) = omega (arith, length-marshall_sequence seqs)

pub unmarshall-marshall_sequence :
    (seqs : List ℕ) → All IsU32 seqs → unmarshall_sequence (marshall_sequence seqs) ≡ ok seqs
unfolding unmarshall_sequence
unmarshall-marshall_sequence seqs h =
    ground (arith, length-marshall_sequence seqs, read_sequences-marshall_sequence seqs h)

pub record IsInRange (a : Acknowledgement) : Type 0 where
  pub flags : IsU32 a.flags
  pub recv_buffer_size : IsU32 a.recv_buffer_size
  pub rtt : IsU16 a.rtt
  pub sequences : All IsU32 a.sequences

-- An acknowledgement whose fields fit their Go types is unmarshalled as it was marshalled.
pub unmarshall-marshall_ack :
    (ch : Channel) (a : Acknowledgement)
    → IsInRange a
    → unmarshall_acknowledgement ch (marshall_ack ch a) ≡ ok a
unfolding unmarshall_acknowledgement marshall_ack
unmarshall-marshall_ack ch a r = ground (
  arith,
  unmarshall-marshall_sequence a.sequences r.sequences,
  ch.get_put_uint16 a.rtt r.rtt,
  ch.get_put_uint32 a.flags r.flags,
  ch.get_put_uint32 a.recv_buffer_size r.recv_buffer_size,
)

-- ===== src/Xgress/Messages/Flags.antt =====
-- The flag word of xgress/messages.go: each flag is one bit, read and written by itself.
use sdk_golang.Common.{ℕ, ◌^◌, ◌<◌, ◌≡◌, ◌≢◌, true, arith, bit_and, bit_or, ◌==◌, if◌then◌else◌}
use sdk_golang.Common.Bits.{
  bit, bit-lt, bit-bit_or, bit-bit_and, bit_and-pow, bit-pow, bit_clear_second,
}
use sdk_golang.Xgress.Messages.{
  Originator, initiator, terminator, is_flag_set, set_payload_flag, set_originator_flag,
  originator_of,
}
use native.Mathlib.Nat.{one-le-pow}

pub is_flag_set-bit : (k flags : ℕ) → is_flag_set flags (2 ^ k) ≡ (bit k flags == 1)
unfolding is_flag_set
is_flag_set-bit k flags = grind (arith, bit_and-pow k flags, bit-lt k flags, one-le-pow k 2)

-- Setting a flag sets that flag, and leaves every other flag as it was.
pub is_flag_set-set_payload_flag :
    (k j flags : ℕ)
    → is_flag_set (set_payload_flag flags (2 ^ j)) (2 ^ k)
      ≡ (if k == j then true else is_flag_set flags (2 ^ k))
unfolding set_payload_flag
is_flag_set-set_payload_flag k j flags =
    rw (is_flag_set-bit k (bit_or flags (2 ^ j)), is_flag_set-bit k flags)
      (ground (arith, bit-bit_or k flags (2 ^ j), bit-pow k j, bit-lt k flags))

-- The originator's bit of a flag word, and the other bits.
pub set_originator_flag-parts :
    (o : Originator) (flags : ℕ)
    → (originator_of (set_originator_flag flags o) ≡ o)
      × ((k : ℕ)
          → k < 32
          → k ≢ 1
          → is_flag_set (set_originator_flag flags o) (2 ^ k) ≡ is_flag_set flags (2 ^ k))
unfolding originator_of set_originator_flag
set_originator_flag-parts initiator flags = (
  rw (is_flag_set-bit 1 (bit_and 0xffff_fffd flags))
      (ground (arith, bit-bit_and 1 0xffff_fffd flags)),
  λ k small other.
      rw (is_flag_set-bit k (bit_and 0xffff_fffd flags), is_flag_set-bit k flags)
        (ground (
          arith,
          bit-bit_and k 0xffff_fffd flags,
          bit_clear_second k small,
          bit-lt k flags,
          other,
        )),
)
set_originator_flag-parts terminator flags = (
  rw (is_flag_set-bit 1 (bit_or 2 flags)) (ground (arith, bit-bit_or 1 2 flags, bit-lt 1 flags)),
  λ k small other.
      rw (is_flag_set-bit k (bit_or 2 flags), is_flag_set-bit k flags)
        (ground (arith, bit-bit_or k 2 flags, bit-pow k 1, bit-lt k flags, other)),
)

-- Writing the originator into a flag word and reading it back gives the originator, and each of the
-- 31 other flags of the word is as it was.
pub originator_of-set_originator_flag :
    (o : Originator) (flags k : ℕ)
    → k < 32
    → k ≢ 1
    → (originator_of (set_originator_flag flags o) ≡ o)
      × (is_flag_set (set_originator_flag flags o) (2 ^ k) ≡ is_flag_set flags (2 ^ k))
originator_of-set_originator_flag o flags k small other =
    ((set_originator_flag-parts o flags).0, (set_originator_flag-parts o flags).1 k small other)

-- ===== src/Common/Binary.antt =====
-- Go's encoding/binary: unsigned varints of 64-bit numbers, and big-endian words.
use sdk_golang.Common.Tests.{ltb, ◌==◌, if◌then◌else◌}
use sdk_golang.Common.Lists.{length}
use sdk_golang.Common.Words.{IsU64}
use Prim.Native.Nat.{ℕ, zero, suc, ◌+◌, ◌*◌, ◌/◌, ◌%◌, ◌^◌, ◌≤◌, ◌<◌}
use mathlib.Core.Path.{◌≡◌, ap}
use mathlib.Core.Bool.{◌&&◌}
use mathlib.Core.Logic.{◌⊎◌, inr}
use mathlib.Core.List.{List, [], ◌∷◌, ◌++◌}
use native.Mathlib.Omega.{arith}
use native.Mathlib.Nat.{pow-suc, div-add-mod}
use native.Mathlib.Numerals.{towards_suc}

-- The bytes that PutUvarint writes for a number below 2 * 128 ^ k: seven bits a byte, low group
-- first, `byte(x) | 0x80` on all but the last.
unfoldable pub put_groups : ℕ → ℕ → List ℕ
put_groups zero v = v ∷ []
put_groups (suc k) v =
    let more = put_groups k (v / 128) in if ltb v 128 then v ∷ [] else (v % 128 + 128) ∷ more

-- A uint64 takes ten groups at most.
unfoldable pub uvarint_bytes : ℕ → List ℕ
unfolding put_groups
uvarint_bytes v = put_groups 9 v

-- Uvarint returns the value and the number of bytes read, (0, 0) on a short buffer, or (0, -n)
-- when the value does not fit 64 bits.
pub data Uvarint : Type 0 where
  got : ℕ → ℕ → Uvarint
  short : Uvarint
  overflowed : ℕ → Uvarint

-- `i` bytes are read, `x` is their value and `s` the next shift.
unfoldable pub uvarint_loop : List ℕ → ℕ → ℕ → ℕ → Uvarint
uvarint_loop [] i x s = short
uvarint_loop (b ∷ bs) i x s =
    let more = uvarint_loop bs (i + 1) ((x + b % 128 * 2 ^ s) % 2 ^ 64) (s + 7) in
    if i == 10
    then overflowed (i + 1)
    else if ltb b 0x80
    then if i == 9 && ltb 1 b then overflowed (i + 1) else got ((x + b * 2 ^ s) % 2 ^ 64) (i + 1)
    else more

unfoldable pub uvarint : List ℕ → Uvarint
unfolding uvarint_loop
uvarint buf = uvarint_loop buf 0 0 0

pub length-put_groups :
    (k v : ℕ) → (1 ≤ length (put_groups k v)) × (length (put_groups k v) ≤ k + 1)
unfolding put_groups
length-put_groups zero v = omega arith
length-put_groups (suc k) v = ground (arith, length-put_groups k (v / 128))

pub length-uvarint_bytes :
    (v : ℕ) → (1 ≤ length (uvarint_bytes v)) × (length (uvarint_bytes v) ≤ 10)
unfolding uvarint_bytes
length-uvarint_bytes v = length-put_groups 9 v

pow_step : (s : ℕ) → 2 ^ (s + 7) ≡ 128 * 2 ^ s
pow_step s = simp towards_suc (omega arith)

-- The value of a group and of the groups behind it.
group_value : (v s : ℕ) → v % 128 * 2 ^ s + v / 128 * 2 ^ (s + 7) ≡ v * 2 ^ s
group_value v s =
    omega (
      arith,
      ap (λ (t : ℕ). t * 2 ^ s) (div-add-mod v 128),
      ap (λ (t : ℕ). v / 128 * t) (pow_step s),
    )

last_group :
    (v i x s : ℕ) (rest : List ℕ)
    → v < 128
    → i < 9 ⊎ (i ≡ 9) × (v < 2)
    → x + v * 2 ^ s < 2 ^ 64
    → uvarint_loop (v ∷ rest) i x s ≡ got (x + v * 2 ^ s) (i + 1)
unfolding uvarint_loop
last_group v i x s rest hv hi fits = ground arith

next_group :
    (g i x s : ℕ) (rest : List ℕ)
    → g < 128
    → i < 10
    → x + g * 2 ^ s < 2 ^ 64
    → uvarint_loop ((g + 128) ∷ rest) i x s ≡ uvarint_loop rest (i + 1) (x + g * 2 ^ s) (s + 7)
unfolding uvarint_loop
next_group g i x s rest hg hi fits =
    let low : (g + 128) % 128 ≡ g = omega arith in ground (arith, low)

uvarint_loop-put_groups :
    (k v i x s : ℕ) (rest : List ℕ)
    → i + k ≡ 9
    → v < 2 * 128 ^ k
    → x + v * 2 ^ s < 2 ^ 64
    → uvarint_loop (put_groups k v ++ rest) i x s
      ≡ got (x + v * 2 ^ s) (i + length (put_groups k v))
unfolding put_groups
uvarint_loop-put_groups zero v i x s rest hi hv fits =
    last_group v i x s rest (omega arith) (inr (omega arith)) fits
uvarint_loop-put_groups (suc k) v i x s rest hi hv fits = ground (
  arith,
  last_group v i x s rest,
  next_group (v % 128) i x s (put_groups k (v / 128) ++ rest),
  group_value v s,
  pow-suc 128 k,
  uvarint_loop-put_groups k (v / 128) (i + 1) (x + v % 128 * 2 ^ s) (s + 7) rest (omega arith)
      (omega (arith, pow-suc 128 k)) (omega (arith, group_value v s)),
)

-- Uvarint reads back what PutUvarint wrote, whatever follows it.
pub uvarint-uvarint_bytes :
    (v : ℕ) (rest : List ℕ)
    → IsU64 v
    → uvarint (uvarint_bytes v ++ rest) ≡ got v (length (uvarint_bytes v))
unfolding uvarint uvarint_bytes
uvarint-uvarint_bytes v rest h =
    ground (arith, uvarint_loop-put_groups 9 v 0 0 0 rest (omega arith) (omega arith) (omega arith))

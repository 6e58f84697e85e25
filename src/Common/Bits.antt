-- ===== src/Common/Bits.antt =====
-- The binary digits of a number, and what `&` and `|` do to them.
use Prim.Native.Nat.{
  ℕ, zero, suc, ◌+◌, ◌-◌, ◌*◌, ◌/◌, ◌%◌, ◌^◌, ◌≤◌, ◌<◌, min, max, bit_and, bit_or, digits,
  bit_and-bitwise, bit_or-bitwise,
}
use mathlib.Core.Path.{◌≡◌, refl, ap}
use native.Mathlib.Omega.{arith}
use native.Mathlib.Nat.{pow-suc}
use mathlib.Core.Bool.{Bool, true, ◌&&◌}
use sdk_golang.Common.Tests.{◌==◌, if◌then◌else◌, ==_iff}

-- The digit of weight 2 ^ k.
abbrev pub bit : ℕ → ℕ → ℕ
bit zero a = a % 2
bit (suc k) a = bit k (a / 2)

pub bit-lt : (k a : ℕ) → bit k a < 2
bit-lt zero a = omega arith
bit-lt (suc k) a = bit-lt k (a / 2)

bit-zero : (k : ℕ) → bit k 0 ≡ 0
bit-zero zero = refl
bit-zero (suc k) = bit-zero k

-- Beyond the first operand the recursion's fuel is not used.
module _ (z : ℕ → ℕ) (f : ℕ → ℕ → ℕ) where
  spare_fuel : (a b n m : ℕ) → a ≤ n → a ≤ m → digits z f n a b ≡ digits z f m a b
  spare_fuel a b zero zero hn hm = refl
  spare_fuel zero b zero (suc m) hn hm = refl
  spare_fuel (suc a) b zero (suc m) hn hm = absurd (omega arith)
  spare_fuel zero b (suc n) zero hn hm = refl
  spare_fuel (suc a) b (suc n) zero hn hm = absurd (omega arith)
  spare_fuel zero b (suc n) (suc m) hn hm = refl
  spare_fuel (suc a) b (suc n) (suc m) hn hm =
      ap (λ (t : ℕ). t * 2 + f (suc a % 2) (b % 2))
        (spare_fuel (suc a / 2) (b / 2) n m (omega arith) (omega arith))

pub bit_and_digit : (a b : ℕ) → bit_and a b ≡ bit_and (a / 2) (b / 2) * 2 + min (a % 2) (b % 2)
bit_and_digit zero b = omega (arith, bit_and-bitwise 0 b, bit_and-bitwise 0 (b / 2))
bit_and_digit (suc a) b = omega (
  arith,
  bit_and-bitwise (suc a) b,
  bit_and-bitwise (suc a / 2) (b / 2),
  spare_fuel (λ _. 0) min (suc a / 2) (b / 2) a (suc a / 2) (omega arith) (omega arith),
)

pub bit_or_digit : (a b : ℕ) → bit_or a b ≡ bit_or (a / 2) (b / 2) * 2 + max (a % 2) (b % 2)
bit_or_digit zero b = omega (arith, bit_or-bitwise 0 b, bit_or-bitwise 0 (b / 2))
bit_or_digit (suc a) b = omega (
  arith,
  bit_or-bitwise (suc a) b,
  bit_or-bitwise (suc a / 2) (b / 2),
  spare_fuel (λ y. y) max (suc a / 2) (b / 2) a (suc a / 2) (omega arith) (omega arith),
)

pub bit-bit_or : (k a b : ℕ) → bit k (bit_or a b) ≡ max (bit k a) (bit k b)
bit-bit_or zero a b = omega (arith, bit_or_digit a b)
bit-bit_or (suc k) a b =
    let half : bit_or a b / 2 ≡ bit_or (a / 2) (b / 2) = omega (arith, bit_or_digit a b) in
    rw half (bit-bit_or k (a / 2) (b / 2))

pub bit-bit_and : (k a b : ℕ) → bit k (bit_and a b) ≡ min (bit k a) (bit k b)
bit-bit_and zero a b = omega (arith, bit_and_digit a b)
bit-bit_and (suc k) a b =
    let half : bit_and a b / 2 ≡ bit_and (a / 2) (b / 2) = omega (arith, bit_and_digit a b) in
    rw half (bit-bit_and k (a / 2) (b / 2))

-- A mask of one bit picks that digit.
pub bit_and-pow : (k a : ℕ) → bit_and a (2 ^ k) ≡ bit k a * 2 ^ k
bit_and-pow zero a =
    let none_left : bit_and (a / 2) 0 ≡ 0 = bit_and-right_zero (a / 2) (a / 2) (omega arith) in
    omega (arith, bit_and_digit a 1)
  where
    bit_and-right_zero : (n b : ℕ) → b ≤ n → bit_and b 0 ≡ 0
    bit_and-right_zero n zero h = refl
    bit_and-right_zero zero (suc b) h = absurd (omega arith)
    bit_and-right_zero (suc n) (suc b) h =
        omega (arith, bit_and_digit (suc b) 0, bit_and-right_zero n (suc b / 2) (omega arith))
bit_and-pow (suc k) a = omega (
  arith,
  pow-suc 2 k,
  bit_and_digit a (2 ^ suc k),
  ap (bit_and (a / 2)) half,
  bit_and-pow k (a / 2),
  ap (λ (t : ℕ). bit k (a / 2) * t) (pow-suc 2 k),
)
  where
    half : 2 ^ suc k / 2 ≡ 2 ^ k
    half = omega (arith, pow-suc 2 k)

bit-pow_self : (k : ℕ) → bit k (2 ^ k) ≡ 1
bit-pow_self zero = refl
bit-pow_self (suc k) =
    let half : 2 ^ suc k / 2 ≡ 2 ^ k = omega (arith, pow-suc 2 k) in rw half (bit-pow_self k)

pub bit-pow : (k j : ℕ) → bit k (2 ^ j) ≡ (if k == j then 1 else 0)
bit-pow zero zero = refl
bit-pow zero (suc j) = grind (arith, pow-suc 2 j)
bit-pow (suc k) zero = grind (arith, bit-zero k)
bit-pow (suc k) (suc j) =
    let half : 2 ^ suc j / 2 ≡ 2 ^ j = omega (arith, pow-suc 2 j) in
    rw half (ground (arith, bit-pow k j))

-- A test that holds of every number below a bound, by evaluation.
unfoldable pub every_below : (ℕ → Bool) → ℕ → Bool
every_below test zero = true
every_below test (suc bound) = every_below test bound && test bound

pub every_below_at :
    (test : ℕ → Bool) (bound k : ℕ) → k < bound → every_below test bound ≡ true → test k ≡ true
unfolding every_below
every_below_at test zero k small all = absurd (omega (arith, small))
every_below_at test (suc bound) k small all =
    ground (arith, small, all, every_below_at test bound k)

clear_second_table : every_below (λ k. bit k 0xffff_fffd == (if k == 1 then 0 else 1)) 32 ≡ true
unfolding every_below
clear_second_table = refl

-- The digits of the complement of 2 in 32 bits.
pub bit_clear_second : (k : ℕ) → k < 32 → bit k 0xffff_fffd ≡ (if k == 1 then 0 else 1)
bit_clear_second k h = (==_iff _ _).0 (every_below_at _ 32 k h clear_second_table)

double-pow : (b k : ℕ) → b * 2 ^ suc k ≡ 2 * (b * 2 ^ k)
double-pow b k = omega (arith, ap (λ (t : ℕ). b * t) (pow-suc 2 k))

-- `a | b << k` is a sum where `a` has k bits.
pub bit_or-shift : (k a b : ℕ) → a < 2 ^ k → bit_or a (b * 2 ^ k) ≡ a + b * 2 ^ k
bit_or-shift zero zero b h = omega (arith, bit_or-bitwise 0 (b * 2 ^ 0))
bit_or-shift zero (suc a) b h = absurd (omega arith)
bit_or-shift (suc k) a b h =
    let half : b * 2 ^ suc k / 2 ≡ b * 2 ^ k = omega (arith, double-pow b k) in
    omega (
      arith,
      bit_or_digit a (b * 2 ^ suc k),
      ap (bit_or (a / 2)) half,
      bit_or-shift k (a / 2) b (omega (arith, pow-suc 2 k)),
      double-pow b k,
    )

-- A mask of k ones keeps a number of k bits.
pub bit_and-ones : (k a : ℕ) → a < 2 ^ k → bit_and a (2 ^ k - 1) ≡ a
bit_and-ones zero zero h = refl
bit_and-ones zero (suc a) h = absurd (omega arith)
bit_and-ones (suc k) a h =
    let half : (2 ^ suc k - 1) / 2 ≡ 2 ^ k - 1 = omega (arith, pow-suc 2 k) in
    omega (
      arith,
      pow-suc 2 k,
      bit_and_digit a (2 ^ suc k - 1),
      ap (bit_and (a / 2)) half,
      bit_and-ones k (a / 2) (omega (arith, pow-suc 2 k)),
    )

bit_or-right_zero : (n b : ℕ) → b ≤ n → bit_or b 0 ≡ b
bit_or-right_zero n zero h = refl
bit_or-right_zero zero (suc b) h = absurd (omega arith)
bit_or-right_zero (suc n) (suc b) h =
    omega (arith, bit_or_digit (suc b) 0, bit_or-right_zero n (suc b / 2) (omega arith))

-- The same with the shifted operand in front.
pub shift-bit_or : (k a b : ℕ) → a < 2 ^ k → bit_or (b * 2 ^ k) a ≡ b * 2 ^ k + a
shift-bit_or zero zero b h = omega (arith, bit_or-right_zero (b * 2 ^ 0) (b * 2 ^ 0) (omega arith))
shift-bit_or zero (suc a) b h = absurd (omega arith)
shift-bit_or (suc k) a b h =
    let half : b * 2 ^ suc k / 2 ≡ b * 2 ^ k = omega (arith, double-pow b k) in
    omega (
      arith,
      bit_or_digit (b * 2 ^ suc k) a,
      ap (λ t. bit_or t (a / 2)) half,
      shift-bit_or k (a / 2) b (omega (arith, pow-suc 2 k)),
      double-pow b k,
    )

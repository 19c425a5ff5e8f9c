-- ===== src/Common/Bits.antt =====
-- Shifts, masks and `|` on words, as arithmetic.
use Prim.Native.Nat.{
  ℕ, zero, suc, ◌+◌, ◌-◌, ◌*◌, ◌/◌, ◌%◌, ◌^◌, ◌≤◌, ◌<◌, max, digits, bit_or, bit_or-bitwise,
}
use mathlib.Core.Path.{◌≡◌, refl, ap}
use mathlib.Core.Bool.{Bool, true, false}
use native.Mathlib.Omega.{arith}
use native.Mathlib.Nat.{pow-suc}
use mock_lab.Common.Tests.{ltb, if◌then◌else◌}

-- `x & (1<<k - 1)`
abbrev pub low_bits : ℕ → ℕ → ℕ
low_bits x k = x % 2 ^ k

-- `x >> k` on an unsigned word.
abbrev pub shr : ℕ → ℕ → ℕ
shr x k = x / 2 ^ k

-- `x >> k` on an int64, which is its pattern of 64 bits: the sign is shifted in.
abbrev pub sar : ℕ → ℕ → ℕ
sar x k = if ltb x (2 ^ 63) then x / 2 ^ k else x / 2 ^ k + (2 ^ 64 - 2 ^ (64 - k))

-- A test that every number under a bound passes.
unfoldable pub passes_under : (ℕ → Bool) → ℕ → Bool
passes_under test zero = true
passes_under test (suc top) = if test top then passes_under test top else false

pub passes_under_lem :
    (test : ℕ → Bool) (bound c : ℕ) → c < bound → passes_under test bound ≡ true → test c ≡ true
unfolding passes_under
passes_under_lem test zero c below passed = absurd (omega (arith, below))
passes_under_lem test (suc top) c below passed = ground (arith, passes_under_lem test top c)

-- The digits of `x | y`, of which `k` are written.
abbrev or_digits : ℕ → ℕ → ℕ → ℕ
or_digits k x y = digits (λ rest. rest) max k x y

-- Any count of digits does that is not below the first number.
or_digits-enough : (x k l y : ℕ) → (x ≤ k) × (x ≤ l) → or_digits k x y ≡ or_digits l x y
or_digits-enough zero zero zero y _ = refl
or_digits-enough zero zero (suc l) y _ = refl
or_digits-enough zero (suc k) zero y _ = refl
or_digits-enough zero (suc k) (suc l) y _ = refl
or_digits-enough (suc x) zero l y (low, _) = absurd (omega (arith, low))
or_digits-enough (suc x) (suc k) zero y (_, low) = absurd (omega (arith, low))
or_digits-enough (suc x) (suc k) (suc l) y (h, g) =
    omega (arith, or_digits-enough (suc x / 2) k l (y / 2) (omega (arith, h), omega (arith, g)))

-- The lowest digit of `x | y` and the digits above it.
bit_or-halves : (x y : ℕ) → bit_or (x / 2) (y / 2) * 2 + max (x % 2) (y % 2) ≡ bit_or x y
bit_or-halves zero y = omega (arith, bit_or-bitwise 0 (y / 2), bit_or-bitwise 0 y)
bit_or-halves (suc x) y =
    let half = suc x / 2 in
    let enough : (half ≤ x) × (half ≤ half) = (omega arith, omega arith) in
    omega (
      arith,
      or_digits-enough half x half (y / 2) enough,
      bit_or-bitwise half (y / 2),
      bit_or-bitwise (suc x) y,
    )

bit_or-zero_below : (n a : ℕ) → a ≤ n → bit_or a 0 ≡ a
bit_or-zero_below n zero h = omega (arith, bit_or-bitwise 0 0)
bit_or-zero_below zero (suc a) h = absurd (omega arith)
bit_or-zero_below (suc n) (suc a) h =
    omega (arith, bit_or-halves (suc a) 0, bit_or-zero_below n (suc a / 2) (omega arith))

doubled : (hi k : ℕ) → hi * 2 ^ suc k ≡ 2 * (hi * 2 ^ k)
doubled hi k = omega (arith, ap (λ (t : ℕ). hi * t) (pow-suc 2 k))

-- `hi<<k | lo` is a sum when `lo` fits in `k` bits.
pub bit_or-shifted : (k hi lo : ℕ) → lo < 2 ^ k → bit_or (hi * 2 ^ k) lo ≡ hi * 2 ^ k + lo
bit_or-shifted zero hi lo h =
    let e : lo ≡ 0 = omega arith in rw e (omega (arith, bit_or-zero_below (hi * 1) (hi * 1)))
bit_or-shifted (suc k) hi lo h = ground (
  arith,
  doubled hi k,
  bit_or-halves (hi * 2 ^ suc k) lo,
  bit_or-shifted k hi (lo / 2) (omega (arith, pow-suc 2 k)),
)

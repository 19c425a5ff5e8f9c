-- ===== src/Common/Integer.antt =====
-- `strconv.ParseInt(s, 10, 64)` and the product of two values of type int64.
use Prim.Native.Nat.{ℕ, zero, suc, ◌+◌, ◌-◌, ◌*◌, ◌/◌, ◌%◌, ◌^◌, ◌<◌}
use mathlib.Core.Path.{◌≡◌, refl, ap, sym, ◌∙◌}
use mathlib.Core.Logic.{inl, inr}
use mathlib.Core.Bool.{Bool, true, false, ◌&&◌}
use mathlib.Core.Option.{Option, none, some}
use mathlib.Core.List.{[], ◌∷◌}
use native.Mathlib.Omega.{arith}
use mock_lab.Common.Tests.{ltb, leb, ◌==◌, Bool-cases, if◌then◌else◌}
use mock_lab.Common.Lists.{all}
use mock_lab.Common.Text.{Bytes}
use mock_lab.Common.Decimal.{decimal, decimal_loop}
use mock_lab.Common.Int.{ℤ, pos, negsuc}

abbrev pub is_digit : ℕ → Bool
is_digit c = leb b'0' c && leb c b'9'

-- The number that digits stand for behind `acc`.
pub parse_digits : ℕ → Bytes → Option ℕ
parse_digits acc [] = some acc
parse_digits acc (c ∷ s) =
    let rest = parse_digits (acc * 10 + (c - b'0')) s in if is_digit c then rest else none

-- At least one digit.
pub parse_nat : Bytes → Option ℕ
unfolding parse_digits
parse_nat [] = none
parse_nat (c ∷ s) = parse_digits 0 (c ∷ s)

negative : ℕ → ℤ
negative zero = pos 0
negative (suc n) = negsuc n

-- `none` stands for the errors of syntax and of range.
unfoldable pub parse_int : Bytes → Option ℤ
unfolding parse_nat negative
parse_int [] = none
parse_int (c ∷ s) =
    let positive : Bytes → Option ℤ = λ t. elim (parse_nat t) [
      | none ↦ none
      | some n ↦ if ltb n (2 ^ 63) then some (pos n) else none
    ] in
    let below : Option ℤ = elim (parse_nat s) [
      | none ↦ none
      | some n ↦ if leb n (2 ^ 63) then some (negative n) else none
    ] in
    if c == b'-' then below else if c == b'+' then positive s else positive (c ∷ s)

-- The int64 of a pattern of 64 bits.
pub of_word : ℕ → ℤ
of_word w = if ltb w (2 ^ 63) then pos w else negsuc (2 ^ 64 - 1 - w)

-- `a * b`, wrapped around.
pub mul_int64 : ℤ → ℤ → ℤ
unfolding of_word
mul_int64 (pos a) (pos b) = of_word (a * b % 2 ^ 64)
mul_int64 (pos a) (negsuc b) = of_word ((2 ^ 64 - a * suc b % 2 ^ 64) % 2 ^ 64)
mul_int64 (negsuc a) (pos b) = of_word ((2 ^ 64 - suc a * b % 2 ^ 64) % 2 ^ 64)
mul_int64 (negsuc a) (negsuc b) = of_word (suc a * suc b % 2 ^ 64)

-- The pattern of 64 bits of an int64.
pub word_of : ℤ → ℕ
word_of (pos n) = n % 2 ^ 64
word_of (negsuc n) = (2 ^ 64 - suc n % 2 ^ 64) % 2 ^ 64

-- `a + b`, wrapped around.
pub add_int64 : ℤ → ℤ → ℤ
unfolding word_of of_word
add_int64 a b = of_word ((word_of a + word_of b) % 2 ^ 64)

pub word_of-of_word : (w : ℕ) → w < 2 ^ 64 → word_of (of_word w) ≡ w
unfolding word_of of_word
word_of-of_word w h = ground arith

-- A sum with the int64 of a pattern is that of the sum of the patterns.
pub add_int64-of_word :
    (w : ℕ) (z : ℤ) → w < 2 ^ 64 → add_int64 (of_word w) z ≡ of_word ((w + word_of z) % 2 ^ 64)
unfolding add_int64
add_int64-of_word w z h = ap (λ v. of_word ((v + word_of z) % 2 ^ 64)) (word_of-of_word w h)

pub of_word_small : (n : ℕ) → n < 2 ^ 63 → of_word n ≡ pos n
unfolding of_word
of_word_small n h = ground arith

pub word_of_small : (n : ℕ) → n < 2 ^ 63 → word_of (pos n) ≡ n
unfolding word_of
word_of_small n h = omega arith

pub add_int64_exact : (a b : ℕ) → a + b < 2 ^ 63 → add_int64 (pos a) (pos b) ≡ pos (a + b)
unfolding add_int64 of_word
add_int64_exact a b h =
    let e : (a % 2 ^ 64 + b % 2 ^ 64) % 2 ^ 64 ≡ a + b = omega arith in ground arith

pub mul_int64_exact : (a b : ℕ) → a * b < 2 ^ 63 → mul_int64 (pos a) (pos b) ≡ pos (a * b)
unfolding mul_int64
mul_int64_exact a b h =
    let e : a * b % 2 ^ 64 ≡ a * b = omega (arith, mod_below (a * b)) in ground arith
  where
    mod_below : (n : ℕ) → n < 2 ^ 63 → n % 2 ^ 64 ≡ n
    mod_below n h = omega arith

parse_digits-decimal_loop :
    (k n : ℕ) (out : Bytes) (m : ℕ)
    → n < k
    → parse_digits n out ≡ some m
    → parse_digits 0 (decimal_loop k n out) ≡ some m
unfolding parse_digits decimal_loop
parse_digits-decimal_loop zero n out m h e = absurd (omega arith)
parse_digits-decimal_loop (suc k) n out m h e =
    let last : n / 10 * 10 + (b'0' + n % 10 - b'0') ≡ n = omega arith in
    let digit : parse_digits (n / 10) ((b'0' + n % 10) ∷ out) ≡ some m =
      ground (arith, ap (λ i. parse_digits i out) last) in
    let only : ltb n 10 ≡ true → parse_digits 0 ((b'0' + n) ∷ out) ≡ some m = λ lt.
      let same : 0 * 10 + (b'0' + n - b'0') ≡ n = omega arith in
      ground (arith, ap (λ i. parse_digits i out) same) in
    let more : ltb n 10 ≡ false
        → parse_digits 0 (decimal_loop k (n / 10) ((b'0' + n % 10) ∷ out)) ≡ some m =
      λ ge. parse_digits-decimal_loop k (n / 10) ((b'0' + n % 10) ∷ out) m (ground arith) digit in
    elim (Bool-cases (ltb n 10)) [ inl lt ↦ rw lt (only lt) | inr ge ↦ rw ge (more ge) ]

-- The text of a number is not empty, and starts with a digit.
decimal_loop-starts :
    (k n : ℕ) (out : Bytes)
    → n < k
    → (c : ℕ) × (s : Bytes) × (decimal_loop k n out ≡ c ∷ s) × (is_digit c ≡ true)
unfolding decimal_loop
decimal_loop-starts zero n out h = absurd (omega arith)
decimal_loop-starts (suc k) n out h = elim (Bool-cases (ltb n 10)) [
  | inl lt ↦ (b'0' + n, out, rw lt refl, ground arith)
  | inr ge ↦
      let (c, s, e, d) = decimal_loop-starts k (n / 10) ((b'0' + n % 10) ∷ out) (ground arith) in
      (c, s, rw ge e, d)
]

decimal_loop-digits :
    (k n : ℕ) (out : Bytes)
    → n < k
    → all is_digit out ≡ true
    → all is_digit (decimal_loop k n out) ≡ true
unfolding decimal_loop
decimal_loop-digits zero n out h e = absurd (omega arith)
decimal_loop-digits (suc k) n out h e =
    ground (arith, decimal_loop-digits k (n / 10) ((b'0' + n % 10) ∷ out))

-- The text of a number has digits only.
pub decimal-digits : (n : ℕ) → all is_digit (decimal n) ≡ true
unfolding decimal
decimal-digits n = decimal_loop-digits (suc n) n [] (omega arith) refl

pub parse_nat-decimal : (n : ℕ) → parse_nat (decimal n) ≡ some n
unfolding parse_nat decimal
parse_nat-decimal n =
    let (c, s, e, _) = decimal_loop-starts (suc n) n [] (omega arith) in
    let read : parse_digits 0 (decimal_loop (suc n) n []) ≡ some n =
      parse_digits-decimal_loop (suc n) n [] n (omega arith) (unfold parse_digits in refl) in
    rw e (ap (parse_digits 0) (sym e) ∙ read)

-- Reading the text of a number that fits gives it back.
pub parse_int-decimal : (n : ℕ) → n < 2 ^ 63 → parse_int (decimal n) ≡ some (pos n)
unfolding parse_int decimal
parse_int-decimal n h =
    let (c, s, e, d) = decimal_loop-starts (suc n) n [] (omega arith) in
    let whole : parse_nat (c ∷ s) ≡ some n = ap parse_nat (sym e) ∙ parse_nat-decimal n in
    rw e (ground (arith, whole))

-- ===== src/Common/Url.antt =====
-- Percent encoding as package net/url does it: `PathEscape` and `QueryEscape`.
use Prim.Native.Nat.{ℕ, ◌+◌, ◌-◌, ◌*◌, ◌/◌, ◌%◌, ◌<◌}
use mathlib.Core.Path.{◌≡◌, refl, ap, ◌∙◌}
use mathlib.Core.Logic.{◌≢◌, inl, inr}
use mathlib.Core.Bool.{Bool, true, false, not, ◌&&◌, ◌||◌}
use mathlib.Core.List.{[], ◌∷◌}
use mathlib.Core.Option
use mathlib.Core.Option.{Option, none, some}
use native.Mathlib.Omega.{arith}
use mock_lab.Common.Tests.{ltb, leb, ◌==◌, if◌then◌else◌, Bool-cases}
use mock_lab.Common.Lists.{All}
use mock_lab.Common.Text.{Bytes}
use mock_lab.Common.Bits.{passes_under, passes_under_lem}
use mock_lab.Common.Hex.{IsBytes}

abbrev pub is_alnum : ℕ → Bool
is_alnum c = leb b'a' c && leb c b'z' || leb b'A' c && leb c b'Z' || leb b'0' c && leb c b'9'

abbrev pub is_mark : ℕ → Bool
is_mark c = c == b'-' || c == b'_' || c == b'.' || c == b'~'

-- `shouldEscape(c, encodePathSegment)`
unfoldable pub escapes_in_path : ℕ → Bool
escapes_in_path c = not (
    is_alnum c
    || is_mark c
    || c == b'$'
    || c == b'&'
    || c == b'+'
    || c == b':'
    || c == b'='
    || c == b'@')

-- `shouldEscape(c, encodeQueryComponent)`
unfoldable pub escapes_in_query : ℕ → Bool
escapes_in_query c = not (is_alnum c || is_mark c)

-- An upper-case hexadecimal digit, and its value.
unfoldable pub upper_hex : ℕ → ℕ
upper_hex d = if ltb d 10 then b'0' + d else 55 + d

unfoldable pub upper_value : ℕ → ℕ
upper_value c = if leb c b'9' then c - b'0' else c - 55

-- `url.PathEscape`
unfoldable pub path_escape : Bytes → Bytes
path_escape [] = []
path_escape (c ∷ s) =
    let rest = path_escape s in
    if escapes_in_path c then b'%' ∷ upper_hex (c / 16) ∷ upper_hex (c % 16) ∷ rest else c ∷ rest

-- `url.QueryEscape`
unfoldable pub query_escape : Bytes → Bytes
query_escape [] = []
query_escape (c ∷ s) =
    let rest = query_escape s in
    if c == b' '
    then b'+' ∷ rest
    else if escapes_in_query c
    then b'%' ∷ upper_hex (c / 16) ∷ upper_hex (c % 16) ∷ rest
    else c ∷ rest

-- What a reader of a path segment does: `%XY` is a byte, and all else stands for itself.
unfoldable pub path_unescape : Bytes → Option Bytes
path_unescape [] = some []
path_unescape (c ∷ []) = if c == b'%' then none else some (c ∷ [])
path_unescape (c ∷ x ∷ []) = if c == b'%' || x == b'%' then none else some (c ∷ x ∷ [])
path_unescape (c ∷ x ∷ y ∷ s) =
    let coded = Option.map (λ t. (upper_value x * 16 + upper_value y) ∷ t) (path_unescape s) in
    let plain = Option.map (λ t. c ∷ t) (path_unescape (x ∷ y ∷ s)) in
    if c == b'%' then coded else plain

upper_value-upper_hex : (d : ℕ) → d < 16 → upper_value (upper_hex d) ≡ d
unfolding upper_value upper_hex
upper_value-upper_hex d h = ground arith

pub path_unescape-cons :
    (c : ℕ) (t : Bytes)
    → c ≢ b'%'
    → path_unescape (c ∷ t) ≡ Option.map (λ u. c ∷ u) (path_unescape t)
unfolding path_unescape
path_unescape-cons c [] h = ground arith
path_unescape-cons c (x ∷ []) h = ground arith
path_unescape-cons c (x ∷ y ∷ s) h = ground arith

pub path_unescape_coded :
    (c : ℕ) (t : Bytes)
    → c < 256
    → path_unescape (b'%' ∷ upper_hex (c / 16) ∷ upper_hex (c % 16) ∷ t)
      ≡ Option.map (λ u. c ∷ u) (path_unescape t)
unfolding path_unescape
path_unescape_coded c t h =
    let e : upper_value (upper_hex (c / 16)) * 16 + upper_value (upper_hex (c % 16)) ≡ c =
      omega (arith, upper_value-upper_hex (c / 16), upper_value-upper_hex (c % 16)) in
    ap (λ d. Option.map (λ u. d ∷ u) (path_unescape t)) e

not_percent : (c : ℕ) → escapes_in_path c ≡ false → c ≢ b'%'
unfolding escapes_in_path
not_percent c e same = ground arith

-- Unescaping gives every byte string back.
pub path_unescape-path_escape : (s : Bytes) → IsBytes s → path_unescape (path_escape s) ≡ some s
unfolding path_escape
path_unescape-path_escape [] h = unfold path_unescape in refl
path_unescape-path_escape (c ∷ s) (p, h) =
    let rest = ap (Option.map (λ u. c ∷ u)) (path_unescape-path_escape s h) in
    elim (Bool-cases (escapes_in_path c)) [
      | inl coded ↦ rw coded (path_unescape_coded c (path_escape s) p ∙ rest)
      | inr plain ↦ rw plain (path_unescape-cons c (path_escape s) (not_percent c plain) ∙ rest)
    ]

-- The bytes that an escaped path segment is made of.
abbrev pub is_segment_byte : ℕ → Bool
is_segment_byte c = not (escapes_in_path c) || c == b'%'

upper_hex-segment : (d : ℕ) → d < 16 → is_segment_byte (upper_hex d) ≡ true
unfolding escapes_in_path upper_hex
upper_hex-segment d h =
    passes_under_lem (λ i. is_segment_byte (upper_hex i)) 16 d h (unfold passes_under in refl)

pub path_escape-segment :
    (s : Bytes) → IsBytes s → All (λ c. is_segment_byte c ≡ true) (path_escape s)
unfolding path_escape
path_escape-segment [] h = tt
path_escape-segment (c ∷ s) (p, h) = elim (Bool-cases (escapes_in_path c)) [
  | inl coded ↦ rw coded (
    ground arith,
    (
      upper_hex-segment (c / 16) (omega arith),
      (upper_hex-segment (c % 16) (omega arith), path_escape-segment s h),
    ),
  )
  | inr plain ↦ rw plain (rw plain refl, path_escape-segment s h)
]

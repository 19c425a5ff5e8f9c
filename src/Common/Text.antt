-- ===== src/Common/Text.antt =====
-- Go strings as lists of bytes, with the functions of package strings that the programs call.
use Prim.Native.Char.{code}
use Prim.Native.String.{String}
use Prim.Native.Nat.{ℕ, ◌+◌, ◌/◌, ◌%◌}
use mathlib.Core.Path.{◌≡◌, refl, ap₂, ◌∙◌}
use mathlib.Core.Logic.{◌↔◌}
use mathlib.Core.Bool.{Bool, true, false, not, ◌&&◌, ◌||◌}
use mathlib.Core.List.{List, [], ◌∷◌, ◌++◌, map, reverse, reverse-append}
use mathlib.Core.Option.{Option, none, some}
use native.Mathlib.Omega.{arith}
use mock_lab.Common.Lists.{all, all-reverse, reverse-reverse}
use mock_lab.Common.Tests.{leb, ltb, ◌==◌, if◌then◌else◌}

abbrev pub Bytes : Type 0
Bytes = List ℕ

-- The bytes of an ASCII literal.
unfoldable pub codes : String → Bytes
codes String.[] = []
codes (String.◌∷◌ c s) = code c ∷ codes s

-- `s == t`
unfoldable pub text_eq : Bytes → Bytes → Bool
text_eq [] [] = true
text_eq (c ∷ s) (d ∷ t) = c == d && text_eq s t
text_eq _ _ = false

pub text_eq_sound : (s t : Bytes) → text_eq s t ≡ true → s ≡ t
unfolding text_eq
text_eq_sound [] [] h = refl
text_eq_sound (c ∷ s) (d ∷ t) h = ap₂ ◌∷◌ (ground arith) (text_eq_sound s t (ground arith))
text_eq_sound [] (d ∷ t) h = cc
text_eq_sound (c ∷ s) [] h = cc

pub text_eq_refl : (s : Bytes) → text_eq s s ≡ true
unfolding text_eq
text_eq_refl [] = refl
text_eq_refl (c ∷ s) = ground (arith, text_eq_refl s)

pub text_eq_iff : (s t : Bytes) → (text_eq s t ≡ true) ↔ (s ≡ t)
text_eq_iff s t = (text_eq_sound s t, λ e. rw e (text_eq_refl t))

pub text_eq-append : (p s t : Bytes) → text_eq (p ++ s) (p ++ t) ≡ text_eq s t
unfolding text_eq
text_eq-append [] s t = refl
text_eq-append (c ∷ p) s t = ground (arith, text_eq-append p s t)

-- `s == ""`
abbrev pub is_empty : Bytes → Bool
is_empty [] = true
is_empty (c ∷ s) = false

-- `strings.HasPrefix(s, t)`, with the rest of `s`: `strings.CutPrefix`.
unfoldable pub cut_prefix : Bytes → Bytes → Option Bytes
cut_prefix [] s = some s
cut_prefix (c ∷ t) [] = none
cut_prefix (c ∷ t) (d ∷ s) = let rest = cut_prefix t s in if c == d then rest else none

pub cut_prefix-append : (t s : Bytes) → cut_prefix t (t ++ s) ≡ some s
unfolding cut_prefix
cut_prefix-append [] s = refl
cut_prefix-append (c ∷ t) s = ground (arith, cut_prefix-append t s)

pub cut_prefix_sound : (t s rest : Bytes) → cut_prefix t s ≡ some rest → s ≡ t ++ rest
unfolding cut_prefix
cut_prefix_sound [] s rest h = ground arith
cut_prefix_sound (c ∷ t) [] rest h = cc
cut_prefix_sound (c ∷ t) (d ∷ s) rest h = ground (arith, cut_prefix_sound t s rest)

-- `strings.ToLower`, on ASCII.
abbrev pub to_lower_byte : ℕ → ℕ
to_lower_byte c = if leb b'A' c && leb c b'Z' then c + 32 else c

unfoldable pub to_lower : Bytes → Bytes
to_lower = map to_lower_byte

-- The ASCII white space of `unicode.IsSpace`.
abbrev pub is_space : ℕ → Bool
is_space c = c == b' ' || leb 9 c && leb c 13

unfoldable pub trim_left : Bytes → Bytes
trim_left [] = []
trim_left (c ∷ s) = let rest = trim_left s in if is_space c then rest else c ∷ s

-- `strings.TrimSpace`, on ASCII.
unfoldable pub trim_space : Bytes → Bytes
unfolding trim_left
trim_space s = reverse (trim_left (reverse (trim_left s)))

trim_left_id : (s : Bytes) → all (λ c. not (is_space c)) s ≡ true → trim_left s ≡ s
unfolding trim_left
trim_left_id [] h = refl
trim_left_id (c ∷ s) h = ground arith

-- A text without white space is left as it is.
pub trim_space_id : (s : Bytes) → all (λ c. not (is_space c)) s ≡ true → trim_space s ≡ s
unfolding trim_space
trim_space_id s h =
    rw (trim_left_id s h, trim_left_id (reverse s) (all-reverse (λ c. not (is_space c)) s ∙ h))
      (reverse-reverse s)

trim_left-kept :
    (t : Bytes) (c : ℕ) (u : Bytes) → is_space c ≡ false → is_empty (trim_left (t ++ c ∷ u)) ≡ false
unfolding trim_left
trim_left-kept [] c u h = ground arith
trim_left-kept (d ∷ t) c u h = ground (arith, trim_left-kept t c u h)

is_empty-reverse : (s : Bytes) → is_empty s ≡ false → is_empty (reverse s) ≡ false
is_empty-reverse [] h = h
is_empty-reverse (c ∷ s) h = rw (reverse-append (c ∷ []) s) (is_empty-concat (reverse s))
  where
    is_empty-concat : (t : Bytes) → is_empty (t ++ c ∷ []) ≡ false
    is_empty-concat [] = refl
    is_empty-concat (d ∷ t) = refl

-- A text that starts with no white space is not blank.
pub trim_space-full :
    (c : ℕ) (s : Bytes) → is_space c ≡ false → is_empty (trim_space (c ∷ s)) ≡ false
unfolding trim_space
trim_space-full c s h =
    let start : trim_left (c ∷ s) ≡ c ∷ s = unfold trim_left in ground arith in
    rw start (
      is_empty-reverse (trim_left (reverse (c ∷ s)))
        (rw (reverse-append (c ∷ []) s) (trim_left-kept (reverse s) c [] h)))

-- Nor does a text without capitals change.
pub to_lower_id : (s : Bytes) → all (λ c. not (leb b'A' c && leb c b'Z')) s ≡ true → to_lower s ≡ s
unfolding to_lower
to_lower_id [] h = refl
to_lower_id (c ∷ s) h = ap₂ ◌∷◌ (ground arith) (to_lower_id s (ground arith))

-- `strings.Join(parts, sep)`
unfoldable pub join : Bytes → List Bytes → Bytes
join sep [] = []
join sep (p ∷ []) = p
join sep (p ∷ q ∷ ps) = p ++ sep ++ join sep (q ∷ ps)

-- `%q` of an ASCII text.
abbrev pub hex_letter : ℕ → ℕ
hex_letter d = if ltb d 10 then b'0' + d else 87 + d

abbrev pub quote_byte : ℕ → Bytes
quote_byte c =
    if c == b'"' || c == 92
    then 92 ∷ c ∷ []
    else if c == 10
    then codes "\\n"
    else if c == 9
    then codes "\\t"
    else if c == 13
    then codes "\\r"
    else if c == 7
    then codes "\\a"
    else if c == 8
    then codes "\\b"
    else if c == 11
    then codes "\\v"
    else if c == 12
    then codes "\\f"
    else if ltb c 32 || c == 127
    then 92 ∷ b'x' ∷ hex_letter (c / 16) ∷ hex_letter (c % 16) ∷ []
    else c ∷ []

unfoldable pub quote_body : Bytes → Bytes
quote_body [] = b'"' ∷ []
quote_body (c ∷ s) = quote_byte c ++ quote_body s

unfoldable pub quote : Bytes → Bytes
unfolding quote_body
quote s = b'"' ∷ quote_body s

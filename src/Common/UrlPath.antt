-- ===== src/Common/UrlPath.antt =====
-- Paths of package path, and the escaping of a whole path as `URL.String` does it.
use Prim.Native.Nat.{ℕ, ◌/◌, ◌%◌}
use mathlib.Core.Path.{◌≡◌, refl, ap, ◌∙◌}
use mathlib.Core.Logic.{◌≢◌, inl, inr}
use mathlib.Core.Bool.{Bool, true, false, not, ◌||◌}
use mathlib.Core.List.{List, [], ◌∷◌, ◌++◌, reverse}
use mathlib.Core.Option
use mathlib.Core.Option.{Option, none, some}
use native.Mathlib.Omega.{arith}
use mock_lab.Common.Tests.{◌==◌, if◌then◌else◌, Bool-cases}
use mock_lab.Common.Lists.{all}
use mock_lab.Common.Text.{Bytes, codes, text_eq, is_empty, join}
use mock_lab.Common.Hex.{IsBytes}
use mock_lab.Common.Url.{
  is_alnum, is_mark, upper_hex, path_unescape, path_unescape-cons, path_unescape_coded,
}

-- `shouldEscape(c, encodePath)`
unfoldable pub escapes_in_whole_path : ℕ → Bool
escapes_in_whole_path c = not (
    is_alnum c
    || is_mark c
    || c == b'$'
    || c == b'&'
    || c == b'+'
    || c == b','
    || c == b'/'
    || c == b':'
    || c == b';'
    || c == b'='
    || c == b'@')

-- `escape(path, encodePath)`
unfoldable pub escape_path : Bytes → Bytes
escape_path [] = []
escape_path (c ∷ s) =
    let rest = escape_path s in
    if escapes_in_whole_path c
    then b'%' ∷ upper_hex (c / 16) ∷ upper_hex (c % 16) ∷ rest
    else c ∷ rest

-- The segment in front of the next slash, with the segments behind it.
abbrev pub segment_with : ℕ → Bytes × List Bytes → Bytes × List Bytes
segment_with c (t, ts) = if c == b'/' then ([], t ∷ ts) else (c ∷ t, ts)

unfoldable pub segments : Bytes → Bytes × List Bytes
segments [] = ([], [])
segments (c ∷ s) = segment_with c (segments s)

-- One segment that `path.Clean` meets, on the segments that it keeps, the last one first.
abbrev pub clean_step : Bool → List Bytes → Bytes → List Bytes
clean_step rooted out segment =
    let popped : List Bytes = elim out [
      | [] ↦ if rooted then [] else segment ∷ []
      | s ∷ rest ↦ if text_eq s (codes "..") then segment ∷ s ∷ rest else rest
    ] in
    if is_empty segment || text_eq segment (codes ".")
    then out
    else if text_eq segment (codes "..")
    then popped
    else segment ∷ out

unfoldable pub clean_segments : Bool → List Bytes → List Bytes → List Bytes
clean_segments rooted out [] = reverse out
clean_segments rooted out (s ∷ ss) = clean_segments rooted (clean_step rooted out s) ss

abbrev pub is_rooted : Bytes → Bool
is_rooted [] = false
is_rooted (c ∷ s) = c == b'/'

-- `path.Clean`
unfoldable pub clean : Bytes → Bytes
unfolding segments clean_segments
clean s =
    let (first, more) = segments s in
    let kept = join (b'/' ∷ []) (clean_segments (is_rooted s) [] (first ∷ more)) in
    if is_rooted s then b'/' ∷ kept else if is_empty kept then b'.' ∷ [] else kept

-- `path.Join(base, middle, last)` where `middle` is not empty.
unfoldable pub join3 : Bytes → Bytes → Bytes → Bytes
unfolding clean
join3 base middle last =
    clean ((if is_empty base then [] else base ++ b'/' ∷ []) ++ middle ++ b'/' ∷ last)

not_percent : (c : ℕ) → escapes_in_whole_path c ≡ false → c ≢ b'%'
unfolding escapes_in_whole_path
not_percent c e same = ground arith

-- Unescaping a segment of an escaped path gives the segment back.
pub path_unescape-escape_path : (s : Bytes) → IsBytes s → path_unescape (escape_path s) ≡ some s
unfolding escape_path
path_unescape-escape_path [] h = unfold path_unescape in refl
path_unescape-escape_path (c ∷ s) (p, h) =
    let rest = ap (Option.map (λ u. c ∷ u)) (path_unescape-escape_path s h) in
    elim (Bool-cases (escapes_in_whole_path c)) [
      | inl coded ↦ rw coded (path_unescape_coded c (escape_path s) p ∙ rest)
      | inr plain ↦ rw plain (path_unescape-cons c (escape_path s) (not_percent c plain) ∙ rest)
    ]

-- A text without a slash is one segment.
pub segments_one : (s : Bytes) → all (λ c. not (c == b'/')) s ≡ true → segments s ≡ (s, [])
unfolding segments
segments_one [] h = refl
segments_one (c ∷ s) h = rw (segments_one s (ground arith)) (ground arith)

-- ===== src/Tag/Reader.antt =====
-- A reader of comments, and what it reads.
use mock_lab.Common.{
  ℕ, zero, suc, ◌≤◌, ◌≡◌, ◌≢◌, refl, ap, ◌∙◌, true, false, [], ◌∷◌, ◌++◌, Option, none, some, ◌==◌,
  length, length-append, All, All-append, arith, append_assoc, append-nil, sym, map, if◌then◌else◌,
}
use mock_lab.Common.Text.{Bytes, codes, join}
use mock_lab.Common.Dict.{Dict}
use mock_lab.Common.Hex.{IsBytes}
use mock_lab.Common.Url.{
  path_escape, path_unescape, path_unescape-path_escape, is_segment_byte, path_escape-segment,
  escapes_in_path,
}
use mock_lab.Tag.{escape_quotes, encode_comment_part, comment_part}

-- A text up to the first quote, and what follows it.
abbrev pub split_quote : Bytes → Option (Bytes × Bytes)
split_quote [] = none
split_quote (c ∷ s) =
    let more : Option (Bytes × Bytes) = elim (split_quote s) [
      | none ↦ none
      | some (before, after) ↦ some (c ∷ before, after)
    ] in
    if c == b'\'' then some ([], s) else more

-- A text without the `=` at its end.
abbrev pub strip_equals : Bytes → Option Bytes
strip_equals [] = none
strip_equals (c ∷ []) = if c == b'=' then some [] else none
strip_equals (c ∷ d ∷ s) = elim (strip_equals (d ∷ s)) [ none ↦ none | some t ↦ some (c ∷ t) ]

-- One pair and what follows it.
abbrev pub read_pair : Bytes → Option ((Bytes × Bytes) × Bytes)
read_pair s = elim (split_quote s) [
  | none ↦ none
  | some (key, s) ↦ elim (split_quote s) [
    | none ↦ none
    | some (value, s) ↦ elim (strip_equals key) [
      | none ↦ none
      | some key ↦ elim (path_unescape key) [
        | none ↦ none
        | some k ↦ elim (path_unescape value) [ none ↦ none | some v ↦ some ((k, v), s) ]
      ]
    ]
  ]
]

-- The pairs of a comment, parted by commas.
abbrev pub read_pairs : ℕ → Bytes → Option (Dict Bytes)
read_pairs zero s = none
read_pairs (suc n) s = elim (read_pair s) [
  | none ↦ none
  | some (e, []) ↦ some (e ∷ [])
  | some (e, c ∷ rest) ↦ elim (read_pairs n rest) [
    | none ↦ none
    | some tags ↦ if c == b',' then some (e ∷ tags) else none
  ]
]

abbrev pub read_body : Bytes → Option (Dict Bytes)
read_body s = read_pairs (length s) s

-- A text without a quote.
abbrev Unquoted : Bytes → Type 0
Unquoted = All (λ c. (c == b'\'') ≡ false)

escape_quotes-Unquoted : (s : Bytes) → Unquoted s → escape_quotes s ≡ s
unfolding escape_quotes
escape_quotes-Unquoted [] h = refl
escape_quotes-Unquoted (c ∷ s) (p, h) = ground (arith, escape_quotes-Unquoted s h)

pub All-imp : {P Q : ℕ → Type 0} → ((c : ℕ) → P c → Q c) → (s : Bytes) → All P s → All Q s
All-imp f [] h = tt
All-imp f (c ∷ s) (p, h) = (f c p, All-imp f s h)

segment-unquoted : (c : ℕ) → is_segment_byte c ≡ true → (c == b'\'') ≡ false
unfolding escapes_in_path
segment-unquoted c h = ground arith

path_escape-Unquoted : (s : Bytes) → IsBytes s → Unquoted (path_escape s)
path_escape-Unquoted s h = All-imp segment-unquoted (path_escape s) (path_escape-segment s h)

-- On byte strings, the quotes that `encodeCommentPart` looks for are already escaped by `url.PathEscape`, so that its
-- replacement never changes anything.
pub encode_comment_part_lem : (s : Bytes) → IsBytes s → encode_comment_part s ≡ path_escape s
unfolding encode_comment_part
encode_comment_part_lem s h = escape_quotes-Unquoted (path_escape s) (path_escape-Unquoted s h)

split_quote-append :
    (s rest : Bytes) → Unquoted s → split_quote (s ++ b'\'' ∷ rest) ≡ some (s, rest)
split_quote-append [] rest h = refl
split_quote-append (c ∷ s) rest (p, h) = rw (p, split_quote-append s rest h) refl

strip_equals-append : (s : Bytes) → strip_equals (s ++ b'=' ∷ []) ≡ some s
strip_equals-append [] = refl
strip_equals-append (c ∷ []) = refl
strip_equals-append (c ∷ d ∷ s) = rw (strip_equals-append (d ∷ s)) refl

-- A pair of byte strings.
pub record IsPair (e : Bytes × Bytes) : Type 0 where
  pub key : IsBytes e.0
  pub value : IsBytes e.1

comment_part-append :
    (e : Bytes × Bytes) (rest : Bytes)
    → IsPair e
    → comment_part e ++ rest
      ≡ (path_escape e.0 ++ b'=' ∷ []) ++ b'\'' ∷ (path_escape e.1 ++ b'\'' ∷ rest)
unfolding codes
comment_part-append (k, v) rest h =
    let key = path_escape k in
    let value = path_escape v in
    rw (encode_comment_part_lem k h.key, encode_comment_part_lem v h.value)
      (append_assoc key (b'=' ∷ b'\'' ∷ (value ++ b'\'' ∷ [])) rest
        ∙ ap (λ t. key ++ b'=' ∷ b'\'' ∷ t) (append_assoc value (b'\'' ∷ []) rest)
        ∙ sym (append_assoc key (b'=' ∷ []) (b'\'' ∷ (value ++ b'\'' ∷ rest))))

read_pair-comment_part :
    (e : Bytes × Bytes) (rest : Bytes)
    → IsPair e
    → read_pair (comment_part e ++ rest) ≡ some (e, rest)
read_pair-comment_part (k, v) rest h =
    let key_unquoted =
      All-append _ (path_escape k) (b'=' ∷ []) (path_escape-Unquoted k h.key) (refl, tt) in
    ap read_pair (comment_part-append (k, v) rest h)
    ∙ rw
        (
          read_pair,
          split_quote-append (path_escape k ++ b'=' ∷ []) (path_escape v ++ b'\'' ∷ rest)
              key_unquoted,
          split_quote-append (path_escape v) rest (path_escape-Unquoted v h.value),
          strip_equals-append (path_escape k),
          path_unescape-path_escape k h.key,
          path_unescape-path_escape v h.value,
        )
        refl

-- The pairs of a comment, as `sqlComment` joins them.
abbrev pub body : Dict Bytes → Bytes
body tags = join (codes ",") (map comment_part tags)

read_pairs_last :
    (n : ℕ) (s : Bytes) {e : Bytes × Bytes}
    → read_pair s ≡ some (e, [])
    → read_pairs (suc n) s ≡ some (e ∷ [])
read_pairs_last n s h = rw (read_pairs, h) refl

read_pairs_more :
    (n : ℕ) (s rest : Bytes) {e : Bytes × Bytes} {tags : Dict Bytes}
    → read_pair s ≡ some (e, b',' ∷ rest)
    → read_pairs n rest ≡ some tags
    → read_pairs (suc n) s ≡ some (e ∷ tags)
read_pairs_more n s rest h k = rw (read_pairs, h, k) refl

pub read_pairs-body :
    (tags : Dict Bytes) (n : ℕ)
    → tags ≢ []
    → All IsPair tags
    → length tags ≤ n
    → read_pairs n (body tags) ≡ some tags
unfolding join codes
read_pairs-body [] n some_tag h le = absurd (some_tag refl)
read_pairs-body (e ∷ tags) zero some_tag h le = absurd (omega arith)
read_pairs-body (e ∷ []) (suc n) some_tag (p, h) le =
    read_pairs_last n (comment_part e)
      (ap read_pair (sym (append-nil (comment_part e))) ∙ read_pair-comment_part e [] p)
read_pairs-body (e ∷ f ∷ tags) (suc n) some_tag (p, h) le =
    let later = body (f ∷ tags) in
    let whole : body (e ∷ f ∷ tags) ≡ comment_part e ++ b',' ∷ later =
      append_assoc (comment_part e) (b',' ∷ []) later in
    let rest : read_pairs n later ≡ some (f ∷ tags) =
      read_pairs-body (f ∷ tags) n (λ q. absurd (cc q)) h (omega arith) in
    ap (read_pairs (suc n)) whole
    ∙ read_pairs_more n (comment_part e ++ b',' ∷ later) later
        (read_pair-comment_part e (b',' ∷ later) p) rest

pub length-body : (tags : Dict Bytes) → length tags ≤ length (body tags)
unfolding join codes
length-body [] = omega arith
length-body (e ∷ []) = omega (
  arith,
  length-append (encode_comment_part e.0) (codes "='" ++ (encode_comment_part e.1 ++ codes "'")),
)
length-body (e ∷ f ∷ tags) = omega (
  arith,
  length-append (comment_part e ++ b',' ∷ []) (body (f ∷ tags)),
  length-append (comment_part e) (b',' ∷ []),
  length-body (f ∷ tags),
)

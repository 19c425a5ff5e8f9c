-- ===== src/Tag.antt =====
-- labs/sqlcommenter/sqlcomment.go: the trace context of a request, and the comment that carries it
-- in the request's SQL.
-- A context holds the request's tags or none; the comment mode is an argument.
pub mod Groups
pub mod Trace
pub mod Chain
pub mod Reader
pub mod Comment
pub mod Order
pub mod Mode
mod Tests
use mock_lab.Common.{
  ℕ, zero, suc, Bool, true, false, not, ◌&&◌, List, [], ◌∷◌, ◌++◌, Option, none, some, ◌==◌, ltb,
  map, ◌⊎◌, inl, inr, ◌||◌, if◌then◌else◌,
}
use mock_lab.Common.Text.{
  Bytes, codes, text_eq, is_empty, cut_prefix, to_lower, trim_space, join, quote,
}
use mock_lab.Common.Dict.{Dict, lookup, insert}
use mock_lab.Common.Hex.{hex, is_hex}
use mock_lab.Common.Url.{path_escape}
use mock_lab.Ids.{slice}
use mathlib.Core.List.{reverse}

pub record TraceContext : Type 0 where
  pub trace_id : Bytes
  pub span_id : Bytes
  pub flags : Bytes
  pub started : Bool

pub traceparent : TraceContext → Bytes
traceparent t = codes "00-" ++ (t.trace_id ++ b'-' ∷ (t.span_id ++ b'-' ∷ t.flags))

-- `[0-9a-f]{n}`, with what follows.
pub hex_run : ℕ → Bytes → Option (Bytes × Bytes)
hex_run zero s = some ([], s)
hex_run (suc n) [] = none
hex_run (suc n) (c ∷ s) =
    let more : Option (Bytes × Bytes) = elim (hex_run n s) [
      | none ↦ none
      | some (digits, rest) ↦ some (c ∷ digits, rest)
    ] in
    if is_hex c then more else none

-- The three groups of `traceparentRe`.
pub record Match : Type 0 where
  pub trace_id : Bytes
  pub span_id : Bytes
  pub flags : Bytes

-- `n` digits and a dash.
abbrev pub hex_field : ℕ → Bytes → Option (Bytes × Bytes)
hex_field n s = elim (hex_run n s) [
  | none ↦ none
  | some (digits, rest) ↦ elim (cut_prefix (b'-' ∷ []) rest) [
    | none ↦ none
    | some rest ↦ some (digits, rest)
  ]
]

pub find_submatch : Bytes → Option Match
unfolding hex_run
find_submatch s = elim (cut_prefix (codes "00-") s) [
  | none ↦ none
  | some s ↦ elim (hex_field 32 s) [
    | none ↦ none
    | some (trace_id, s) ↦ elim (hex_field 16 s) [
      | none ↦ none
      | some (span_id, s) ↦ elim (hex_run 2 s) [
        | none ↦ none
        | some (flags, s) ↦
            if is_empty s
            then some (record { trace_id = trace_id; span_id = span_id; flags = flags })
            else none
      ]
    ]
  ]
]

drop_zeros : Bytes → Bytes
drop_zeros [] = []
drop_zeros (c ∷ s) = let rest = drop_zeros s in if c == b'0' then rest else c ∷ s

-- `strings.Trim(s, "0")`
pub trim_zeros : Bytes → Bytes
unfolding drop_zeros
trim_zeros s = reverse (drop_zeros (reverse (drop_zeros s)))

-- `randomHex(n)`, from the bytes that `rand.Read` fills in.
pub random_hex : ℕ → (ℕ → ℕ) → Bytes
random_hex n bytes = hex (slice 0 n bytes)

-- The context of a request without a usable header.
pub started_context : (ℕ → ℕ) → (ℕ → ℕ) → TraceContext
unfolding random_hex
started_context trace_bytes span_bytes = record {
  trace_id = random_hex 16 trace_bytes;
  span_id = random_hex 8 span_bytes;
  flags = codes "01";
  started = true;
}

-- `traceFromRequest`, by the traceparent header ("" if there is none).
pub trace_from_request : (ℕ → ℕ) → (ℕ → ℕ) → Bytes → TraceContext
unfolding find_submatch trim_zeros started_context
trace_from_request trace_bytes span_bytes header =
    elim (find_submatch (to_lower (trim_space header))) [
      | none ↦ started_context trace_bytes span_bytes
      | some m ↦
          if not (is_empty (trim_zeros m.trace_id)) && not (is_empty (trim_zeros m.span_id))
          then record {
            trace_id = m.trace_id;
            span_id = random_hex 8 span_bytes;
            flags = m.flags;
            started = false;
          }
          else started_context trace_bytes span_bytes
    ]

pub record RequestTags : Type 0 where
  pub trace : TraceContext
  pub route : Bytes

-- `strings.ReplaceAll(s, "'", "\\'")`
pub escape_quotes : Bytes → Bytes
escape_quotes [] = []
escape_quotes (c ∷ s) =
    let rest = escape_quotes s in if c == b'\'' then 92 ∷ b'\'' ∷ rest else c ∷ rest

pub encode_comment_part : Bytes → Bytes
unfolding escape_quotes
encode_comment_part s = escape_quotes (path_escape s)

-- `sort.Strings` on the keys of a map, each with its value, by insertion.
unfoldable pub text_lt : Bytes → Bytes → Bool
text_lt s [] = false
text_lt [] (d ∷ t) = true
text_lt (c ∷ s) (d ∷ t) = let rest = text_lt s t in if ltb c d then true else c == d && rest

pub insert_sorted : Bytes → Bytes → Dict Bytes → Dict Bytes
unfolding text_lt
insert_sorted k v [] = (k, v) ∷ []
insert_sorted k v ((j, w) ∷ m) =
    let rest = insert_sorted k v m in if text_lt j k then (j, w) ∷ rest else (k, v) ∷ (j, w) ∷ m

pub sort_tags : Dict Bytes → Dict Bytes
unfolding insert_sorted
sort_tags [] = []
sort_tags ((k, v) ∷ m) = insert_sorted k v (sort_tags m)

abbrev pub comment_part : Bytes × Bytes → Bytes
comment_part e = encode_comment_part e.0 ++ (codes "='" ++ (encode_comment_part e.1 ++ codes "'"))

pub sql_comment : Dict Bytes → Bytes
unfolding encode_comment_part sort_tags
sql_comment [] = []
sql_comment (e ∷ tags) =
    let parts = map comment_part (sort_tags (e ∷ tags)) in
    codes "/*" ++ (join (codes ",") parts ++ codes "*/")

pub data CommentMode : Type 0 where
  comment_trace : CommentMode
  comment_route : CommentMode
  comment_off : CommentMode

-- `parseCommentMode`: the mode, or the text of the error.
pub parse_comment_mode : Bytes → CommentMode ⊎ Bytes
parse_comment_mode s =
    let m = to_lower (trim_space s) in
    if is_empty m
    then inl comment_trace
    else if text_eq m (codes "trace")
    then inl comment_trace
    else if text_eq m (codes "route")
    then inl comment_route
    else if text_eq m (codes "off")
    then inl comment_off
    else inr (codes "SQL_COMMENTS=" ++ quote s ++ codes ": want trace, route or off")

-- The map of `tag`, in the order that it is written.
pub comment_tags : CommentMode → RequestTags → Dict Bytes
comment_tags mode tags =
    let comment = insert (codes "route") tags.route (insert (codes "db_driver") (codes "pgx") []) in
    elim mode [
      | comment_trace ↦ insert (codes "traceparent") (traceparent tags.trace) comment
      | comment_route ↦ comment
      | comment_off ↦ comment
    ]

abbrev is_off : CommentMode → Bool
is_off comment_off = true
is_off _ = false

-- `tag`
pub tag : CommentMode → Option RequestTags → Bytes → Bytes
unfolding comment_tags sql_comment
tag mode none sql = sql
tag mode (some tags) sql =
    if is_off mode then sql else sql ++ b' ' ∷ sql_comment (comment_tags mode tags)

-- ===== src/Tag/Tests.antt =====
-- The comments of one request.
use mock_lab.Common.{
  ℕ, ◌≡◌, ◌↔◌, ◌⊎◌, inl, inr, refl, true, false, List, [], ◌∷◌, ◌++◌, Option, none, some, All,
  arith,
}
use mock_lab.Common.Text.{Bytes, codes, text_eq, cut_prefix, to_lower, trim_space}
use mock_lab.Common.Dict.{lookup}
use mock_lab.Common.Hex.{IsBytes, IsBytes-of_all, hex, hex_digit}
use mock_lab.Common.Url.{path_escape, escapes_in_path, upper_hex}
use mock_lab.Tag.{
  TraceContext, traceparent, Match, started_context, trace_from_request, random_hex, RequestTags,
  encode_comment_part, sort_tags, sql_comment, CommentMode, comment_trace, comment_route,
  comment_off, parse_comment_mode, tag,
}
use mock_lab.Tag.Groups.{render}
use mock_lab.Tag.Trace.{IsValid, is_zero, continued, trace_from_request_lem}
use mock_lab.Tag.Chain.{trace_from_request-traceparent}
use mock_lab.Tag.Reader.{IsPair, read_body, encode_comment_part_lem}
use mock_lab.Tag.Comment.{Closed, sql_comment_lem}
use mock_lab.Tag.Order.{Sorted, Distinct, Same}

abbrev header : Bytes
header = codes " 00-0AF7651916CD43DD8448EB211C80319C-b7ad6b7169203331-01"

abbrev bytes_a : ℕ → ℕ
bytes_a i = 10

abbrev bytes_b : ℕ → ℕ
bytes_b i = 11

abbrev context : TraceContext
context = record {
  trace_id = codes "0af7651916cd43dd8448eb211c80319c";
  span_id = codes "0b0b0b0b0b0b0b0b";
  flags = codes "01";
  started = false;
}

trace_from_request_test : trace_from_request bytes_a bytes_b header ≡ context
unfolding trace_from_request mock_lab.Tag.find_submatch mock_lab.Tag.hex_run mock_lab.Tag.trim_zeros
    mock_lab.Tag.drop_zeros random_hex hex hex_digit to_lower trim_space
    mock_lab.Common.Text.trim_left cut_prefix codes
trace_from_request_test = refl

trace_from_request_lem_example :
    let h = to_lower (trim_space header) in
    let t = trace_from_request bytes_a bytes_b header in
    ((m : Match) × (h ≡ render m) × IsValid m × (t ≡ continued bytes_a bytes_b m))
    ⊎ ((¬ ((m : Match) × (h ≡ render m) × IsValid m)) × (t ≡ started_context bytes_a bytes_b))
trace_from_request_lem_example = trace_from_request_lem bytes_a bytes_b header

trace_not_zero : is_zero (trace_from_request bytes_a bytes_b header).trace_id ≡ false
unfolding codes
trace_not_zero = rw trace_from_request_test refl

span_not_zero : is_zero (trace_from_request bytes_a bytes_b header).span_id ≡ false
unfolding codes
span_not_zero = rw trace_from_request_test refl

trace_from_request-traceparent_example :
    let t = trace_from_request bytes_a bytes_b header in
    trace_from_request bytes_b bytes_a (traceparent t) ≡ (record {
      trace_id = t.trace_id;
      span_id = random_hex 8 bytes_a;
      flags = t.flags;
      started = false;
    })
trace_from_request-traceparent_example =
    trace_from_request-traceparent bytes_a bytes_b (λ i. omega arith) (λ i. omega arith) header
      bytes_b bytes_a trace_not_zero span_not_zero

quote_IsBytes : IsBytes (codes "it's")
unfolding codes
quote_IsBytes = IsBytes-of_all (codes "it's") refl

encode_comment_part_lem_example : encode_comment_part (codes "it's") ≡ path_escape (codes "it's")
encode_comment_part_lem_example = encode_comment_part_lem (codes "it's") quote_IsBytes

sample_tags : All IsPair ((codes "route", codes "*/;") ∷ (codes "a", codes "it's") ∷ [])
unfolding codes
sample_tags = (
  record { key = IsBytes-of_all (codes "route") refl; value = IsBytes-of_all (codes "*/;") refl },
  (record { key = IsBytes-of_all (codes "a") refl; value = quote_IsBytes }, tt),
)

sql_comment_test :
    sql_comment ((codes "route", codes "*/;") ∷ (codes "a", codes "it's") ∷ [])
    ≡ codes "/*a='it%27s',route='%2A%2F%3B'*/"
unfolding sql_comment sort_tags mock_lab.Tag.insert_sorted mock_lab.Tag.text_lt encode_comment_part
    mock_lab.Tag.escape_quotes path_escape escapes_in_path upper_hex codes mock_lab.Common.Text.join
sql_comment_test = refl

tags_differ : Distinct ((codes "route", codes "*/;") ∷ (codes "a", codes "it's") ∷ [])
unfolding text_eq codes
tags_differ = ((refl, tt), (tt, tt))

sql_comment_lem_example :
    let tags : List (Bytes × Bytes) =
      (codes "route", codes "*/;") ∷ (codes "a", codes "it's") ∷ [] in
    (text : Bytes) × (sorted : List (Bytes × Bytes)) × (sql_comment tags
      ≡ codes "/*" ++ (text ++ codes "*/"))
    × Closed text
    × (read_body text ≡ some sorted)
    × Sorted sorted
    × Same sorted tags
sql_comment_lem_example =
    sql_comment_lem (codes "route", codes "*/;") ((codes "a", codes "it's") ∷ []) sample_tags
      tags_differ

swapped_Same :
    Same
      ((codes "b", codes "1") ∷ (codes "a", codes "2") ∷ [])
      ((codes "a", codes "2") ∷ (codes "b", codes "1") ∷ [])
unfolding lookup codes
swapped_Same i = ground (
  arith,
  mock_lab.Common.Text.text_eq_iff (b'b' ∷ []) i,
  mock_lab.Common.Text.text_eq_iff (b'a' ∷ []) i,
)

letters_differ :
    (text_eq (codes "a") (codes "b") ≡ false) × (text_eq (codes "b") (codes "a") ≡ false)
unfolding text_eq codes
letters_differ = (refl, refl)

abbrev sample_request : RequestTags
sample_request = record { trace = context; route = codes "/orders/{id}" }

sample_IsBytes : IsBytes sample_request.route × IsBytes (traceparent context)
unfolding traceparent codes
sample_IsBytes =
    (IsBytes-of_all (codes "/orders/{id}") refl, IsBytes-of_all (traceparent context) refl)

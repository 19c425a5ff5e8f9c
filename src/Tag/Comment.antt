-- ===== src/Tag/Comment.antt =====
-- What a comment says to its reader, and that it ends where it should.
use mock_lab.Common.{
  ℕ, ◌≡◌, ◌≢◌, refl, true, false, ◌||◌, [], ◌∷◌, ◌++◌, some, ◌==◌, length, All, All-append, arith,
  Bool-cases, inl, inr,
}
use mock_lab.Common.Text.{Bytes, codes, join}
use mock_lab.Common.Dict.{Dict}
use mock_lab.Common.Hex.{IsBytes}
use mock_lab.Common.Url.{path_escape, is_segment_byte, path_escape-segment, escapes_in_path}
use mock_lab.Tag.Order.{Distinct, Sorted, Same, sort_tags-Sorted, lookup-sort_tags}
use mock_lab.Tag.{comment_part, sort_tags, sql_comment, insert_sorted, text_lt}
use mock_lab.Tag.Reader.{
  IsPair, All-imp, read_body, body, read_pairs-body, length-body, encode_comment_part_lem,
}

-- The bytes that cannot end a comment, or begin one.
abbrev pub Closed : Bytes → Type 0
Closed = All (λ c. (c == b'*' || c == b'/') ≡ false)

segment-closed : (c : ℕ) → is_segment_byte c ≡ true → (c == b'*' || c == b'/') ≡ false
unfolding escapes_in_path
segment-closed c h = ground arith

comment_part-Closed : (e : Bytes × Bytes) → IsPair e → Closed (comment_part e)
unfolding codes
comment_part-Closed (k, v) h =
    let closed : (s : Bytes) → IsBytes s → Closed (path_escape s) =
      λ s b. All-imp segment-closed (path_escape s) (path_escape-segment s b) in
    rw (encode_comment_part_lem k h.key, encode_comment_part_lem v h.value)
      (All-append _ (path_escape k) _ (closed k h.key)
        (refl, (refl, All-append _ (path_escape v) _ (closed v h.value) (refl, tt))))

body-Closed : (tags : Dict Bytes) → All IsPair tags → Closed (body tags)
unfolding join codes
body-Closed [] h = tt
body-Closed (e ∷ []) (p, h) = comment_part-Closed e p
body-Closed (e ∷ f ∷ tags) (p, h) =
    All-append _ (comment_part e ++ b',' ∷ []) (body (f ∷ tags))
      (All-append _ (comment_part e) (b',' ∷ []) (comment_part-Closed e p) (refl, tt))
      (body-Closed (f ∷ tags) h)

insert_sorted-IsPair :
    (k v : Bytes) (tags : Dict Bytes)
    → IsPair (k, v)
    → All IsPair tags
    → All IsPair (insert_sorted k v tags)
unfolding insert_sorted
insert_sorted-IsPair k v [] p h = (p, tt)
insert_sorted-IsPair k v ((j, w) ∷ tags) p (q, h) = elim (Bool-cases (text_lt j k)) [
  | inl e ↦ rw e (q, insert_sorted-IsPair k v tags p h)
  | inr e ↦ rw e (p, (q, h))
]

sort_tags-IsPair : (tags : Dict Bytes) → All IsPair tags → All IsPair (sort_tags tags)
unfolding sort_tags
sort_tags-IsPair [] h = tt
sort_tags-IsPair ((k, v) ∷ tags) (p, h) =
    insert_sorted-IsPair k v (sort_tags tags) p (sort_tags-IsPair tags h)

insert_sorted-some : (k v : Bytes) (tags : Dict Bytes) → insert_sorted k v tags ≢ []
unfolding insert_sorted
insert_sorted-some k v [] e = cc e
insert_sorted-some k v ((j, w) ∷ tags) e = elim (Bool-cases (text_lt j k)) [
  | inl lt ↦ absurd (ground arith)
  | inr ge ↦ absurd (ground arith)
]

-- The comment of a list of tags, by the sorted list.
pub sql_comment-body :
    (e : Bytes × Bytes) (tags : Dict Bytes)
    → All IsPair (e ∷ tags)
    → let text = body (sort_tags (e ∷ tags)) in
      (sql_comment (e ∷ tags) ≡ codes "/*" ++ (text ++ codes "*/"))
      × Closed text
      × (read_body text ≡ some (sort_tags (e ∷ tags)))
unfolding sql_comment
sql_comment-body e tags h =
    let sorted = sort_tags (e ∷ tags) in
    let pairs = sort_tags-IsPair (e ∷ tags) h in
    let some_tag : sorted ≢ [] =
      λ q. unfold sort_tags in insert_sorted-some e.0 e.1 (sort_tags tags) q in
    (
      refl,
      body-Closed sorted pairs,
      read_pairs-body sorted (length (body sorted)) some_tag pairs (length-body sorted),
    )

-- A comment of a map of at least one tag, its keys and values being byte strings, is "/*", a text
-- without `*` and `/`, and "*/": whatever the values hold, the comment ends at its own end. The text is
-- read back as a list whose keys ascend, and in which each key has the value that it has in the map.
pub sql_comment_lem :
    (e : Bytes × Bytes) (tags : Dict Bytes)
    → All IsPair (e ∷ tags)
    → Distinct (e ∷ tags)
    → (text : Bytes) × (sorted : Dict Bytes) × (sql_comment (e ∷ tags)
        ≡ codes "/*" ++ (text ++ codes "*/"))
      × Closed text
      × (read_body text ≡ some sorted)
      × Sorted sorted
      × Same sorted (e ∷ tags)
sql_comment_lem e tags h distinct =
    let (text, closed, read) = sql_comment-body e tags h in
    (
      body (sort_tags (e ∷ tags)),
      sort_tags (e ∷ tags),
      text,
      closed,
      read,
      sort_tags-Sorted (e ∷ tags) distinct,
      λ i. lookup-sort_tags i (e ∷ tags),
    )

-- ===== src/Tag/Mode.antt =====
-- What the comment mode does to a statement.
use mock_lab.Common.{
  ◌≡◌, ◌↔◌, ◌⊎◌, inl, inr, refl, ap, subst, ◌∙◌, true, List, [], ◌∷◌, ◌++◌, none, some, All, arith,
  Bool-cases,
}
use mock_lab.Common.Text.{Bytes, codes, text_eq, text_eq_iff, is_empty, to_lower, trim_space}
use mock_lab.Common.Dict.{insert}
use mock_lab.Common.Hex.{IsBytes, IsBytes-of_all}
use mock_lab.Tag.{
  CommentMode, comment_trace, comment_route, comment_off, parse_comment_mode, RequestTags,
  traceparent, comment_tags, tag, sort_tags, sql_comment,
}
use mock_lab.Tag.Reader.{IsPair, body, read_body}
use mock_lab.Tag.Comment.{Closed, sql_comment-body}

-- `parseCommentMode` reads "" and "trace" as the trace mode, "route" and "off" as the modes of their
-- names, whatever their case and the white space around them, and nothing else.
pub parse_comment_mode_lem :
    (s : Bytes)
    → let m = to_lower (trim_space s) in
      ((parse_comment_mode s ≡ inl comment_trace) ↔ ((m ≡ []) ⊎ (m ≡ codes "trace")))
      × ((parse_comment_mode s ≡ inl comment_route) ↔ (m ≡ codes "route"))
      × ((parse_comment_mode s ≡ inl comment_off) ↔ (m ≡ codes "off"))
unfolding parse_comment_mode
parse_comment_mode_lem s =
    let m : Bytes = to_lower (trim_space s) in
    (
      (
        λ h. elim (Bool-cases (is_empty m)) [
          | inl e ↦ inl (empty m e)
          | inr e ↦ inr ((text_eq_iff m (codes "trace")).0 (ground arith))
        ],
        λ h. elim h [ inl e ↦ from_empty e | inr e ↦ from_trace e ],
      ),
      (λ h. (text_eq_iff m (codes "route")).0 (ground arith), λ e. from_route e),
      (λ h. (text_eq_iff m (codes "off")).0 (ground arith), λ e. from_off e),
    )
  where
    empty : (t : Bytes) → is_empty t ≡ true → t ≡ []
    empty [] _ = refl
    empty (c ∷ t) h = cc h

    from_empty : to_lower (trim_space s) ≡ [] → parse_comment_mode s ≡ inl comment_trace
    from_empty e = rw (parse_comment_mode, e) refl

    from_trace : to_lower (trim_space s) ≡ codes "trace" → parse_comment_mode s ≡ inl comment_trace
    from_trace e = unfold codes text_eq in rw (parse_comment_mode, e) refl

    from_route : to_lower (trim_space s) ≡ codes "route" → parse_comment_mode s ≡ inl comment_route
    from_route e = unfold codes text_eq in rw (parse_comment_mode, e) refl

    from_off : to_lower (trim_space s) ≡ codes "off" → parse_comment_mode s ≡ inl comment_off
    from_off e = unfold codes text_eq in rw (parse_comment_mode, e) refl

-- The tags that a statement is to carry.
abbrev pub carried : CommentMode → RequestTags → List (Bytes × Bytes)
carried comment_trace tags =
    (codes "db_driver", codes "pgx")
    ∷ (codes "route", tags.route)
    ∷ (codes "traceparent", traceparent tags.trace)
    ∷ []
carried comment_route tags = (codes "db_driver", codes "pgx") ∷ (codes "route", tags.route) ∷ []
carried comment_off tags = []

comment_tags-carried :
    (tags : RequestTags)
    → (comment_tags comment_trace tags ≡ carried comment_trace tags)
      × (comment_tags comment_route tags ≡ carried comment_route tags)
unfolding comment_tags insert text_eq codes
comment_tags-carried tags = (refl, refl)

sort_tags-carried :
    (tags : RequestTags)
    → (sort_tags (carried comment_trace tags) ≡ carried comment_trace tags)
      × (sort_tags (carried comment_route tags) ≡ carried comment_route tags)
unfolding sort_tags mock_lab.Tag.insert_sorted mock_lab.Tag.text_lt codes
sort_tags-carried tags = (refl, refl)

-- The comment of tags that are sorted already.
sql_comment_sorted :
    (e : Bytes × Bytes) (m : List (Bytes × Bytes)) (sql : Bytes)
    → All IsPair (e ∷ m)
    → sort_tags (e ∷ m) ≡ e ∷ m
    → (sql ++ b' ' ∷ sql_comment (e ∷ m)
        ≡ sql ++ b' ' ∷ (codes "/*" ++ (body (e ∷ m) ++ codes "*/")))
      × Closed (body (e ∷ m))
      × (read_body (body (e ∷ m)) ≡ some (e ∷ m))
sql_comment_sorted e m sql h sorted =
    let (text, closed, read) = sql_comment-body e m h in
    (
      ap (λ t. sql ++ b' ' ∷ t) (text ∙ ap (λ t. codes "/*" ++ (body t ++ codes "*/")) sorted),
      subst (λ t. Closed (body t)) sorted closed,
      subst (λ t. read_body (body t) ≡ some t) sorted read,
    )

abbrev pub IsTagged : RequestTags → Type 0
IsTagged tags = IsBytes tags.route × IsBytes (traceparent tags.trace)

driver-IsPair : IsPair (codes "db_driver", codes "pgx")
unfolding codes
driver-IsPair = record {
  key = IsBytes-of_all (codes "db_driver") refl;
  value = IsBytes-of_all (codes "pgx") refl;
}

key-IsPair : (v : Bytes) → IsBytes v → IsPair (codes "route", v) × IsPair (codes "traceparent", v)
unfolding codes
key-IsPair v h = (
  record { key = IsBytes-of_all (codes "route") refl; value = h },
  record { key = IsBytes-of_all (codes "traceparent") refl; value = h },
)

-- For a route and a traceparent of bytes, `tag` leaves a statement outside a request as it is, and so it does in the off mode; in the other
-- modes it puts behind the statement a space, "/*", a text without `*` and `/` that reads back as
-- the driver, the route, and in the trace mode the traceparent, and "*/".
pub tag_lem :
    (mode : CommentMode) (tags : RequestTags) (sql : Bytes)
    → IsTagged tags
    → let text = body (carried mode tags) in
      (tag mode none sql ≡ sql)
      × (((mode ≡ comment_off) × (tag mode (some tags) sql ≡ sql))
          ⊎ ((tag mode (some tags) sql ≡ sql ++ b' ' ∷ (codes "/*" ++ (text ++ codes "*/")))
              × Closed text
              × (read_body text ≡ some (carried mode tags))))
unfolding tag
tag_lem comment_off tags sql h = (refl, inl (refl, refl))
tag_lem comment_trace tags sql (route, trace) = (
  refl,
  inr (
      rw (comment_tags-carried tags).0 (
        sql_comment_sorted _ _ sql
          (driver-IsPair, ((key-IsPair _ route).0, ((key-IsPair _ trace).1, tt)))
          (sort_tags-carried tags).0)),
)
tag_lem comment_route tags sql (route, trace) = (
  refl,
  inr (
      rw (comment_tags-carried tags).1 (
        sql_comment_sorted _ _ sql (driver-IsPair, ((key-IsPair _ route).0, tt))
          (sort_tags-carried tags).1)),
)

-- ===== src/Tempo/Lookup.antt =====
-- fetchInventory of labs/tempo/internal/catalog/catalog.go: the product that its URL asks for.
use mock_lab.Common.{
  ℕ, ◌+◌, ◌/◌, ◌%◌, ◌≡◌, ◌≤◌, ◌<◌, ◌↔◌, refl, sym, ap, ◌∙◌, inl, inr, Bool, true, false, not, [],
  ◌∷◌, ◌++◌, some, ◌==◌, length, All, all, Bool-cases, arith,
}
use mock_lab.Common.Text.{Bytes, codes, text_eq, text_eq_iff, is_empty, cut_prefix-append, join}
use mock_lab.Common.Hex.{IsBytes}
use mock_lab.Common.Url.{
  escapes_in_path, is_segment_byte, upper_hex, path_escape, path_unescape,
  path_unescape-path_escape, path_escape-segment,
}
use mock_lab.Common.UrlPath.{
  escapes_in_whole_path, escape_path, segments, segments_one, clean_segments, clean, join3,
  path_unescape-escape_path,
}
use mock_lab.Tempo.{endpoint_path, with_slash, no_slash, path_value}

-- A product ID that is a segment of its own.
pub record IsSegment (id : Bytes) : Type 0 where
  pub bytes : IsBytes id
  pub full : is_empty id ≡ false
  pub not_dot : text_eq id (codes ".") ≡ false
  pub not_dots : text_eq id (codes "..") ≡ false

clean_prefixed :
    (s : Bytes)
    → no_slash s ≡ true
    → is_empty s ≡ false
    → text_eq s (codes ".") ≡ false
    → text_eq s (codes "..") ≡ false
    → clean (codes "v1/inventory/" ++ s) ≡ codes "v1/inventory/" ++ s
unfolding clean segments clean_segments codes join text_eq
clean_prefixed s h full dot dots = rw (segments_one s h, full, dot, dots) refl

segment-no_slash : (s : Bytes) → All (λ c. is_segment_byte c ≡ true) s → no_slash s ≡ true
unfolding escapes_in_path
segment-no_slash [] h = refl
segment-no_slash (c ∷ s) (p, h) = ground (arith, segment-no_slash s h)

path_escape-no_slash : (id : Bytes) → IsBytes id → no_slash (path_escape id) ≡ true
path_escape-no_slash id h = segment-no_slash (path_escape id) (path_escape-segment id h)

upper_hex-no_slash : (d : ℕ) → d < 16 → (upper_hex d == b'/') ≡ false
unfolding upper_hex
upper_hex-no_slash d h = ground arith

escape_path-no_slash : (s : Bytes) → IsBytes s → no_slash s ≡ true → no_slash (escape_path s) ≡ true
unfolding escape_path
escape_path-no_slash [] b h = refl
escape_path-no_slash (c ∷ s) (p, b) h =
    let rest = escape_path-no_slash s b (ground arith) in
    let hi = upper_hex-no_slash (c / 16) (omega arith) in
    let lo = upper_hex-no_slash (c % 16) (omega arith) in ground arith

escape_path-is_empty : (s : Bytes) → is_empty (escape_path s) ≡ is_empty s
unfolding escape_path
escape_path-is_empty [] = refl
escape_path-is_empty (c ∷ s) = ground arith

path_escape-is_empty : (s : Bytes) → is_empty (path_escape s) ≡ is_empty s
unfolding path_escape
path_escape-is_empty [] = refl
path_escape-is_empty (c ∷ s) = ground arith

-- A text that escapes to itself is no other text's escape.
path_escape-ne :
    (id t : Bytes)
    → IsBytes id
    → path_unescape t ≡ some t
    → text_eq id t ≡ false
    → text_eq (path_escape id) t ≡ false
path_escape-ne id t b plain h = elim (Bool-cases (text_eq (path_escape id) t)) [
  | inr other ↦ other
  | inl same ↦
      let e : path_escape id ≡ t = (text_eq_iff (path_escape id) t).0 same in
      let back : some id ≡ some t =
        sym (path_unescape-path_escape id b) ∙ ap path_unescape e ∙ plain in
      let equal : id ≡ t = cc back in absurd (cc (h, (text_eq_iff id t).1 equal))
]

path_escape-IsBytes : (id : Bytes) → IsBytes id → IsBytes (path_escape id)
unfolding path_escape upper_hex
path_escape-IsBytes [] h = tt
path_escape-IsBytes (c ∷ s) (p, h) = elim (Bool-cases (escapes_in_path c)) [
  | inl coded ↦ rw coded (ground arith, (ground arith, (ground arith, path_escape-IsBytes s h)))
  | inr plain ↦ rw plain (p, path_escape-IsBytes s h)
]

escape_path-prefixed :
    (t : Bytes)
    → with_slash (escape_path (codes "v1/inventory/" ++ t))
      ≡ codes "/v1/inventory/" ++ escape_path t
unfolding codes escape_path escapes_in_whole_path
escape_path-prefixed t = refl

endpoint_path-clean :
    (id : Bytes)
    → endpoint_path [] id
      ≡ with_slash (escape_path (clean (codes "v1/inventory/" ++ path_escape id)))
unfolding endpoint_path join3 codes
endpoint_path-clean id = refl

endpoint_path-segment :
    (id : Bytes)
    → IsSegment id
    → endpoint_path [] id ≡ codes "/v1/inventory/" ++ escape_path (path_escape id)
endpoint_path-segment id v =
    let t = path_escape id in
    let cleaned =
      clean_prefixed t (path_escape-no_slash id v.bytes) (path_escape-is_empty id ∙ v.full)
        (path_escape-ne id (codes ".") v.bytes (unfold codes path_unescape in refl) v.not_dot)
        (path_escape-ne id (codes "..") v.bytes (unfold codes path_unescape in refl) v.not_dots) in
    endpoint_path-clean id ∙ ap (λ p. with_slash (escape_path p)) cleaned ∙ escape_path-prefixed t

path_value-segment :
    (seg : Bytes)
    → is_empty seg ≡ false
    → no_slash seg ≡ true
    → path_value (codes "/v1/inventory/" ++ seg) ≡ path_unescape seg
unfolding path_value
path_value-segment seg full plain =
    rw (path_value, cut_prefix-append (codes "/v1/inventory/") seg, full, plain) refl

abbrev pub is_plain : Bytes → Bool
is_plain s = all (λ c. not (escapes_in_path c)) s

length-path_escape : (s : Bytes) → length s ≤ length (path_escape s)
unfolding path_escape
length-path_escape [] = omega arith
length-path_escape (c ∷ s) = ground (arith, length-path_escape s)

pub path_escape-plain : (s : Bytes) → is_plain s ≡ true → path_escape s ≡ s
unfolding path_escape
path_escape-plain [] h = refl
path_escape-plain (c ∷ s) h = ground (arith, path_escape-plain s)

plain-path_escape : (s : Bytes) → path_escape s ≡ s → is_plain s ≡ true
unfolding path_escape
plain-path_escape [] h = refl
plain-path_escape (c ∷ s) h = elim (Bool-cases (escapes_in_path c)) [
  | inl coded ↦ absurd (
      let size = ap length h in
      let e : length (path_escape (c ∷ s)) ≡ 3 + length (path_escape s) = rw coded (omega arith) in
      omega (arith, size, e, length-path_escape s))
  | inr plain ↦
      let e : path_escape (c ∷ s) ≡ c ∷ path_escape s = rw plain refl in
      let tail : path_escape s ≡ s = cc (e, h) in ground (arith, plain-path_escape s tail)
]

-- Without a path in the base URL, the inventory is not asked for the product ID but for its
-- `url.PathEscape`, which `String` escapes once more: for a product ID of bytes that is neither empty
-- nor a dot or two, the path value of the request is the escaped ID. It is the ID itself exactly if no
-- byte of the ID needs escaping.
pub path_value-endpoint_path :
    (id : Bytes)
    → IsSegment id
    → (path_value (endpoint_path [] id) ≡ some (path_escape id))
      × ((path_value (endpoint_path [] id) ≡ some id) ↔ (is_plain id ≡ true))
path_value-endpoint_path id v =
    let t = path_escape id in
    let bytes = path_escape-IsBytes id v.bytes in
    let asked : path_value (endpoint_path [] id) ≡ some t =
      ap path_value (endpoint_path-segment id v)
      ∙ path_value-segment (escape_path t)
          (escape_path-is_empty t ∙ path_escape-is_empty id ∙ v.full)
          (escape_path-no_slash t bytes (path_escape-no_slash id v.bytes))
      ∙ path_unescape-escape_path t bytes in
    (
      asked,
      (
        λ h. plain-path_escape id (let both : some t ≡ some id = sym asked ∙ h in cc both),
        λ h. asked ∙ ap some (path_escape-plain id h),
      ),
    )

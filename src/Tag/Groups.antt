-- ===== src/Tag/Groups.antt =====
-- The texts that match the pattern of a traceparent.
use mock_lab.Common.{
  ℕ, zero, suc, ◌≡◌, inl, inr, refl, ap, sym, ◌∙◌, true, [], ◌∷◌, ◌++◌, some, length, All, arith,
  Option-cases, append-nil,
}
use mock_lab.Common.Text.{Bytes, codes, is_empty, cut_prefix, cut_prefix_sound, cut_prefix-append}
use mock_lab.Common.Hex.{is_hex}
use mock_lab.Tag.{hex_run, hex_field, Match, find_submatch}

pub record IsHex (n : ℕ) (s : Bytes) : Type 0 where
  pub size : length s ≡ n
  pub digits : All (λ c. is_hex c ≡ true) s

abbrev pub render : Match → Bytes
render m = codes "00-" ++ (m.trace_id ++ b'-' ∷ (m.span_id ++ b'-' ∷ m.flags))

hex_run-append :
    (s : Bytes) {n : ℕ} (rest : Bytes) → IsHex n s → hex_run n (s ++ rest) ≡ some (s, rest)
unfolding hex_run
hex_run-append [] {n = zero} rest h = refl
hex_run-append [] {n = suc n} rest h = absurd (omega (arith, h.size))
hex_run-append (c ∷ s) {n = zero} rest h = absurd (omega (arith, h.size))
hex_run-append (c ∷ s) {n = suc n} rest h =
    let shorter : IsHex n s = record { size = omega (arith, h.size); digits = h.digits.1 } in
    rw (h.digits.0, hex_run-append s rest shorter) refl

hex_run_sound :
    (n : ℕ) (s : Bytes) {digits rest : Bytes}
    → hex_run n s ≡ some (digits, rest)
    → (s ≡ digits ++ rest) × IsHex n digits
unfolding hex_run
hex_run_sound zero s {digits} {rest} e =
    let d : digits ≡ [] = cc e in
    let r : rest ≡ s = cc e in rw (d, r) (refl, record { size = refl; digits = tt })
hex_run_sound (suc n) [] e = absurd (cc e)
hex_run_sound (suc n) (c ∷ s) {digits} {rest} e = elim (Option-cases (hex_run n s)) [
  | inl none_left ↦ absurd (ground arith)
  | inr ((ds, r), found) ↦
      let (split, h) = hex_run_sound n s found in
      let digit : is_hex c ≡ true = ground arith in
      let d : digits ≡ c ∷ ds = ground arith in
      let r' : rest ≡ r = ground arith in
      rw (d, r')
        (ap (λ t. c ∷ t) split, record { size = omega (arith, h.size); digits = (digit, h.digits) })
]

hex_field-append :
    (s : Bytes) {n : ℕ} (rest : Bytes) → IsHex n s → hex_field n (s ++ b'-' ∷ rest) ≡ some (s, rest)
unfolding cut_prefix
hex_field-append s rest h = rw (hex_run-append s (b'-' ∷ rest) h, hex_field) refl

hex_field_sound :
    (n : ℕ) (s : Bytes) {digits rest : Bytes}
    → hex_field n s ≡ some (digits, rest)
    → (s ≡ digits ++ b'-' ∷ rest) × IsHex n digits
hex_field_sound n s {digits} {rest} e = elim (Option-cases (hex_run n s)) [
  | inl stop ↦ absurd (ground arith)
  | inr ((ds, r), found) ↦ elim (Option-cases (cut_prefix (b'-' ∷ []) r)) [
    | inl stop ↦ absurd (ground arith)
    | inr (r', dash) ↦
        let (split, h) = hex_run_sound n s found in
        let d : digits ≡ ds = ground arith in
        let q : rest ≡ r' = ground arith in
        let at : r ≡ b'-' ∷ r' = cut_prefix_sound (b'-' ∷ []) r r' dash in
        rw (d, q) (split ∙ ap (λ t. ds ++ t) at, h)
  ]
]

-- The three groups have 32, 16 and 2 digits.
pub record IsMatch (m : Match) : Type 0 where
  pub trace_id : IsHex 32 m.trace_id
  pub span_id : IsHex 16 m.span_id
  pub flags : IsHex 2 m.flags

hex_run_all : (n : ℕ) (s : Bytes) → IsHex n s → hex_run n s ≡ some (s, [])
hex_run_all n s h = ap (hex_run n) (sym (append-nil s)) ∙ hex_run-append s [] h

pub find_submatch-render : (m : Match) → IsMatch m → find_submatch (render m) ≡ some m
unfolding find_submatch
find_submatch-render m h =
    rw
      (
        find_submatch,
        cut_prefix-append (codes "00-") (m.trace_id ++ b'-' ∷ (m.span_id ++ b'-' ∷ m.flags)),
        hex_field-append m.trace_id (m.span_id ++ b'-' ∷ m.flags) h.trace_id,
        hex_field-append m.span_id m.flags h.span_id,
        hex_run_all 2 m.flags h.flags,
      )
      refl

pub find_submatch_sound :
    (s : Bytes) {m : Match} → find_submatch s ≡ some m → (s ≡ render m) × IsMatch m
unfolding find_submatch
find_submatch_sound s {m} e = elim (Option-cases (cut_prefix (codes "00-") s)) [
  | inl stop ↦ absurd (ground arith)
  | inr (s1, head) ↦ elim (Option-cases (hex_field 32 s1)) [
    | inl stop ↦ absurd (ground arith)
    | inr ((a, s2), trace) ↦ elim (Option-cases (hex_field 16 s2)) [
      | inl stop ↦ absurd (ground arith)
      | inr ((b, s3), span) ↦ elim (Option-cases (hex_run 2 s3)) [
        | inl stop ↦ absurd (ground arith)
        | inr ((c, s4), flags) ↦
            let (p0, x0) : (s1 ≡ a ++ b'-' ∷ s2) × IsHex 32 a = hex_field_sound 32 s1 trace in
            let (p1, x1) : (s2 ≡ b ++ b'-' ∷ s3) × IsHex 16 b = hex_field_sound 16 s2 span in
            let (p2, x2) : (s3 ≡ c ++ s4) × IsHex 2 c = hex_run_sound 2 s3 flags in
            let end : is_empty s4 ≡ true = ground arith in
            let same : m ≡ record { trace_id = a; span_id = b; flags = c } = ground arith in
            let nil : s4 ≡ [] = empty s4 end in
            let q2 : s3 ≡ c = p2 ∙ ap (λ t. c ++ t) nil ∙ append-nil c in
            let q1 : s2 ≡ b ++ b'-' ∷ c = p1 ∙ ap (λ t. b ++ b'-' ∷ t) q2 in
            let q0 : s1 ≡ a ++ b'-' ∷ (b ++ b'-' ∷ c) = p0 ∙ ap (λ t. a ++ b'-' ∷ t) q1 in
            rw same (
              cut_prefix_sound (codes "00-") s s1 head ∙ ap (λ t. codes "00-" ++ t) q0,
              record { trace_id = x0; span_id = x1; flags = x2 },
            )
      ]
    ]
  ]
]
  where
    empty : (t : Bytes) → is_empty t ≡ true → t ≡ []
    empty [] _ = refl
    empty (c ∷ t) h = cc h

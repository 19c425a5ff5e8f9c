-- ===== src/Tag/Trace.antt =====
-- Which trace a request belongs to.
use mock_lab.Common.{
  ℕ, ◌≡◌, ◌⊎◌, inl, inr, refl, ◌∙◌, Bool, true, false, ◌||◌, [], ◌∷◌, none, some, ◌==◌, all,
  all-reverse, arith, Option-cases, Bool-cases,
}
use mock_lab.Common.Text.{Bytes, is_empty, to_lower, trim_space}
use mathlib.Core.List.{reverse}
use mock_lab.Tag.{
  TraceContext, Match, find_submatch, drop_zeros, trim_zeros, random_hex, started_context,
  trace_from_request,
}
use mock_lab.Tag.Groups.{IsMatch, render, find_submatch-render, find_submatch_sound}

-- A text of zeros alone.
abbrev pub is_zero : Bytes → Bool
is_zero = all (λ c. c == b'0')

abbrev starts_with_zero : Bytes → Bool
starts_with_zero [] = false
starts_with_zero (c ∷ s) = c == b'0'

is_empty-drop_zeros : (s : Bytes) → is_empty (drop_zeros s) ≡ is_zero s
unfolding drop_zeros
is_empty-drop_zeros [] = refl
is_empty-drop_zeros (c ∷ s) = ground (arith, is_empty-drop_zeros s)

is_zero-drop_zeros : (s : Bytes) → is_zero (drop_zeros s) ≡ is_zero s
unfolding drop_zeros
is_zero-drop_zeros [] = refl
is_zero-drop_zeros (c ∷ s) = ground (arith, is_zero-drop_zeros s)

is_empty-reverse : (s : Bytes) → is_empty (reverse s) ≡ is_empty s
is_empty-reverse s = none_left s
  where
    keeps :
        (s t : Bytes) → is_empty t ≡ false → is_empty (mathlib.Core.List.reverse_aux s t) ≡ false
    keeps [] t h = h
    keeps (c ∷ s) t h = keeps s (c ∷ t) refl

    none_left : (s : Bytes) → is_empty (reverse s) ≡ is_empty s
    none_left [] = refl
    none_left (c ∷ s) = keeps s (c ∷ []) refl

-- `strings.Trim(s, "0")` leaves nothing exactly of a text of zeros.
pub is_empty-trim_zeros : (s : Bytes) → is_empty (trim_zeros s) ≡ is_zero s
unfolding trim_zeros
is_empty-trim_zeros s =
    is_empty-reverse (drop_zeros (reverse (drop_zeros s)))
    ∙ is_empty-drop_zeros (reverse (drop_zeros s))
    ∙ all-reverse (λ c. c == b'0') (drop_zeros s)
    ∙ is_zero-drop_zeros s

-- A match whose trace and span are not zero.
pub record IsValid (m : Match) : Type 0 where
  pub groups : IsMatch m
  pub trace_id : is_zero m.trace_id ≡ false
  pub span_id : is_zero m.span_id ≡ false

module _ (trace_bytes span_bytes : ℕ → ℕ) where
  abbrev pub continued : Match → TraceContext
  continued m = record {
    trace_id = m.trace_id;
    span_id = random_hex 8 span_bytes;
    flags = m.flags;
    started = false;
  }

  -- A header that is, but for capitals and white space around it, the rendering of a trace and a
  -- span that are not zero continues this trace with its flags and a new span; any other header, or
  -- none, starts a trace.
  pub trace_from_request_lem :
      (header : Bytes)
      → let h = to_lower (trim_space header) in
        let t = trace_from_request trace_bytes span_bytes header in
        ((m : Match) × (h ≡ render m) × IsValid m × (t ≡ continued m))
        ⊎ ((¬ ((m : Match) × (h ≡ render m) × IsValid m))
            × (t ≡ started_context trace_bytes span_bytes))
  unfolding trace_from_request
  trace_from_request_lem header =
      let h : Bytes = to_lower (trim_space header) in
      elim (Option-cases (find_submatch h)) [
        | inl e ↦ inr (λ (m, at, v). no_match h m e at v, ground arith)
        | inr (m, e) ↦
            let (at, g) = find_submatch_sound h e in
            elim (Bool-cases (is_zero m.trace_id || is_zero m.span_id)) [
              | inl zeros ↦ inr (
                λ (other, at', v). other_match h m other e at' v zeros,
                ground (arith, is_empty-trim_zeros m.trace_id, is_empty-trim_zeros m.span_id),
              )
              | inr fine ↦ inl (
                m,
                at,
                record { groups = g; trace_id = ground arith; span_id = ground arith },
                ground (arith, is_empty-trim_zeros m.trace_id, is_empty-trim_zeros m.span_id),
              )
            ]
      ]
    where
      no_match : (h : Bytes) (m : Match) → find_submatch h ≡ none → h ≡ render m → IsValid m → ⊥
      no_match h m e at v =
          let found : find_submatch h ≡ some m = rw at (find_submatch-render m v.groups) in
          absurd (cc (e, found))

      other_match :
          (h : Bytes) (m other : Match)
          → find_submatch h ≡ some m
          → h ≡ render other
          → IsValid other
          → (is_zero m.trace_id || is_zero m.span_id) ≡ true
          → ⊥
      other_match h m other e at v zeros =
          let found : find_submatch h ≡ some other = rw at (find_submatch-render other v.groups) in
          let same : m ≡ other = cc (e, found) in absurd (ground (arith, v.trace_id, v.span_id))

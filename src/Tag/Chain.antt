-- ===== src/Tag/Chain.antt =====
-- A trace over several services.
use mock_lab.Common.{
  ℕ, zero, suc, ◌*◌, ◌≡◌, inl, inr, refl, ap, ◌∙◌, Bool, true, false, not, ◌&&◌, ◌||◌, [], ◌∷◌,
  ◌++◌, some, ◌==◌, leb, length, all, all-of_All, arith,
}
use mock_lab.Common.Text.{Bytes, codes, is_space, to_lower, to_lower_id, trim_space, trim_space_id}
use mock_lab.Common.Hex.{is_hex, hex-is_hex, length-hex, IsByte, IsBytes}
use mock_lab.Ids.{slice}
use mock_lab.Tag.{
  TraceContext, traceparent, Match, find_submatch, random_hex, started_context, trace_from_request,
}
use mock_lab.Tag.Groups.{IsHex, IsMatch, render, find_submatch-render}
use mock_lab.Tag.Trace.{is_zero, is_empty-trim_zeros, trace_from_request_lem}

-- The bytes that a rendered context is made of.
abbrev plain : ℕ → Bool
plain c = is_hex c || c == b'-'

plain-not_space : (c : ℕ) → plain c ≡ true → not (is_space c) ≡ true
plain-not_space c h = ground arith

plain-not_capital : (c : ℕ) → plain c ≡ true → not (leb b'A' c && leb c b'Z') ≡ true
plain-not_capital c h = ground arith

all-append : (p : ℕ → Bool) (s t : Bytes) → all p (s ++ t) ≡ (all p s && all p t)
all-append p [] t = refl
all-append p (c ∷ s) t = ground (arith, all-append p s t)

all_imp :
    (p q : ℕ → Bool)
    → ((c : ℕ) → p c ≡ true → q c ≡ true)
    → (s : Bytes) → all p s ≡ true
    → all q s ≡ true
all_imp p q f [] h = refl
all_imp p q f (c ∷ s) h = ground (arith, f c (ground arith), all_imp p q f s (ground arith))

IsHex-plain : {n : ℕ} {s : Bytes} → IsHex n s → all plain s ≡ true
IsHex-plain {s} h = all_imp is_hex plain (λ c e. ground arith) s (all-of_All is_hex s h.digits)

render-plain : (m : Match) → IsMatch m → all plain (render m) ≡ true
unfolding codes
render-plain m h = ground (
  arith,
  all-append plain m.trace_id (b'-' ∷ (m.span_id ++ b'-' ∷ m.flags)),
  all-append plain m.span_id (b'-' ∷ m.flags),
  IsHex-plain h.trace_id,
  IsHex-plain h.span_id,
  IsHex-plain h.flags,
)

render_id : (m : Match) → IsMatch m → to_lower (trim_space (render m)) ≡ render m
render_id m h =
    let p : all plain (render m) ≡ true = render-plain m h in
    ap to_lower (trim_space_id (render m) (all_imp plain _ plain-not_space (render m) p))
    ∙ to_lower_id (render m) (all_imp plain _ plain-not_capital (render m) p)

module _ (trace_bytes span_bytes : ℕ → ℕ) (trace_ok : (i : ℕ) → IsByte (trace_bytes i))
    (span_ok : (i : ℕ) → IsByte (span_bytes i)) where
  slice-IsBytes : (b : ℕ → ℕ) → ((i : ℕ) → IsByte (b i)) → (i n : ℕ) → IsBytes (slice i n b)
  slice-IsBytes b f i zero = tt
  slice-IsBytes b f i (suc n) = (f i, slice-IsBytes b f (suc i) n)

  random_hex-IsHex : (n : ℕ) (b : ℕ → ℕ) → ((i : ℕ) → IsByte (b i)) → IsHex (2 * n) (random_hex n b)
  unfolding random_hex
  random_hex-IsHex n b f = record {
    size = length-hex (slice 0 n b) ∙ ap (λ k. 2 * k) (length-slice 0 n);
    digits = hex-is_hex (slice 0 n b) (slice-IsBytes b f 0 n);
  }
    where
      length-slice : (i n : ℕ) → length (slice i n b) ≡ n
      length-slice i zero = refl
      length-slice i (suc n) = ap suc (length-slice (suc i) n)

  abbrev groups_of : TraceContext → Match
  groups_of t = record { trace_id = t.trace_id; span_id = t.span_id; flags = t.flags }

  trace_from_request-IsMatch :
      (header : Bytes) → IsMatch (groups_of (trace_from_request trace_bytes span_bytes header))
  unfolding started_context codes
  trace_from_request-IsMatch header = elim (trace_from_request_lem trace_bytes span_bytes header) [
    | inl (m, _, v, e) ↦ rw e (record {
      trace_id = v.groups.trace_id;
      span_id = random_hex-IsHex 8 span_bytes span_ok;
      flags = v.groups.flags;
    })
    | inr (_, e) ↦ rw e (record {
      trace_id = random_hex-IsHex 16 trace_bytes trace_ok;
      span_id = random_hex-IsHex 8 span_bytes span_ok;
      flags = record { size = refl; digits = (refl, (refl, tt)) };
    })
  ]

  -- Whatever header came in, and whatever bytes were drawn, the traceparent that the service writes continues the same trace, with
  -- the same flags, in a service of this kind that receives it, unless its trace or its span is all
  -- zeros.
  pub trace_from_request-traceparent :
      (header : Bytes) (trace_bytes' span_bytes' : ℕ → ℕ)
      → let t = trace_from_request trace_bytes span_bytes header in
        is_zero t.trace_id ≡ false
        → is_zero t.span_id ≡ false
        → trace_from_request trace_bytes' span_bytes' (traceparent t) ≡ (record {
          trace_id = t.trace_id;
          span_id = random_hex 8 span_bytes';
          flags = t.flags;
          started = false;
        })
  unfolding trace_from_request traceparent
  trace_from_request-traceparent header trace_bytes' span_bytes' h k =
      let t : TraceContext = trace_from_request trace_bytes span_bytes header in
      let g : IsMatch (groups_of t) = trace_from_request-IsMatch header in
      let found : find_submatch (to_lower (trim_space (traceparent t))) ≡ some (groups_of t) =
        ap find_submatch (render_id (groups_of t) g) ∙ find_submatch-render (groups_of t) g in
      ground (arith, found, is_empty-trim_zeros t.trace_id, is_empty-trim_zeros t.span_id)

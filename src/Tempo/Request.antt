-- ===== src/Tempo/Request.antt =====
-- decodeCatalogRequest of labs/tempo/cmd/app/main.go: the requests that it accepts.
use mock_lab.Common.{
  ℕ, suc, ◌≡◌, ◌≢◌, ◌≤◌, ◌↔◌, ◌⊎◌, refl, inl, inr, true, false, List, [], ◌∷◌, none, length, All,
  All-imp, Option-cases, arith,
}
use mock_lab.Common.Text.{Bytes, text_eq_iff, is_empty, trim_space}
use mock_lab.Tempo.{Body, has, check_ids, decode_catalog_request}

All-zip {ℓ} :
    {A : Type ℓ} (P Q R : A → Type 0)
    → ((a : A) → P a → Q a → R a)
    → (xs : List A) → All P xs
    → All Q xs
    → All R xs
All-zip P Q R f [] h k = tt
All-zip P Q R f (x ∷ xs) (p, h) (q, k) = (f x p q, All-zip P Q R f xs h k)

abbrev pub Distinct : List Bytes → Type 0
Distinct [] = Unit
Distinct (id ∷ ids) = All (λ j. id ≢ j) ids × Distinct ids

-- Not blank.
abbrev pub IsNamed : Bytes → Type 0
IsNamed id = is_empty (trim_space id) ≡ false

abbrev Unseen : List Bytes → Bytes → Type 0
Unseen seen id = has id seen ≡ false

Unseen-cons : (s id : Bytes) (seen : List Bytes) → s ≢ id → Unseen seen id → Unseen (s ∷ seen) id
Unseen-cons s id seen h k = ground (arith, text_eq_iff s id)

check_ids_sound :
    (i : ℕ) (seen ids : List Bytes)
    → check_ids i seen ids ≡ none
    → All IsNamed ids × All (Unseen seen) ids × Distinct ids
unfolding check_ids
check_ids_sound i seen [] h = (tt, tt, tt)
check_ids_sound i seen (id ∷ ids) h =
    let rest : check_ids (suc i) (id ∷ seen) ids ≡ none = ground arith in
    let (named, unseen, distinct) = check_ids_sound (suc i) (id ∷ seen) ids rest in
    (
      (ground arith, named),
      (ground arith, All-imp (Unseen (id ∷ seen)) (Unseen seen) (λ j h. ground arith) ids unseen),
      (
        All-imp (Unseen (id ∷ seen)) (λ j. id ≢ j) (λ j h e. ground (arith, text_eq_iff id j)) ids
            unseen,
        distinct,
      ),
    )

check_ids_complete :
    (i : ℕ) (seen ids : List Bytes)
    → All IsNamed ids
    → All (Unseen seen) ids
    → Distinct ids
    → check_ids i seen ids ≡ none
unfolding check_ids
check_ids_complete i seen [] named unseen distinct = refl
check_ids_complete i seen (id ∷ ids) (n, named) (u, unseen) (d, distinct) =
    let rest =
      check_ids_complete (suc i) (id ∷ seen) ids named
        (All-zip (λ j. id ≢ j) (Unseen seen) (Unseen (id ∷ seen)) (λ j. Unseen-cons id j seen) ids d
          unseen)
        distinct in
    ground arith

-- A body that is one document with these product IDs: from 1 to 20, none blank, all different.
pub record IsCatalog (body : Body) (ids : List Bytes) : Type 0 where
  pub decoded : body.first ≡ inr ids
  pub alone : body.ends ≡ true
  pub least : 1 ≤ length ids
  pub most : length ids ≤ 20
  pub named : All IsNamed ids
  pub distinct : Distinct ids

All-Unseen : (ids : List Bytes) → All (Unseen []) ids
All-Unseen [] = tt
All-Unseen (id ∷ ids) = (refl, All-Unseen ids)

Decoded :
    (x : Bytes ⊎ List Bytes)
    → ((err : Bytes) × (x ≡ inl err)) ⊎ ((ids : List Bytes) × (x ≡ inr ids))
Decoded (inl err) = inl (err, refl)
Decoded (inr ids) = inr (ids, refl)

-- `decodeCatalogRequest` accepts a body exactly if it is one document and nothing more, with 1 to 20
-- product IDs of which none is blank and no two are the same; and it gives these IDs.
pub decode_catalog_request_iff :
    (body : Body) (ids : List Bytes) → (decode_catalog_request body ≡ inr ids) ↔ IsCatalog body ids
unfolding decode_catalog_request
decode_catalog_request_iff body ids = (
  λ h. elim (Decoded body.first) [
    | inl (err, e) ↦ absurd (ground arith)
    | inr (given, e) ↦ elim (Option-cases (check_ids 0 [] given)) [
      | inr (err, c) ↦ absurd (ground arith)
      | inl c ↦
          let same : given ≡ ids = ground arith in
          let (named, _, distinct) = check_ids_sound 0 [] given c in
          record {
            decoded = ground arith;
            alone = ground arith;
            least = ground arith;
            most = ground arith;
            named = rw (← same) named;
            distinct = rw (← same) distinct;
          }
    ]
  ],
  λ v.
      let c = check_ids_complete 0 [] ids v.named (All-Unseen ids) v.distinct in
      ground (arith, v.decoded, v.alone, v.least, v.most),
)

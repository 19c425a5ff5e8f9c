-- ===== src/Common/Dict.antt =====
-- Go maps keyed by strings, as association lists: a write replaces the value of its key.
use mathlib.Core.Path.{◌≡◌, refl}
use mathlib.Core.Logic.{◌≢◌, inl, inr}
use mathlib.Core.Option.{Option, none, some}
use mathlib.Core.List.{List, [], ◌∷◌}
use native.Mathlib.Omega.{arith}
use mock_lab.Common.Tests.{if◌then◌else◌, Bool-cases}
use mock_lab.Common.Lists.{All}
use mock_lab.Common.Text.{Bytes, text_eq, text_eq_iff, text_eq_refl}

abbrev pub Dict {ℓ} : Type ℓ → Type ℓ
Dict V = List (Bytes × V)

module _ {ℓ} {V : Type ℓ} where
  -- `v, ok := m[key]`
  unfoldable pub lookup : Bytes → Dict V → Option V
  lookup key [] = none
  lookup key ((name, value) ∷ rest) = if text_eq name key then some value else lookup key rest

  -- `m[key] = new`
  unfoldable pub insert : Bytes → V → Dict V → Dict V
  insert key new [] = (key, new) ∷ []
  insert key new ((name, value) ∷ rest) =
      if text_eq name key then (key, new) ∷ rest else (name, value) ∷ insert key new rest

  pub lookup-insert :
      (key asked : Bytes) (new : V) (m : Dict V)
      → lookup asked (insert key new m) ≡ (if text_eq key asked then some new else lookup asked m)
  unfolding lookup insert
  lookup-insert key asked new [] = refl
  lookup-insert key asked new ((name, value) ∷ rest) = ground (
    arith,
    lookup-insert key asked new rest,
    text_eq_iff name key,
    text_eq_iff key asked,
    text_eq_iff name asked,
  )

  pub lookup-insert_self :
      (key : Bytes) (new : V) (m : Dict V) → lookup key (insert key new m) ≡ some new
  lookup-insert_self key new m = ground (arith, text_eq_refl key, lookup-insert key key new m)

  pub lookup-insert_ne :
      (k j : Bytes) (v : V) (m : Dict V) → k ≢ j → lookup j (insert k v m) ≡ lookup j m
  lookup-insert_ne k j v m h = ground (arith, lookup-insert k j v m, text_eq_iff k j)

module _ {ℓ κ} {V : Type ℓ} (P : Bytes → V → Type κ) where
  -- What holds of every entry, and of the one written, holds after the write.
  pub All-insert :
      (k : Bytes) (v : V) (m : Dict V)
      → All (λ e. P e.0 e.1) m
      → P k v
      → All (λ e. P e.0 e.1) (insert k v m)
  unfolding insert
  All-insert k v [] h p = (p, tt)
  All-insert k v ((j, w) ∷ m) (q, h) p = elim (Bool-cases (text_eq j k)) [
    | inl same ↦ rw same (p, h)
    | inr other ↦ rw other (q, All-insert k v m h p)
  ]

  -- An entry that is found is one of the list.
  pub lookup-All :
      (k : Bytes) {v : V} (m : Dict V) → All (λ e. P e.0 e.1) m → lookup k m ≡ some v → P k v
  unfolding lookup
  lookup-All k [] h e = cc
  lookup-All k {v} ((j, w) ∷ m) (q, h) e = elim (Bool-cases (text_eq j k)) [
    | inl same ↦
        let key : j ≡ k = (text_eq_iff j k).0 same in
        let value : w ≡ v = ground arith in rw (← key, ← value) q
    | inr other ↦ lookup-All k m h (ground arith)
  ]

-- ===== src/Prelude/Assoc.antt =====
-- Maps with byte strings as keys, as association lists.
use mathlib.Core.Logic.{◌⊎◌, inl, inr}
use mathlib.Core.Path.{sym, ◌∙◌, ◌≡◌, refl}
use mathlib.Core.Option.{Option, none, some}
use mathlib.Core.List.{List, [], ◌∷◌}
use native.Mathlib.Omega.{arith}
use frost_substrate.Prelude.Lists.{All}
use frost_substrate.Prelude.Tests.{Bool-cases, if◌then◌else◌}
use frost_substrate.Prelude.ByteLists.{bytes_eq_refl, Bytes, bytes_eq, bytes_eq_iff}

module _ {ℓ} {A : Type ℓ} where
  unfoldable pub lookup : Bytes → List (Bytes × A) → Option A
  lookup k [] = none
  lookup k ((j, a) ∷ rest) = if bytes_eq j k then some a else lookup k rest

  unfoldable pub insert : Bytes → A → List (Bytes × A) → List (Bytes × A)
  insert k a [] = (k, a) ∷ []
  insert k a ((j, b) ∷ rest) = if bytes_eq j k then (k, a) ∷ rest else (j, b) ∷ insert k a rest

  pub lookup-insert :
      (k j : Bytes) (a : A) (m : List (Bytes × A))
      → lookup j (insert k a m) ≡ (if bytes_eq k j then some a else lookup j m)
  unfolding lookup insert
  lookup-insert k j a [] = refl
  lookup-insert k j a ((i, b) ∷ rest) =
      ground (arith, bytes_eq_iff k j, bytes_eq_iff i k, bytes_eq_iff i j, lookup-insert k j a rest)

  -- Inserting the same twice is inserting it once.
  pub insert-insert :
      (k : Bytes) (a : A) (m : List (Bytes × A)) → insert k a (insert k a m) ≡ insert k a m
  unfolding insert
  insert-insert k a [] = ground (arith, bytes_eq_iff k k)
  insert-insert k a ((i, b) ∷ rest) =
      ground (arith, bytes_eq_iff k k, bytes_eq_iff i k, insert-insert k a rest)

  -- What an insertion makes of a map is the new entry or an old one.
  pub lookup-insert_cases :
      (k j : Bytes) (a x : A) (m : List (Bytes × A))
      → lookup j (insert k a m) ≡ some x
      → ((k ≡ j) × (a ≡ x)) ⊎ (lookup j m ≡ some x)
  lookup-insert_cases k j a x m found = elim (Bool-cases (bytes_eq k j)) [
    | inl same ↦
        inl ((bytes_eq_iff k j).0 same, cc (rw same at (sym (lookup-insert k j a m) ∙ found)))
    | inr other ↦ inr (rw other at (sym (lookup-insert k j a m) ∙ found))
  ]

  -- An insertion keeps every key.
  pub lookup-insert_kept :
      (k j : Bytes) (a : A) (m : List (Bytes × A))
      → ((x : A) × (lookup j m ≡ some x))
      → (x : A) × (lookup j (insert k a m) ≡ some x)
  lookup-insert_kept k j a m (x, found) = elim (Bool-cases (bytes_eq k j)) [
    | inl same ↦ (a, lookup-insert k j a m ∙ rw same)
    | inr other ↦ (x, lookup-insert k j a m ∙ rw other found)
  ]

  pub lookup-insert_here :
      (k : Bytes) (a : A) (m : List (Bytes × A)) → lookup k (insert k a m) ≡ some a
  lookup-insert_here k a m = lookup-insert k k a m ∙ rw (bytes_eq_refl k)

module _ {ℓ κ} {A : Type ℓ} (Q : Bytes × A → Type κ) where
  pub insert-All :
      (k : Bytes) (a : A) (m : List (Bytes × A)) → Q (k, a) → All Q m → All Q (insert k a m)
  unfolding insert
  insert-All k a [] new old = (new, tt)
  insert-All k a ((j, b) ∷ rest) new old = elim (Bool-cases (bytes_eq j k)) [
    | inl same ↦ rw same (new, old.1)
    | inr other ↦ rw other (old.0, insert-All k a rest new old.1)
  ]

  pub lookup-All :
      (k : Bytes) (a : A) (m : List (Bytes × A)) → lookup k m ≡ some a → All Q m → Q (k, a)
  unfolding lookup
  lookup-All k a [] found all = absurd (cc)
  lookup-All k a ((j, b) ∷ rest) found all = elim (Bool-cases (bytes_eq j k)) [
    | inl same ↦
        let here : b ≡ a = cc (rw same at found) in
        rw (sym here, sym ((bytes_eq_iff j k).0 same)) all.0
    | inr other ↦ lookup-All k a rest (rw other at found) all.1
  ]

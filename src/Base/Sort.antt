-- ===== src/Base/Sort.antt =====
-- `std::ranges::sort`, with a test that compares two elements: elements that the test does not tell
-- apart keep their order.
use mathlib.Core.Path.{◌≡◌, refl}
use mathlib.Core.Bool.{Bool, true, false}
use mathlib.Core.List.{List, [], ◌∷◌}
use hedge_db.Base.Tests.{if◌then◌else◌, Bool-cases}
use hedge_db.Base.Lists.{All}
use mathlib.Core.Logic.{inl, inr}
use mathlib.Core.List.{Perm}
use mathlib.Core.List.Perm

module _ {ℓ} {A : Type ℓ} (less : A → A → Bool) where
  unfoldable pub insert : A → List A → List A
  insert a [] = a ∷ []
  insert a (x ∷ xs) = let rest = insert a xs in if less x a then x ∷ rest else a ∷ x ∷ xs

  unfoldable pub sort : List A → List A
  sort [] = []
  sort (x ∷ xs) = insert x (sort xs)

  insert-Perm : (a : A) (xs : List A) → Perm (insert a xs) (a ∷ xs)
  unfolding insert
  insert-Perm a [] = Perm.rfl
  insert-Perm a (x ∷ xs) = elim (Bool-cases (less x a)) [
    | inl h ↦ rw h (Perm.trans (Perm.cons x (insert-Perm a xs)) (Perm.swap a x xs))
    | inr h ↦ rw h Perm.rfl
  ]

  -- Sorting loses and adds nothing.
  pub sort-Perm : (xs : List A) → Perm (sort xs) xs
  unfolding sort
  sort-Perm [] = Perm.rfl
  sort-Perm (x ∷ xs) = Perm.trans (insert-Perm x (sort xs)) (Perm.cons x (sort-Perm xs))

  -- No element is before an earlier one.
  abbrev pub IsSorted : List A → Type 0
  IsSorted [] = Unit {0}
  IsSorted (x ∷ xs) = All (λ (y : A). less y x ≡ false) xs × IsSorted xs

module _ {ℓ} {A : Type ℓ} (less : A → A → Bool)
    (asymm : (a b : A) → less a b ≡ true → less b a ≡ false)
    (trans : (a b c : A) → less a b ≡ false → less b c ≡ false → less a c ≡ false) where
  pub insert-All {κ} :
      (P : A → Type κ) (a : A) (xs : List A) → P a → All P xs → All P (insert less a xs)
  unfolding insert
  insert-All P a [] p ps = (p, ps)
  insert-All P a (x ∷ xs) p (q, qs) = elim (Bool-cases (less x a)) [
    | inl h ↦ rw h (q, insert-All P a xs p qs)
    | inr h ↦ rw h (p, (q, qs))
  ]

  pub sort-All {κ} : (P : A → Type κ) (xs : List A) → All P xs → All P (sort less xs)
  unfolding sort
  sort-All P [] h = tt
  sort-All P (x ∷ xs) (h, hs) = insert-All P x (sort less xs) h (sort-All P xs hs)

  after :
      (a x : A) (xs : List A)
      → less x a ≡ false
      → All (λ (y : A). less y x ≡ false) xs
      → All (λ (y : A). less y a ≡ false) xs
  after a x [] h hs = tt
  after a x (y ∷ xs) h (k, hs) = (trans y x a k h, after a x xs h hs)

  pub insert-IsSorted : (a : A) (xs : List A) → IsSorted less xs → IsSorted less (insert less a xs)
  unfolding insert
  insert-IsSorted a [] s = (tt, tt)
  insert-IsSorted a (x ∷ xs) (h, s) = elim (Bool-cases (less x a)) [
    | inl first ↦
        rw first (
          insert-All (λ (y : A). less y x ≡ false) a xs (asymm x a first) h,
          insert-IsSorted a xs s,
        )
    | inr later ↦ rw later ((later, after a x xs later h), (h, s))
  ]

  pub sort-IsSorted : (xs : List A) → IsSorted less (sort less xs)
  unfolding sort
  sort-IsSorted [] = tt
  sort-IsSorted (x ∷ xs) = insert-IsSorted x (sort less xs) (sort-IsSorted xs)

  -- A list that is in order stays as it is.
  pub sort-sorted : (xs : List A) → IsSorted less xs → sort less xs ≡ xs
  unfolding sort insert
  sort-sorted [] s = refl
  sort-sorted (x ∷ []) s = refl
  sort-sorted (x ∷ y ∷ xs) ((h, hs), s) = rw (sort-sorted (y ∷ xs) s, h) refl

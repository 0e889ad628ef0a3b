-- ===== src/Base/Sorting.antt =====
-- Python's `sorted(xs, key=...)` with a comparison of keys: a stable insertion sort.
use soul_llink.Base.Tests.{if◌then◌else◌, Bool-cases}
use soul_llink.Base.Lists.{All, Member, sum_by}
use Prim.Native.Nat.{ℕ, ◌+◌}
use mathlib.Core.Path.{◌≡◌, refl}
use mathlib.Core.Logic.{inl, inr}
use native.Mathlib.Omega.{arith}
use mathlib.Core.Bool.{Bool}
use mathlib.Core.List.{List, [], ◌∷◌}

module _ {ℓ} {A : Type ℓ} (before : A → A → Bool) where
  -- `before x y` says that `y` must stand behind `x`, strictly. Among equals the new element,
  -- which came first, stays first.
  unfoldable pub insert_sorted : A → List A → List A
  insert_sorted a [] = a ∷ []
  insert_sorted a (x ∷ xs) =
      let rest = insert_sorted a xs in if before x a then x ∷ rest else a ∷ x ∷ xs

  unfoldable pub sorted : List A → List A
  unfolding insert_sorted
  sorted [] = []
  sorted (x ∷ xs) = insert_sorted x (sorted xs)

module _ {ℓ} {A : Type ℓ} (before : A → A → Bool) where
  -- Sorting keeps what holds of every element, and every sum.
  pub All-insert_sorted {κ} :
      (P : A → Type κ) (a : A) (xs : List A) → P a → All P xs → All P (insert_sorted before a xs)
  unfolding insert_sorted
  All-insert_sorted P a [] p h = (p, tt)
  All-insert_sorted P a (x ∷ xs) p h = elim (Bool-cases (before x a)) [
    | inl e ↦ rw e (h.0, All-insert_sorted P a xs p h.1)
    | inr e ↦ rw e (p, h)
  ]

  pub All-sorted {κ} : (P : A → Type κ) (xs : List A) → All P xs → All P (sorted before xs)
  unfolding sorted
  All-sorted P [] h = tt
  All-sorted P (x ∷ xs) h = All-insert_sorted P x (sorted before xs) h.0 (All-sorted P xs h.1)

  sum_by-insert_sorted :
      (f : A → ℕ) (a : A) (xs : List A) → sum_by f (insert_sorted before a xs) ≡ f a + sum_by f xs
  unfolding insert_sorted
  sum_by-insert_sorted f a [] = refl
  sum_by-insert_sorted f a (x ∷ xs) = ground (arith, sum_by-insert_sorted f a xs)

  pub sum_by-sorted : (f : A → ℕ) (xs : List A) → sum_by f (sorted before xs) ≡ sum_by f xs
  unfolding sorted
  sum_by-sorted f [] = refl
  sum_by-sorted f (x ∷ xs) =
      omega (arith, sum_by-insert_sorted f x (sorted before xs), sum_by-sorted f xs)

  All-insert_sorted_back {κ} :
      (P : A → Type κ) (a : A) (xs : List A) → All P (insert_sorted before a xs) → P a × All P xs
  unfolding insert_sorted
  All-insert_sorted_back P a [] h = h
  All-insert_sorted_back P a (x ∷ xs) h = elim (Bool-cases (before x a)) [
    | inl e ↦
        let h' : P x × All P (insert_sorted before a xs) = rw e at h in
        let (p, rest) = All-insert_sorted_back P a xs h'.1 in (p, (h'.0, rest))
    | inr e ↦ rw e at h
  ]

  -- What holds of every element of the sorted list holds of every element.
  pub All-sorted_back {κ} : (P : A → Type κ) (xs : List A) → All P (sorted before xs) → All P xs
  unfolding sorted
  All-sorted_back P [] h = tt
  All-sorted_back P (x ∷ xs) h =
      let (p, rest) = All-insert_sorted_back P x (sorted before xs) h in
      (p, All-sorted_back P xs rest)

module _ {A : Type 0} where
  Member-tail :
      (a x : A) (xs ys : List A)
      → (Member a xs → Member a ys)
      → Member a (x ∷ xs)
      → Member a (x ∷ ys)
  Member-tail a x xs ys f (inl q) = inl q
  Member-tail a x xs ys f (inr q) = inr (f q)

  Member-skip :
      (a x y : A) (xs ys : List A)
      → (Member a ys → Member a (x ∷ xs))
      → Member a (y ∷ ys)
      → Member a (x ∷ y ∷ xs)
  Member-skip a x y xs ys f (inl q) = inr (inl q)
  Member-skip a x y xs ys f (inr q) = elim (f q) [ inl p ↦ inl p | inr p ↦ inr (inr p) ]

module _ {A : Type 0} (before : A → A → Bool) where
  Member-insert_sorted :
      (a x : A) (xs : List A) → Member a (insert_sorted before x xs) → Member a (x ∷ xs)
  unfolding insert_sorted
  Member-insert_sorted a x [] m = m
  Member-insert_sorted a x (y ∷ xs) m = elim (Bool-cases (before y x)) [
    | inl e ↦ Member-skip a x y xs _ (Member-insert_sorted a x xs) (rw e at m)
    | inr e ↦ rw e at m
  ]

  pub Member-sorted : (a : A) (xs : List A) → Member a (sorted before xs) → Member a xs
  unfolding sorted
  Member-sorted a [] m = m
  Member-sorted a (x ∷ xs) m =
      Member-tail a x _ _ (Member-sorted a xs) (Member-insert_sorted a x (sorted before xs) m)

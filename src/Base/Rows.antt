-- ===== src/Base/Rows.antt =====
-- Rows that are appended to a table, and rows of a table that are replaced.
use soul_llink.Base.{
  ◌≡◌, refl, sym, ◌∙◌, inl, inr, Bool, true, false, ◌||◌, List, [], ◌∷◌, ◌++◌, map, none, some,
  nat_eq, string_eq, any, find_by, All, Bool-cases, arith,
}

module _ {A : Type 0} where
  pub any-append : (p : A → Bool) (xs ys : List A) → any p (xs ++ ys) ≡ (any p xs || any p ys)
  any-append p [] ys = refl
  any-append p (x ∷ xs) ys = ground (arith, any-append p xs ys)

  pub any-left : (p : A → Bool) (xs ys : List A) → any p xs ≡ true → any p (xs ++ ys) ≡ true
  any-left p xs ys h = rw (any-append p xs ys, h) refl

  pub any-snoc : (p : A → Bool) (xs : List A) (a : A) → p a ≡ true → any p (xs ++ a ∷ []) ≡ true
  any-snoc p [] a h = rw (h) refl
  any-snoc p (x ∷ xs) a h = ground (arith, any-snoc p xs a)

  pub any-find_by : (p : A → Bool) (xs : List A) → find_by p xs ≡ none → any p xs ≡ false
  any-find_by p [] h = refl
  any-find_by p (x ∷ xs) h = ground (arith, any-find_by p xs)

  -- A predicate on every row that the rewriting of a row keeps.
  pub All-map_rows :
      (P Q : A → Type 0) (f : A → A)
      → ((a : A) → P a → Q (f a))
      → (xs : List A) → All P xs
      → All Q (map f xs)
  All-map_rows P Q f g [] h = tt
  All-map_rows P Q f g (x ∷ xs) h = (g x h.0, All-map_rows P Q f g xs h.1)

  pub map-same :
      {B : Type 0} (key : A → B) (f : A → A)
      → ((a : A) → key (f a) ≡ key a)
      → (xs : List A) → map key (map f xs) ≡ map key xs
  map-same key f e [] = refl
  map-same key f e (x ∷ xs) = rw (e x, map-same key f e xs) refl

  -- A row without the key passes no test that asks for it.
  pub find_by-none :
      (P : A → Type 0) (p : A → Bool)
      → ((a : A) → P a → p a ≡ false)
      → (xs : List A) → All P xs
      → find_by p xs ≡ none
  find_by-none P p e [] h = refl
  find_by-none P p e (x ∷ xs) h = rw (e x h.0) (find_by-none P p e xs h.1)

  pub find_by-head : (p : A → Bool) (x : A) (xs : List A) → p x ≡ true → find_by p (x ∷ xs) ≡ some x
  find_by-head p x xs t = rw (t) refl

  pub find_by-tail :
      (p : A → Bool) (x : A) (xs : List A) → p x ≡ false → find_by p (x ∷ xs) ≡ find_by p xs
  find_by-tail p x xs f = rw (f) refl

  pub find_by-passes : (p : A → Bool) (xs : List A) (a : A) → find_by p xs ≡ some a → p a ≡ true
  find_by-passes p [] a h = absurd (cc)
  find_by-passes p (x ∷ xs) a h = elim (Bool-cases (p x)) [
    | inl t ↦ let q = sym (find_by-head p x xs t) ∙ h in cc
    | inr f ↦ find_by-passes p xs a (sym (find_by-tail p x xs f) ∙ h)
  ]

pub find_by-append :
    {A : Type 0} (p : A → Bool) (xs ys : List A) (a : A)
    → find_by p xs ≡ some a
    → find_by p (xs ++ ys) ≡ some a
find_by-append p [] ys a e = absurd (cc)
find_by-append p (x ∷ xs) ys a e = ground (arith, find_by-append p xs ys a)

pub find_by-snoc :
    {A : Type 0} (p : A → Bool) (xs : List A) (a : A)
    → find_by p xs ≡ none
    → p a ≡ true
    → find_by p (xs ++ a ∷ []) ≡ some a
find_by-snoc p [] a e h = rw (h) refl
find_by-snoc p (x ∷ xs) a e h = ground (arith, find_by-snoc p xs a)

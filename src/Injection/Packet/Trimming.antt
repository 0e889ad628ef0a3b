-- ===== src/Injection/Packet/Trimming.antt =====
-- The loop that pops candidates until the rendered text fits: what is left, and that no candidate
-- is lost.
use soul_llink.Base.{
  ℕ, ◌+◌, ◌≤◌, ◌≡◌, refl, ◌⊎◌, inl, inr, Bool, true, false, List, [], ◌∷◌, ◌++◌, Option, none, some,
  arith, ltb, sum_by, sum_by-append, All, Bool-cases,
}
use mathlib.Core.List.{reverse, reverse_aux}
use soul_llink.Base.Text.{Text}
use soul_llink.Injection.Candidate.{InjectionCandidate}
use soul_llink.Injection.Packet.{Rejection, pop_while, render_candidates, trim_selection}

sum_by-reverse_aux :
    {A : Type 0} (f : A → ℕ) (xs ys : List A)
    → sum_by f (reverse_aux xs ys) ≡ sum_by f xs + sum_by f ys
sum_by-reverse_aux f [] ys = omega arith
sum_by-reverse_aux f (x ∷ xs) ys = omega (arith, sum_by-reverse_aux f xs (x ∷ ys))

sum_by-reverse : {A : Type 0} (f : A → ℕ) (xs : List A) → sum_by f (reverse xs) ≡ sum_by f xs
sum_by-reverse f xs = omega (arith, sum_by-reverse_aux f xs [])

All-reverse_aux :
    {A : Type 0} (P : A → Type 0) (xs ys : List A) → All P xs → All P ys → All P (reverse_aux xs ys)
All-reverse_aux P [] ys h k = k
All-reverse_aux P (x ∷ xs) ys h k = All-reverse_aux P xs (x ∷ ys) h.1 (h.0, k)

All-reverse : {A : Type 0} (P : A → Type 0) (xs : List A) → All P xs → All P (reverse xs)
All-reverse P xs h = All-reverse_aux P xs [] h tt

module _ (is_over : List InjectionCandidate → Bool) where
  pop_while-pops :
      (c : InjectionCandidate) (before : List InjectionCandidate) (rejected : List Rejection)
      → is_over (reverse (c ∷ before)) ≡ true
      → pop_while is_over (c ∷ before) rejected
        ≡ pop_while is_over before (rejected ++ (c, "final-render-budget-exceeded") ∷ [])
  unfolding pop_while
  pop_while-pops c before rejected t = rw (pop_while, t) refl

  pop_while-stops :
      (c : InjectionCandidate) (before : List InjectionCandidate) (rejected : List Rejection)
      → is_over (reverse (c ∷ before)) ≡ false
      → pop_while is_over (c ∷ before) rejected ≡ (reverse (c ∷ before), rejected)
  unfolding pop_while
  pop_while-stops c before rejected f = rw (pop_while, f) refl

  -- What is left is empty or not over.
  pop_while_fits :
      (before : List InjectionCandidate) (rejected : List Rejection)
      → ((pop_while is_over before rejected).0 ≡ [])
        ⊎ (is_over (pop_while is_over before rejected).0 ≡ false)
  unfolding pop_while
  pop_while_fits [] rejected = inl refl
  pop_while_fits (c ∷ before) rejected = elim (Bool-cases (is_over (reverse (c ∷ before)))) [
    | inl t ↦ rw (pop_while-pops c before rejected t) (pop_while_fits before _)
    | inr f ↦ rw (pop_while-stops c before rejected f) (inr f)
  ]

  pop_while_conserves :
      (weight : InjectionCandidate → ℕ) (before : List InjectionCandidate)
      (rejected : List Rejection)
      → sum_by weight (pop_while is_over before rejected).0
          + sum_by (λ (c, reason). weight c) (pop_while is_over before rejected).1
        ≡ sum_by weight before + sum_by (λ (c, reason). weight c) rejected
  unfolding pop_while
  pop_while_conserves weight [] rejected = refl
  pop_while_conserves weight (c ∷ before) rejected =
      elim (Bool-cases (is_over (reverse (c ∷ before)))) [
        | inl t ↦ rw (pop_while-pops c before rejected t) (
            omega (
              arith,
              pop_while_conserves weight before
                  (rejected ++ (c, "final-render-budget-exceeded") ∷ []),
              sum_by-append (λ (c, reason). weight c) rejected
                  ((c, "final-render-budget-exceeded") ∷ []),
            ))
        | inr f ↦
            rw (pop_while-stops c before rejected f)
              (omega (arith, sum_by-reverse weight (c ∷ before)))
      ]

  pop_while_shrinks :
      (weight : InjectionCandidate → ℕ) (before : List InjectionCandidate)
      (rejected : List Rejection)
      → sum_by weight (pop_while is_over before rejected).0 ≤ sum_by weight before
  unfolding pop_while
  pop_while_shrinks weight [] rejected = omega arith
  pop_while_shrinks weight (c ∷ before) rejected =
      elim (Bool-cases (is_over (reverse (c ∷ before)))) [
        | inl t ↦ rw (pop_while-pops c before rejected t) (
            omega (
              arith,
              pop_while_shrinks weight before
                  (rejected ++ (c, "final-render-budget-exceeded") ∷ []),
            ))
        | inr f ↦
            rw (pop_while-stops c before rejected f)
              (omega (arith, sum_by-reverse weight (c ∷ before)))
      ]

  pop_while-All :
      (P : InjectionCandidate → Type 0) (before : List InjectionCandidate)
      (rejected : List Rejection)
      → All P before
      → All P (pop_while is_over before rejected).0
  unfolding pop_while
  pop_while-All P [] rejected h = tt
  pop_while-All P (c ∷ before) rejected h = elim (Bool-cases (is_over (reverse (c ∷ before)))) [
    | inl t ↦ rw (pop_while-pops c before rejected t) (pop_while-All P before _ h.1)
    | inr f ↦ rw (pop_while-stops c before rejected f) (All-reverse P (c ∷ before) h)
  ]

module _ (two_decimals : ℕ → Text) where
  pub trim_selection_conserves :
      (counter : Option (Text → ℕ)) (total : ℕ) (selected : List InjectionCandidate)
      (rejected : List Rejection) (weight : InjectionCandidate → ℕ)
      → sum_by weight (trim_selection two_decimals counter total selected rejected).0
          + sum_by
              (λ (c, reason). weight c)
              (trim_selection two_decimals counter total selected rejected).1
        ≡ sum_by weight selected + sum_by (λ (c, reason). weight c) rejected
  unfolding trim_selection
  trim_selection_conserves none total selected rejected weight = refl
  trim_selection_conserves (some counter) total selected rejected weight = omega (
    arith,
    pop_while_conserves (λ cs. ltb total (counter (render_candidates two_decimals cs))) weight
        (reverse selected) rejected,
    sum_by-reverse weight selected,
  )

  pub trim_selection_shrinks :
      (counter : Option (Text → ℕ)) (total : ℕ) (selected : List InjectionCandidate)
      (rejected : List Rejection) (weight : InjectionCandidate → ℕ)
      → sum_by weight (trim_selection two_decimals counter total selected rejected).0
        ≤ sum_by weight selected
  unfolding trim_selection
  trim_selection_shrinks none total selected rejected weight = omega arith
  trim_selection_shrinks (some counter) total selected rejected weight = omega (
    arith,
    pop_while_shrinks (λ cs. ltb total (counter (render_candidates two_decimals cs))) weight
        (reverse selected) rejected,
    sum_by-reverse weight selected,
  )

  pub trim_selection-All :
      (P : InjectionCandidate → Type 0) (counter : Option (Text → ℕ)) (total : ℕ)
      (selected : List InjectionCandidate) (rejected : List Rejection)
      → All P selected
      → All P (trim_selection two_decimals counter total selected rejected).0
  unfolding trim_selection
  trim_selection-All P none total selected rejected h = h
  trim_selection-All P (some counter) total selected rejected h =
      pop_while-All (λ cs. ltb total (counter (render_candidates two_decimals cs))) P
        (reverse selected) rejected (All-reverse P selected h)

  -- What is left has a rendered text within the budget, unless nothing is left.
  pub trim_selection_fits :
      (counter : Text → ℕ) (total : ℕ) (selected : List InjectionCandidate)
      (rejected : List Rejection)
      → let left = (trim_selection two_decimals (some counter) total selected rejected).0 in
        (left ≡ []) ⊎ (counter (render_candidates two_decimals left) ≤ total)
  unfolding trim_selection
  trim_selection_fits counter total selected rejected =
      elim (pop_while_fits (λ cs. ltb total (counter (render_candidates two_decimals cs)))
        (reverse selected) rejected) [ inl e ↦ inl e | inr f ↦ inr (ground arith) ]

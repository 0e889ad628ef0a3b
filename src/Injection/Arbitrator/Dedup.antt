-- ===== src/Injection/Arbitrator/Dedup.antt =====
-- What deduplication keeps.
use soul_llink.Base.{
  ap, ==_comm, ℕ, ◌+◌, ◌≤◌, ◌≡◌, refl, sym, ◌∙◌, inl, inr, Bool, true, false, ◌||◌, List, [], ◌∷◌,
  ◌==◌, ==→≡, arith, All, sum_by, contains, Bool-cases, if◌then◌else◌,
}
use soul_llink.Base.Text.{Text, text_eq}
use soul_llink.Injection.Candidate.{InjectionCandidate}
use soul_llink.Injection.Arbitrator.{fingerprint, deduplicate}

module _ (sha256 : Text → Text) where
  -- the number of candidates with a fingerprint
  abbrev pub with_fingerprint : Text → InjectionCandidate → ℕ
  with_fingerprint x c = if fingerprint sha256 c == x then 1 else 0

  deduplicate-seen :
      (seen : List Text) (c : InjectionCandidate) (cs : List InjectionCandidate)
      → contains seen (fingerprint sha256 c) ≡ true
      → deduplicate sha256 seen (c ∷ cs) ≡ (
        (deduplicate sha256 seen cs).0,
        (c, "duplicate-injection-fingerprint") ∷ (deduplicate sha256 seen cs).1,
      )
  unfolding deduplicate
  deduplicate-seen seen c cs t = rw (deduplicate, t) refl

  deduplicate-new :
      (seen : List Text) (c : InjectionCandidate) (cs : List InjectionCandidate)
      → contains seen (fingerprint sha256 c) ≡ false
      → deduplicate sha256 seen (c ∷ cs) ≡ (
        c ∷ (deduplicate sha256 (fingerprint sha256 c ∷ seen) cs).0,
        (deduplicate sha256 (fingerprint sha256 c ∷ seen) cs).1,
      )
  unfolding deduplicate
  deduplicate-new seen c cs f = rw (deduplicate, f) refl

  pub deduplicate_conserves :
      (weight : InjectionCandidate → ℕ) (seen : List Text) (cs : List InjectionCandidate)
      → sum_by weight (deduplicate sha256 seen cs).0
          + sum_by (λ (c, reason). weight c) (deduplicate sha256 seen cs).1
        ≡ sum_by weight cs
  unfolding deduplicate
  deduplicate_conserves weight seen [] = refl
  deduplicate_conserves weight seen (c ∷ cs) =
      elim (Bool-cases (contains seen (fingerprint sha256 c))) [
        | inl t ↦
            rw (deduplicate-seen seen c cs t) (omega (arith, deduplicate_conserves weight seen cs))
        | inr f ↦
            rw (deduplicate-new seen c cs f)
              (omega (arith, deduplicate_conserves weight (fingerprint sha256 c ∷ seen) cs))
      ]

  pub deduplicate-All :
      (P : InjectionCandidate → Type 0) (seen : List Text) (cs : List InjectionCandidate)
      → All P cs
      → All P (deduplicate sha256 seen cs).0
  unfolding deduplicate
  deduplicate-All P seen [] h = tt
  deduplicate-All P seen (c ∷ cs) h = elim (Bool-cases (contains seen (fingerprint sha256 c))) [
    | inl t ↦ rw (deduplicate-seen seen c cs t) (deduplicate-All P seen cs h.1)
    | inr f ↦
        rw (deduplicate-new seen c cs f)
          (h.0, deduplicate-All P (fingerprint sha256 c ∷ seen) cs h.1)
  ]

  -- A fingerprint that was seen is not kept again, and any other at most once.
  deduplicate_once_seen :
      (x : Text) (seen : List Text) (cs : List InjectionCandidate)
      → contains seen x ≡ true
      → sum_by (with_fingerprint x) (deduplicate sha256 seen cs).0 ≡ 0
  unfolding deduplicate
  deduplicate_once_seen x seen [] h = refl
  deduplicate_once_seen x seen (c ∷ cs) h =
      elim (Bool-cases (contains seen (fingerprint sha256 c))) [
        | inl t ↦ rw (deduplicate-seen seen c cs t) (deduplicate_once_seen x seen cs h)
        | inr f ↦
            let other = not_it seen (fingerprint sha256 c) x f h in
            let rest =
              deduplicate_once_seen x (fingerprint sha256 c ∷ seen) cs
                (or_true (x == fingerprint sha256 c) (contains seen x) h) in
            rw (deduplicate-new seen c cs f, other) (omega (arith, rest))
      ]
    where
      not_it :
          (seen : List Text) (y x : Text)
          → contains seen y ≡ false
          → contains seen x ≡ true
          → (y == x) ≡ false
      not_it seen y x f t = elim (Bool-cases (y == x)) [
        | inl e ↦
            absurd (let p = ==→≡ y x e in let q = sym (ap {B = Bool} (contains seen) p) ∙ f in cc)
        | inr n ↦ n
      ]

      or_true : (p q : Bool) → q ≡ true → (p || q) ≡ true
      or_true p q h = ground arith

  pub deduplicate_once :
      (x : Text) (seen : List Text) (cs : List InjectionCandidate)
      → sum_by (with_fingerprint x) (deduplicate sha256 seen cs).0 ≤ 1
  unfolding deduplicate
  deduplicate_once x seen [] = omega arith
  deduplicate_once x seen (c ∷ cs) = elim (Bool-cases (contains seen (fingerprint sha256 c))) [
    | inl t ↦ rw (deduplicate-seen seen c cs t) (deduplicate_once x seen cs)
    | inr f ↦ elim (Bool-cases (fingerprint sha256 c == x)) [
      | inl e ↦
          let rest = deduplicate_once_seen x (fingerprint sha256 c ∷ seen) cs (
            or_first (x == fingerprint sha256 c) (contains seen x)
              (==_comm x (fingerprint sha256 c) ∙ e)) in
          rw (deduplicate-new seen c cs f, e) (omega (arith, rest))
      | inr n ↦
          rw (deduplicate-new seen c cs f, n)
            (omega (arith, deduplicate_once x (fingerprint sha256 c ∷ seen) cs))
    ]
  ]
    where
      or_first : (p q : Bool) → p ≡ true → (p || q) ≡ true
      or_first p q h = ground arith

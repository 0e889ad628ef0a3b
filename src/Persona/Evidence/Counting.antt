-- ===== src/Persona/Evidence/Counting.antt =====
-- Evidence that counts, and the tests of a collection as statements on its members.
use soul_llink.Base.{
  ℕ, ◌<◌, ◌≡◌, refl, suc, not, inl, inr, Bool, true, false, ◌&&◌, List, [], ◌∷◌, arith, ==→≡,
  ==-refl, is_empty, any, leb, Member, Bool-cases, filter_by,
}
use soul_llink.Persona.Evidence.{FeatureClass, feature_eq, MatchEvidence, counting, max_by}

-- The evidence is of the class, its requirements hold and nothing forbids it.
abbrev pub Counts : FeatureClass → MatchEvidence → Type 0
Counts c e = (e.feature_class ≡ c) × (e.requires_satisfied ≡ true) × (e.forbids_triggered ≡ false)

pub counting-Counts : (c : FeatureClass) (e : MatchEvidence) → counting c e ≡ true → Counts c e
counting-Counts c e h = (==→≡ e.feature_class c (ground arith), ground arith, ground arith)

pub Counts-counting : (c : FeatureClass) (e : MatchEvidence) → Counts c e → counting c e ≡ true
Counts-counting c e h = rw (h.0, ==-refl c, h.1, h.2) refl

pub Counts-never : (c : FeatureClass) (e : MatchEvidence) → counting c e ≡ false → ¬ Counts c e
Counts-never c e n h = let y = Counts-counting c e h in cc

pub never-Counts : (c : FeatureClass) (e : MatchEvidence) → ¬ Counts c e → counting c e ≡ false
never-Counts c e n = elim (Bool-cases (counting c e)) [
  | inl y ↦ absurd (n (counting-Counts c e y))
  | inr f ↦ f
]

-- Evidence that counts stays below a bound on what is measured.
pub below :
    (c : FeatureClass) (e : MatchEvidence) (n m : ℕ)
    → Counts c e
    → (counting c e && leb n m) ≡ false
    → m < n
below c e n m h f = let y = Counts-counting c e h in ground arith

pub below-leb :
    (c : FeatureClass) (e : MatchEvidence) (n m : ℕ)
    → (Counts c e → m < n)
    → (counting c e && leb n m) ≡ false
below-leb c e n m h = elim (Bool-cases (counting c e)) [
  | inl y ↦ let l = h (counting-Counts c e y) in ground arith
  | inr f ↦ rw f refl
]

pub any-Member :
    (p : MatchEvidence → Bool) (es : List MatchEvidence)
    → any p es ≡ true
    → (e : MatchEvidence) × Member e es × (p e ≡ true)
any-Member p [] h = cc
any-Member p (e ∷ es) h = elim (Bool-cases (p e)) [
  | inl y ↦ (e, inl refl, y)
  | inr n ↦ let found = any-Member p es (ground arith) in (found.0, inr found.1, found.2)
]

pub Member-any :
    (p : MatchEvidence → Bool) (e : MatchEvidence) (es : List MatchEvidence)
    → any p es ≡ false
    → Member e es
    → p e ≡ false
Member-any p e [] h m = absurd m
Member-any p e (x ∷ es) h (inl q) = ground (arith)
Member-any p e (x ∷ es) h (inr m) = Member-any p e es (ground arith) m

pub any-none :
    (p : MatchEvidence → Bool) (es : List MatchEvidence)
    → ((e : MatchEvidence) → Member e es → p e ≡ false)
    → any p es ≡ false
any-none p [] h = refl
any-none p (e ∷ es) h = rw (h e (inl refl), any-none p es (λ x m. h x (inr m))) refl

pub any-some :
    (p : MatchEvidence → Bool) (e : MatchEvidence) (es : List MatchEvidence)
    → Member e es
    → p e ≡ true
    → any p es ≡ true
any-some p e es m h = elim (Bool-cases (any p es)) [
  | inl y ↦ y
  | inr n ↦ let none_found = Member-any p e es n m in cc
]

pub leb-max_by :
    (f : MatchEvidence → ℕ) (p : MatchEvidence → Bool) (n : ℕ) (es : List MatchEvidence)
    → leb (suc n) (max_by f (filter_by p es)) ≡ any (λ e. p e && leb (suc n) (f e)) es
leb-max_by f p n [] = ground arith
leb-max_by f p n (e ∷ es) = elim (Bool-cases (p e)) [
  | inl y ↦ rw y (ground (arith, leb-max_by f p n es))
  | inr y ↦ rw y (leb-max_by f p n es)
]

pub is_empty-filter_by :
    (p : MatchEvidence → Bool) (es : List MatchEvidence)
    → is_empty (filter_by p es) ≡ not (any p es)
is_empty-filter_by p [] = refl
is_empty-filter_by p (e ∷ es) = ground (arith, is_empty-filter_by p es)

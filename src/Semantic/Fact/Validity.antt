-- ===== src/Semantic/Fact/Validity.antt =====
-- What the constructor of a fact accepts.
use soul_llink.Base.{
  ◌≡◌, refl, ◌∙◌, ap, inl, inr, Bool, true, false, not, List, [], ◌∷◌, String, ◌==◌, string_eq, leb,
  filter_by, contains, Result, ok, require, ◌>>◌, Exception, Bool-cases, ◌↔◌,
}
use mathlib.Core.Path.{subst}
use soul_llink.Semantic.Fact.{
  TemporalFact, allowed_namespaces, allowed_stability, is_blank, not_before, cleaned, make_fact,
}

-- The conditions on a fact, with no order among them.
pub record IsAcceptable (f : TemporalFact) : Type 0 where
  pub has_id : not (is_blank f.memory_id) ≡ true
  pub has_subject : not (is_blank f.subject) ≡ true
  pub has_predicate : not (is_blank f.predicate) ≡ true
  pub has_object : not (is_blank f.object) ≡ true
  pub bounded : leb f.confidence 10000 ≡ true
  pub known_namespace : contains allowed_namespaces f.namespace ≡ true
  pub known_stability : contains allowed_stability f.stability ≡ true
  pub ordered : not_before f.valid_from f.valid_until ≡ true

require-ok :
    {A : Type 0} (b : Bool) (e : Exception) (rest : Result A) (a : A)
    → (require b e >> rest) ≡ ok a
    → (b ≡ true) × (rest ≡ ok a)
require-ok true e rest a h = (refl, h)
require-ok false e rest a h = absurd (cc)

-- The constructor accepts a fact only if all its conditions hold, and gives it without its empty
-- references.
pub make_fact-IsAcceptable :
    (f g : TemporalFact) → make_fact f ≡ ok g → IsAcceptable f × (cleaned f ≡ g)
unfolding make_fact
make_fact-IsAcceptable f g h =
    let r1 = require-ok (not (is_blank f.memory_id)) _ _ g h in
    let r2 = require-ok (not (is_blank f.subject)) _ _ g r1.1 in
    let r3 = require-ok (not (is_blank f.predicate)) _ _ g r2.1 in
    let r4 = require-ok (not (is_blank f.object)) _ _ g r3.1 in
    let r5 = require-ok (leb f.confidence 10000) _ _ g r4.1 in
    let r6 = require-ok (contains allowed_namespaces f.namespace) _ _ g r5.1 in
    let r7 = require-ok (contains allowed_stability f.stability) _ _ g r6.1 in
    let r8 = require-ok (not_before f.valid_from f.valid_until) _ _ g r7.1 in
    (
      record {
        has_id = r1.0;
        has_subject = r2.0;
        has_predicate = r3.0;
        has_object = r4.0;
        bounded = r5.0;
        known_namespace = r6.0;
        known_stability = r7.0;
        ordered = r8.0;
      },
      ok_injective r8.1,
    )
  where
    ok_injective : {A : Type 0} {x y : A} → ok x ≡ ok y → x ≡ y
    ok_injective e = cc

pub IsAcceptable-make_fact : (f : TemporalFact) → IsAcceptable f → make_fact f ≡ ok (cleaned f)
unfolding make_fact
IsAcceptable-make_fact f h =
    rw
      (
        h.has_id, h.has_subject, h.has_predicate, h.has_object, h.bounded, h.known_namespace,
        h.known_stability, h.ordered,
      )
      refl

filter_by-twice :
    {A : Type 0} (p : A → Bool) (xs : List A) → filter_by p (filter_by p xs) ≡ filter_by p xs
filter_by-twice p [] = refl
filter_by-twice p (x ∷ xs) = elim (Bool-cases (p x)) [
  | inl t ↦ rw (t, t, filter_by-twice p xs) refl
  | inr f ↦ rw (f) (filter_by-twice p xs)
]

pub cleaned_twice : (f : TemporalFact) → cleaned (cleaned f) ≡ cleaned f
cleaned_twice f =
    let keeps : String → Bool = λ ref. not (ref == "") in
    rw (filter_by-twice keeps f.source_refs, filter_by-twice keeps f.supersedes) refl

cleaned-IsAcceptable : (f : TemporalFact) → IsAcceptable f → IsAcceptable (cleaned f)
cleaned-IsAcceptable f h = record {
  has_id = h.has_id;
  has_subject = h.has_subject;
  has_predicate = h.has_predicate;
  has_object = h.has_object;
  bounded = h.bounded;
  known_namespace = h.known_namespace;
  known_stability = h.known_stability;
  ordered = h.ordered;
}

-- What the constructor gives it accepts again, as it is.
pub make_fact_again : (f g : TemporalFact) → make_fact f ≡ ok g → make_fact g ≡ ok g
make_fact_again f g h =
    let p = make_fact-IsAcceptable f g h in
    subst (λ x. make_fact x ≡ ok x) p.1
      (IsAcceptable-make_fact (cleaned f) (cleaned-IsAcceptable f p.0)
        ∙ ap {B = Result TemporalFact} (λ x. ok x) (cleaned_twice f))

-- The constructor succeeds exactly when all the conditions hold, whatever order it tests them in,
-- and what it gives it accepts again as it is.
make_fact_accepts :
    (f : TemporalFact)
    → (((g : TemporalFact) × (make_fact f ≡ ok g)) ↔ IsAcceptable f)
      × ((g : TemporalFact) → make_fact f ≡ ok g → make_fact g ≡ ok g)
make_fact_accepts f = (
  (λ (g, h). (make_fact-IsAcceptable f g h).0, λ a. (cleaned f, IsAcceptable-make_fact f a)),
  make_fact_again f,
)

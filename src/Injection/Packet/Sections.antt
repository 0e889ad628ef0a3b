-- ===== src/Injection/Packet/Sections.antt =====
-- The sections of a packet hold its candidates, each under its own type.
use soul_llink.Base.{
  ℕ, ◌+◌, ◌≡◌, refl, sym, ◌∙◌, inl, inr, Bool, false, List, [], ◌∷◌, ◌||◌, ◌==◌, ==→≡, arith, All,
  All-append, sum_by, sum_by-append, map, contains, Distinct, Bool-cases,
}
use soul_llink.Base.Sorting.{sorted, sum_by-sorted}
use soul_llink.Injection.Candidate.{CandidateType, type_eq, InjectionCandidate, before_fixed}
use soul_llink.Injection.Packet.{SectionTable, add_section, add_sections, make_sections}

-- Each section has candidates of its type only.
unfoldable pub IsTyped : SectionTable → Type 0
IsTyped sections = All (λ (t, cs). All (λ c. c.type ≡ t) cs) sections

unfoldable pub section_types : SectionTable → List CandidateType
section_types sections = map (λ (t, cs). t) sections

add_section-IsTyped :
    (sections : SectionTable) (c : InjectionCandidate)
    → IsTyped sections
    → IsTyped (add_section sections c)
unfolding add_section IsTyped
add_section-IsTyped [] c h = ((refl, tt), tt)
add_section-IsTyped ((t, cs) ∷ rest) c h = elim (Bool-cases (t == c.type)) [
  | inl e ↦ rw (e) (All-append _ cs _ h.0 (sym (==→≡ t c.type e), tt), h.1)
  | inr f ↦ rw (f) (h.0, add_section-IsTyped rest c h.1)
]

-- A section that is added to keeps the types that were there.
add_section-types :
    (sections : SectionTable) (c : InjectionCandidate) (u : CandidateType)
    → contains (section_types (add_section sections c)) u
      ≡ (contains (section_types sections) u || u == c.type)
unfolding add_section section_types
add_section-types [] c u = ground arith
add_section-types ((t, cs) ∷ rest) c u = elim (Bool-cases (t == c.type)) [
  | inl e ↦ rw (e, sym (==→≡ t c.type e)) (or_again (u == t) (contains (section_types rest) u))
  | inr f ↦
      rw (f, add_section-types rest c u)
        (or_assoc (u == t) (contains (section_types rest) u) (u == c.type))
]
  where
    or_again : (p q : Bool) → (p || q) ≡ ((p || q) || p)
    or_again p q = ground arith

    or_assoc : (p q r : Bool) → (p || (q || r)) ≡ ((p || q) || r)
    or_assoc p q r = ground arith

add_section-Distinct :
    (sections : SectionTable) (c : InjectionCandidate)
    → Distinct (section_types sections)
    → Distinct (section_types (add_section sections c))
unfolding add_section section_types
add_section-Distinct [] c d = (refl, tt)
add_section-Distinct ((t, cs) ∷ rest) c d = elim (Bool-cases (t == c.type)) [
  | inl e ↦ rw (e) d
  | inr f ↦
      rw (f) (add_section-types rest c t ∙ both_false _ _ d.0 f, add_section-Distinct rest c d.1)
]
  where
    both_false : (p q : Bool) → p ≡ false → q ≡ false → (p || q) ≡ false
    both_false p q h k = ground arith

unfoldable pub section_sum : (InjectionCandidate → ℕ) → SectionTable → ℕ
section_sum weight sections = sum_by (λ (t, cs). sum_by weight cs) sections

add_section-sum :
    (weight : InjectionCandidate → ℕ) (sections : SectionTable) (c : InjectionCandidate)
    → section_sum weight (add_section sections c) ≡ section_sum weight sections + weight c
unfolding add_section section_sum
add_section-sum weight [] c = omega arith
add_section-sum weight ((t, cs) ∷ rest) c =
    ground (arith, sum_by-append weight cs (c ∷ []), add_section-sum weight rest c)

-- A table of sections in which every section has its own type.
pub record IsSorted (sections : SectionTable) : Type 0 where
  pub typed : IsTyped sections
  pub distinct : Distinct (section_types sections)

add_sections-IsSorted :
    (sections : SectionTable) (cs : List InjectionCandidate)
    → IsSorted sections
    → IsSorted (add_sections sections cs)
unfolding add_sections
add_sections-IsSorted sections [] h = h
add_sections-IsSorted sections (c ∷ cs) h =
    add_sections-IsSorted (add_section sections c) cs (record {
      typed = add_section-IsTyped sections c h.typed;
      distinct = add_section-Distinct sections c h.distinct;
    })

add_sections-sum :
    (weight : InjectionCandidate → ℕ) (sections : SectionTable) (cs : List InjectionCandidate)
    → section_sum weight (add_sections sections cs) ≡ section_sum weight sections + sum_by weight cs
unfolding add_sections
add_sections-sum weight sections [] = omega arith
add_sections-sum weight sections (c ∷ cs) =
    omega (
      arith,
      add_sections-sum weight (add_section sections c) cs,
      add_section-sum weight sections c,
    )

-- The sections hold the candidates, each once and under its own type, and no type has two
-- sections.
pub make_sections-IsSorted :
    (cs : List InjectionCandidate)
    → IsSorted (make_sections cs)
      × ((weight : InjectionCandidate → ℕ)
          → section_sum weight (make_sections cs) ≡ sum_by weight cs)
unfolding make_sections IsTyped section_types section_sum
make_sections-IsSorted cs = (
  add_sections-IsSorted [] (sorted before_fixed cs) (record { typed = tt; distinct = tt }),
  λ weight. omega (
    arith,
    add_sections-sum weight [] (sorted before_fixed cs),
    sum_by-sorted before_fixed weight cs,
  ),
)

-- ===== src/Semantic/Fact/RoundTrip.antt =====
-- Writing a fact as a dictionary and reading it back.
use soul_llink.Base.{
  ℕ, ◌≡◌, refl, sym, ◌∙◌, ap, inl, inr, Bool, true, false, List, String, Option, some, ◌==◌, ==→≡,
  string_eq, contains, ok, Bool-cases,
}
use soul_llink.Base.Text.{Text}
use soul_llink.Semantic.Dates.{IsIsoFormat, datetime_from_text-to_text}
use soul_llink.Semantic.Fact.{
  TemporalFact, allowed_namespaces, allowed_stability, make_fact, or_text, to_dict, from_dict,
}
use soul_llink.Semantic.Fact.Validity.{make_fact-IsAcceptable}

-- A text that is in a list of texts without the empty one is read back as it is.
or_text-listed :
    (texts : List String) (text default : String)
    → contains texts "" ≡ false
    → contains texts text ≡ true
    → or_text (some text) default ≡ text
or_text-listed texts text default n h = elim (Bool-cases (text == "")) [
  | inl e ↦
      absurd
        (let p = ap {B = Bool} (contains texts) (==→≡ text "" e) in let q = sym h ∙ p ∙ n in cc)
  | inr f ↦ rw (f) refl
]

or_text-empty : (text : String) → or_text (some text) "" ≡ text
or_text-empty text = elim (Bool-cases (text == "")) [
  | inl e ↦ rw (e) (sym (==→≡ text "" e))
  | inr f ↦ rw (f) refl
]

module _ (isoformat : ℕ → Text) (fromisoformat : Text → Option ℕ)
    (iso : IsIsoFormat isoformat fromisoformat) where
  -- A fact that the constructor has made is read back from its dictionary as it was.
  pub from_dict-to_dict :
      (utc_now : ℕ) (f : TemporalFact)
      → make_fact f ≡ ok f
      → from_dict isoformat fromisoformat utc_now (to_dict isoformat fromisoformat f) ≡ ok f
  unfolding from_dict to_dict
  from_dict-to_dict utc_now f h =
      let a = (make_fact-IsAcceptable f f h).0 in
      rw
        (
          datetime_from_text-to_text isoformat fromisoformat iso (some f.valid_from),
          datetime_from_text-to_text isoformat fromisoformat iso f.valid_until,
          datetime_from_text-to_text isoformat fromisoformat iso f.last_verified_at,
          or_text-listed allowed_stability f.stability "medium" refl a.known_stability,
          or_text-listed allowed_namespaces f.namespace "project_fact" refl a.known_namespace,
          or_text-empty f.write_reason,
        )
        h

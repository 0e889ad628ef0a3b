-- ===== src/Semantic/Fact.antt =====
-- packages/pcltm/memory/temporal_fact.py: facts with a time of validity. Confidences are
-- ten-thousandths, dates are instants in UTC.
pub mod Validity
pub mod RoundTrip
use soul_llink.Base.{
  ℕ, Bool, true, false, not, ◌&&◌, ◌||◌, List, [], ◌∷◌, String, Option, none, some, ◌==◌, string_eq,
  ltb, leb, if◌then◌else◌, all, filter_by, contains, Result, ok, raise, require, ◌>>=◌, ◌>>◌,
  value_error,
}
use soul_llink.Base.Text.{Text, codes, is_space}
use soul_llink.Semantic.Dates.{datetime_to_text, datetime_from_text}

-- `_ALLOWED_NAMESPACES`
abbrev pub allowed_namespaces : List String
allowed_namespaces =
    "user_preference" ∷ "user_profile" ∷ "relationship_anchor" ∷ "project_fact"
    ∷ "runtime_invariant" ∷ "persona_fact" ∷ "boundary" ∷ "environment_fact" ∷ []

-- `_ALLOWED_STABILITY`
abbrev pub allowed_stability : List String
allowed_stability = "low" ∷ "medium" ∷ "high" ∷ "verified" ∷ []

pub record TemporalFact : Type 0 where
  pub memory_id : String
  pub subject : String
  pub predicate : String
  pub object : String
  pub confidence : ℕ
  pub valid_from : ℕ
  pub valid_until : Option ℕ
  pub source_refs : List String
  pub stability : String
  pub namespace : String
  pub conflict_group : Option String
  pub supersedes : List String
  pub superseded_by : Option String
  pub write_reason : String
  pub last_verified_at : Option ℕ

-- `not text.strip()`
abbrev pub is_blank : String → Bool
is_blank text = all is_space (codes text)

abbrev pub not_before : ℕ → Option ℕ → Bool
not_before from none = true
not_before from (some until) = leb from until

-- `tuple(ref for ref in refs if ref)`
abbrev pub non_empty : List String → List String
non_empty refs = filter_by (λ ref. not (ref == "")) refs

abbrev pub cleaned : TemporalFact → TemporalFact
cleaned f = record f { source_refs = non_empty f.source_refs; supersedes = non_empty f.supersedes }

-- `TemporalFact.__post_init__`
unfoldable pub make_fact : TemporalFact → Result TemporalFact
make_fact f = do
  require (not (is_blank f.memory_id)) (value_error "memory_id is required")
  require (not (is_blank f.subject)) (value_error "subject is required")
  require (not (is_blank f.predicate)) (value_error "predicate is required")
  require (not (is_blank f.object)) (value_error "object is required")
  require (leb f.confidence 10000) (value_error "confidence must be between 0.0 and 1.0")
  require (contains allowed_namespaces f.namespace) (value_error "unsupported semantic namespace")
  require (contains allowed_stability f.stability) (value_error "unsupported semantic stability")
  require (not_before f.valid_from f.valid_until)
      (value_error "valid_until cannot be earlier than valid_from")
  ok (cleaned f)

abbrev pub is_none {ℓ} : {A : Type ℓ} → Option A → Bool
is_none none = true
is_none (some _) = false

-- `is_active`
abbrev pub is_active : TemporalFact → Bool
is_active f = is_none f.valid_until && is_none f.superseded_by

-- `value if value is not None else other`
abbrev pub or_else {ℓ} : {A : Type ℓ} → Option A → A → A
or_else none other = other
or_else (some a) other = a

abbrev pub or_option {ℓ} : {A : Type ℓ} → Option A → Option A → Option A
or_option none other = other
or_option (some a) other = some a

-- `with_supersession`
unfoldable pub with_supersession :
    Option String → Option ℕ → Option (List String) → TemporalFact → Result TemporalFact
unfolding make_fact
with_supersession superseded_by valid_until supersedes f = make_fact (record f {
  valid_until = or_option valid_until f.valid_until;
  supersedes = or_else supersedes f.supersedes;
  superseded_by = or_option superseded_by f.superseded_by;
})

-- the dictionary of a fact: the keys that `from_dict` reads with `data[...]`, and those that it
-- reads with `get`
pub record FactDict : Type 0 where
  pub memory_id : String
  pub subject : String
  pub predicate : String
  pub object : String
  pub confidence : ℕ
  pub valid_from : Option Text
  pub valid_until : Option Text
  pub source_refs : Option (List String)
  pub stability : Option String
  pub namespace : Option String
  pub conflict_group : Option String
  pub supersedes : Option (List String)
  pub superseded_by : Option String
  pub write_reason : Option String
  pub last_verified_at : Option Text

-- `data.get(key) or default`
abbrev pub or_text : Option String → String → String
or_text none default = default
or_text (some text) default = if text == "" then default else text

module _ (isoformat : ℕ → Text) (fromisoformat : Text → Option ℕ) where
  -- `to_dict`
  unfoldable pub to_dict : TemporalFact → FactDict
  unfolding datetime_to_text
  to_dict f = record {
    memory_id = f.memory_id;
    subject = f.subject;
    predicate = f.predicate;
    object = f.object;
    confidence = f.confidence;
    valid_from = datetime_to_text isoformat fromisoformat (some f.valid_from);
    valid_until = datetime_to_text isoformat fromisoformat f.valid_until;
    source_refs = some f.source_refs;
    stability = some f.stability;
    namespace = some f.namespace;
    conflict_group = f.conflict_group;
    supersedes = some f.supersedes;
    superseded_by = f.superseded_by;
    write_reason = some f.write_reason;
    last_verified_at = datetime_to_text isoformat fromisoformat f.last_verified_at;
  }

  -- `from_dict`, at a current time
  unfoldable pub from_dict : ℕ → FactDict → Result TemporalFact
  from_dict utc_now dict = do
    valid_from ← datetime_from_text isoformat fromisoformat dict.valid_from
    valid_until ← datetime_from_text isoformat fromisoformat dict.valid_until
    last_verified_at ← datetime_from_text isoformat fromisoformat dict.last_verified_at
    make_fact (record {
      memory_id = dict.memory_id;
      subject = dict.subject;
      predicate = dict.predicate;
      object = dict.object;
      confidence = dict.confidence;
      valid_from = or_else valid_from utc_now;
      valid_until = valid_until;
      source_refs = or_else dict.source_refs [];
      stability = or_text dict.stability "medium";
      namespace = or_text dict.namespace "project_fact";
      conflict_group = dict.conflict_group;
      supersedes = or_else dict.supersedes [];
      superseded_by = dict.superseded_by;
      write_reason = or_text dict.write_reason "";
      last_verified_at = last_verified_at;
    })

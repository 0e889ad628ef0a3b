-- ===== src/Injection/Candidate.antt =====
-- packages/pcltm/injection/candidate.py: candidates for injection. Scores are ten-thousandths; token
-- costs and priorities are naturals, as every producer in the package makes them.
use soul_llink.Base.{
  ℕ, ◌+◌, ◌*◌, ◌/◌, ◌≡◌, ◌↔◌, min, max, Bool, true, false, ◌&&◌, ◌||◌, List, [], ◌∷◌, ◌++◌, String,
  Option, none, some, arith, Eq, eq_by, ◌==◌, string_eq, ltb, nat_beq, if◌then◌else◌, length,
  is_empty, contains, Result, ok, raise, value_error,
}
use soul_llink.Base.Text.{Text, strip, text_before, text_eq}

pub data CandidateType : Type 0 where
  system core_identity runtime_mode active_dialogue current_task persona_emotion : CandidateType
  session_spine episodic_memory semantic_memory procedural_skill : CandidateType
  background_context : CandidateType

-- `INJECTION_PRIORITY`
abbrev pub injection_priority : CandidateType → ℕ
injection_priority system = 0
injection_priority core_identity = 1
injection_priority runtime_mode = 2
injection_priority active_dialogue = 3
injection_priority current_task = 4
injection_priority persona_emotion = 5
injection_priority session_spine = 6
injection_priority episodic_memory = 7
injection_priority semantic_memory = 8
injection_priority procedural_skill = 9
injection_priority background_context = 10

pub injection_priority_injective :
    (a b : CandidateType) → injection_priority a ≡ injection_priority b → a ≡ b
injection_priority_injective a b h = ground arith

instance abbrev pub type_eq : Eq CandidateType
type_eq = eq_by injection_priority injection_priority_injective

-- `RiskFlag`, and any other text
pub data RiskFlag : Type 0 where
  core_conflict current_task_conflict new_fact_conflict emotion_fact_contamination : RiskFlag
  missing_source missing_confidence permanent_episodic_claim procedural_not_needed : RiskFlag
  conflicting_memory : RiskFlag
  other_flag : String → RiskFlag

abbrev pub flag_beq : RiskFlag → RiskFlag → Bool
flag_beq core_conflict core_conflict = true
flag_beq current_task_conflict current_task_conflict = true
flag_beq new_fact_conflict new_fact_conflict = true
flag_beq emotion_fact_contamination emotion_fact_contamination = true
flag_beq missing_source missing_source = true
flag_beq missing_confidence missing_confidence = true
flag_beq permanent_episodic_claim permanent_episodic_claim = true
flag_beq procedural_not_needed procedural_not_needed = true
flag_beq conflicting_memory conflicting_memory = true
flag_beq (other_flag s) (other_flag t) = s == t
flag_beq _ _ = false

pub flag_beq_iff : (a b : RiskFlag) → (flag_beq a b ≡ true) ↔ (a ≡ b)
flag_beq_iff (other_flag s) (other_flag t) = ground (arith, string_eq.beq_iff s t)
flag_beq_iff a b = ground arith

instance abbrev pub flag_eq : Eq RiskFlag
flag_eq = record { beq = flag_beq; beq_iff = flag_beq_iff }

-- What a metadata entry can be: a Boolean, the private object that marks governed memory, or any
-- other object by its truth value.
pub data Value : Type 0 where
  bool : Bool → Value
  authority : Value
  other_value : Bool → Value

abbrev pub Metadata : Type 0
Metadata = List (String × Value)

-- `metadata.get(key)`
unfoldable pub get_value : String → Metadata → Option Value
get_value key [] = none
get_value key ((k, v) ∷ m) = if k == key then some v else get_value key m

-- `metadata.pop(key, None)`, the metadata that is left
unfoldable pub without : String → Metadata → Metadata
without key [] = []
without key ((k, v) ∷ m) = let rest = without key m in if k == key then rest else (k, v) ∷ rest

pub record InjectionCandidate : Type 0 where
  pub key : Text
  pub content : Text
  pub type : CandidateType
  pub source : String
  pub confidence : Option ℕ
  pub freshness : ℕ
  pub relevance : ℕ
  pub priority : ℕ
  pub risk_flags : List RiskFlag
  pub token_cost : ℕ
  pub metadata : Metadata

-- `estimate_token_cost`
unfoldable pub estimate_token_cost : Text → ℕ
estimate_token_cost content =
    let stripped = strip content in
    if is_empty stripped then 0 else max 1 ((length stripped + 3) / 4)

-- a float argument in ten-thousandths, by its sign
pub data Score : Type 0 where
  plus minus : ℕ → Score

-- `_clamp`
abbrev pub clamp : Score → ℕ
clamp (plus n) = min 10000 n
clamp (minus n) = 0

-- the arguments of the constructor
pub record CandidateArguments : Type 0 where
  pub key : Text
  pub content : Text
  pub type : CandidateType
  pub source : String
  pub confidence : Option Score
  pub freshness : Score
  pub relevance : Score
  pub priority : Option ℕ
  pub risk_flags : List RiskFlag
  pub token_cost : Option ℕ
  pub metadata : Metadata

abbrev pub clamp_option : Option Score → Option ℕ
clamp_option none = none
clamp_option (some s) = some (clamp s)

abbrev pub or_value : Option ℕ → ℕ → ℕ
or_value none n = n
or_value (some m) _ = m

-- `InjectionCandidate.__post_init__`
unfoldable pub make_candidate : CandidateArguments → Result InjectionCandidate
make_candidate a =
    if is_empty a.key
    then raise (value_error "candidate key is required")
    else ok (record {
      key = a.key;
      content = a.content;
      type = a.type;
      source = a.source;
      confidence = clamp_option a.confidence;
      freshness = clamp a.freshness;
      relevance = clamp a.relevance;
      priority = or_value a.priority (injection_priority a.type);
      risk_flags = a.risk_flags;
      token_cost = or_value a.token_cost (estimate_token_cost a.content);
      metadata = a.metadata;
    })

-- `rank_score`, in millionths
abbrev pub rank_score : InjectionCandidate → ℕ
rank_score c = c.relevance * 45 + c.freshness * 30 + or_value c.confidence 5000 * 25

-- `tuple(dict.fromkeys((*self.risk_flags, *flags)))`: each flag once, in the order of its first use
pub merge_risks : List RiskFlag → List RiskFlag → List RiskFlag
merge_risks merged [] = merged
merge_risks merged (f ∷ flags) =
    merge_risks (if contains merged f then merged else merged ++ f ∷ []) flags

unfoldable pub with_risk : List RiskFlag → InjectionCandidate → InjectionCandidate
unfolding merge_risks
with_risk flags c = record c { risk_flags = merge_risks (merge_risks [] c.risk_flags) flags }

-- `(item.priority, item.key)`, and `(item.priority, -item.rank_score, item.key)`: the first comes
-- strictly before the second
abbrev pub before_fixed : InjectionCandidate → InjectionCandidate → Bool
before_fixed a b =
    ltb a.priority b.priority || nat_beq a.priority b.priority && text_before a.key b.key

abbrev pub before_variable : InjectionCandidate → InjectionCandidate → Bool
before_variable a b =
    ltb a.priority b.priority
    || nat_beq a.priority b.priority
      && (ltb (rank_score b) (rank_score a)
          || nat_beq (rank_score a) (rank_score b) && text_before a.key b.key)

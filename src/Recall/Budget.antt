-- ===== src/Recall/Budget.antt =====
-- packages/pcltm/context_budget.py: the report on the tokens of a context window. A ratio is a
-- natural, and the share of a bucket is exact: `floor(context_window * value / total)`, which floats
-- may round. A value that is None is the empty text.
pub mod Shares
use soul_llink.Base.{
  ℕ, zero, suc, ◌+◌, ◌-◌, ◌*◌, ◌/◌, max, ◌≡◌, Bool, true, false, not, ◌&&◌, Option, none, some,
  List, [], ◌∷◌, ◌++◌, map, if◌then◌else◌, ltb, arith, Eq, eq_by, nat_eq, ◌==◌, length, is_empty,
  contains, filter_by, sum_by, Result, ok, raise, value_error, key_error, require, ◌>>=◌, ◌>>◌,
}
use soul_llink.Base.Text.{Text, text_eq}
use soul_llink.Recall.Object.{MemoryObject}
use soul_llink.Recall.Selection.{SelectionDecision}

pub data ContextBudgetBucket : Type 0 where
  active_frame pinned_memory selected_memory transcript : ContextBudgetBucket
  tool_evidence reference reserve : ContextBudgetBucket

abbrev bucket_index : ContextBudgetBucket → ℕ
bucket_index active_frame = 0
bucket_index pinned_memory = 1
bucket_index selected_memory = 2
bucket_index transcript = 3
bucket_index tool_evidence = 4
bucket_index reference = 5
bucket_index reserve = 6

pub bucket_index-injective : (a b : ContextBudgetBucket) → bucket_index a ≡ bucket_index b → a ≡ b
bucket_index-injective a b h = ground arith

instance abbrev pub bucket_eq : Eq ContextBudgetBucket
bucket_eq = eq_by bucket_index bucket_index-injective

abbrev pub is_reserve : ContextBudgetBucket → Bool
is_reserve reserve = true
is_reserve _ = false

-- the members of ContextBudgetBucket that are not the reserve, in their order
abbrev pub spent_buckets : List ContextBudgetBucket
spent_buckets =
    active_frame ∷ pinned_memory ∷ selected_memory ∷ transcript ∷ tool_evidence ∷ reference ∷ []

abbrev pub all_buckets : List ContextBudgetBucket
all_buckets = spent_buckets ++ reserve ∷ []

pub record ContextBudgetLine : Type 0 where
  pub bucket : ContextBudgetBucket
  pub token_count : ℕ
  pub token_limit : ℕ
  pub truncated : Bool

-- `ContextBudgetLine.remaining`
unfoldable pub remaining : ContextBudgetLine → ℕ
remaining line = line.token_limit - line.token_count

pub record ContextBudgetReport : Type 0 where
  pub context_window : ℕ
  pub lines : List ContextBudgetLine
  pub estimated_total_tokens : ℕ
  pub over_budget_tokens : ℕ

-- `ContextBudgetReport.within_budget`
unfoldable pub within_budget : ContextBudgetReport → Bool
within_budget r = r.over_budget_tokens == 0

-- the loop of `ContextBudgetReport.line_for`
unfoldable pub find_line : ContextBudgetBucket → List ContextBudgetLine → Result ContextBudgetLine
find_line bucket [] = raise key_error
find_line bucket (line ∷ lines) =
    let rest = find_line bucket lines in if line.bucket == bucket then ok line else rest

unfoldable pub line_for : ContextBudgetReport → ContextBudgetBucket → Result ContextBudgetLine
line_for r bucket = find_line bucket r.lines

abbrev pub Ratios : Type 0
Ratios = List (ContextBudgetBucket × ℕ)

-- `DEFAULT_BUDGET_RATIOS`, in hundredths
abbrev pub default_budget_ratios : Ratios
default_budget_ratios =
    (active_frame, 18)
    ∷ (pinned_memory, 10)
    ∷ (selected_memory, 18)
    ∷ (transcript, 36)
    ∷ (tool_evidence, 8)
    ∷ (reference, 4)
    ∷ (reserve, 6)
    ∷ []

-- `ratios.get(bucket, 0.0)`
unfoldable pub get_ratio : Ratios → ContextBudgetBucket → ℕ
get_ratio [] bucket = 0
get_ratio ((b, value) ∷ ratios) bucket =
    let rest = get_ratio ratios bucket in if b == bucket then value else rest

-- `ratios or DEFAULT_BUDGET_RATIOS`
abbrev pub ratios_or : Option Ratios → Ratios
ratios_or none = default_budget_ratios
ratios_or (some []) = default_budget_ratios
ratios_or (some (r ∷ ratios)) = r ∷ ratios

-- the sum in `_normalize_ratios`
unfoldable pub total_ratio : Ratios → ℕ
total_ratio ratios = sum_by (get_ratio ratios) all_buckets

-- `floor(context_window * ratio)` with a normalized ratio
unfoldable pub share : ℕ → Ratios → ContextBudgetBucket → ℕ
share window ratios bucket = window * get_ratio ratios bucket / total_ratio ratios

-- `_bucket_limit`
unfoldable pub bucket_limit : ℕ → Ratios → ContextBudgetBucket → ℕ
bucket_limit window ratios bucket =
    if is_reserve bucket
    then window - sum_by (share window ratios) spent_buckets
    else share window ratios bucket

-- `_bucket_truncated`
unfoldable pub bucket_truncated : ContextBudgetBucket → ℕ → ℕ → Bool
bucket_truncated bucket count limit = not (is_reserve bucket) && ltb limit count

unfoldable pub estimate_tokens : Text → ℕ
estimate_tokens text = if is_empty text then 0 else max 1 ((length text + 3) / 4)

pub record Message : Type 0 where
  pub role : Text
  pub content : Text
  pub tool_call_id : Text

-- `_message_tokens`
unfoldable pub message_tokens : Message → ℕ
unfolding estimate_tokens
message_tokens m =
    estimate_tokens m.role + estimate_tokens m.content + estimate_tokens m.tool_call_id

-- the set of the keys that are selected
unfoldable pub selected_keys : List SelectionDecision → List Text
selected_keys [] = []
selected_keys (d ∷ decisions) =
    let rest = selected_keys decisions in
    if d.selected && not (contains rest d.canonical_key) then d.canonical_key ∷ rest else rest

-- `memory_by_key[key]`, where the last object of a key counts
unfoldable pub memory_by_key : List MemoryObject → Text → Option MemoryObject
memory_by_key [] key = none
memory_by_key (m ∷ memories) key = elim (memory_by_key memories key) [
  | none ↦ (if m.canonical_key == key then some m else none)
  | some later ↦ some later
]

abbrev pub memory_tokens : Option MemoryObject → ℕ
memory_tokens none = 0
memory_tokens (some m) = estimate_tokens m.content

pub record WindowContents : Type 0 where
  pub frame : Text
  pub pinned_memories : List MemoryObject
  pub selection_decisions : List SelectionDecision
  pub memory_objects : List MemoryObject
  pub transcript_messages : List Message
  pub tool_messages : List Message
  pub reference_items : List Text

-- `counts`, without the reserve
unfoldable pub count_tokens : WindowContents → ContextBudgetBucket → ℕ
count_tokens c active_frame = estimate_tokens c.frame
count_tokens c pinned_memory = sum_by (λ m. estimate_tokens m.content) c.pinned_memories
count_tokens c selected_memory =
    sum_by (λ key. memory_tokens (memory_by_key c.memory_objects key))
      (selected_keys c.selection_decisions)
count_tokens c transcript = sum_by message_tokens c.transcript_messages
count_tokens c tool_evidence = sum_by message_tokens c.tool_messages
count_tokens c reference = sum_by estimate_tokens c.reference_items
count_tokens c reserve = 0

-- `counts`, with the reserve
unfoldable pub bucket_count : ℕ → WindowContents → ContextBudgetBucket → ℕ
bucket_count window c bucket =
    if is_reserve bucket
    then window - sum_by (count_tokens c) spent_buckets
    else count_tokens c bucket

unfoldable pub budget_line : ℕ → WindowContents → Ratios → ContextBudgetBucket → ContextBudgetLine
budget_line window c ratios bucket =
    let count = bucket_count window c bucket in
    let limit = bucket_limit window ratios bucket in
    record {
      bucket = bucket;
      token_count = count;
      token_limit = limit;
      truncated = bucket_truncated bucket count limit;
    }

-- `sum(line.token_count for line in lines if line.bucket is not RESERVE)`
unfoldable pub total_tokens : List ContextBudgetLine → ℕ
total_tokens lines =
    sum_by (λ line. line.token_count) (filter_by (λ line. not (is_reserve line.bucket)) lines)

unfoldable pub estimate_context_budget :
    ℕ → WindowContents → Option Ratios → Result ContextBudgetReport
estimate_context_budget window c ratios = do
  require (ltb 0 window) (value_error "context_window must be positive")
  require (ltb 0 (total_ratio (ratios_or ratios)))
      (value_error "at least one budget ratio must be positive")
  let lines = map (budget_line window c (ratios_or ratios)) all_buckets
  ok (record {
    context_window = window;
    lines = lines;
    estimated_total_tokens = total_tokens lines;
    over_budget_tokens = total_tokens lines - window;
  })

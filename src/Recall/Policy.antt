-- ===== src/Recall/Policy.antt =====
-- packages/pcltm/retrieval_policy.py: what full-text retrieval may return in a mode. Modes and
-- categories are texts; `str.lower` is a parameter, and so is the search of the store, a function
-- of the token, the limit and the flag for sensitive rows that fixes the scope.
pub mod Safe
use soul_llink.Base.{
  ℕ, zero, suc, Bool, true, false, not, ◌&&◌, ◌||◌, Option, none, some, List, [], ◌∷◌, ◌++◌, map,
  String, if◌then◌else◌, ◌==◌, string_eq, nat_eq, is_empty, contains, filter_by, take,
}

abbrev pub state_modes : List String
state_modes =
    "work" ∷ "system_maintenance" ∷ "daily" ∷ "intimacy" ∷ "conflict" ∷ "repair" ∷ "sex_candidate"
    ∷ "sex" ∷ []

abbrev pub relationship_modes : List String
relationship_modes = "daily" ∷ "intimacy" ∷ "conflict" ∷ "repair" ∷ "sex_candidate" ∷ "sex" ∷ []

abbrev pub work_modes : List String
work_modes = "work" ∷ "system_maintenance" ∷ []

pub record RetrievalPolicyDecision : Type 0 where
  pub mode : String
  pub allowed_modes : List String
  pub denied_modes : List String
  pub allow_private : Bool
  pub allow_restricted : Bool
  pub allow_secret : Bool
  pub limit : ℕ

-- `RetrievalPolicyDecision(...)` with the defaults of the other fields
abbrev pub deciding : String → List String → List String → Bool → RetrievalPolicyDecision
deciding mode allowed denied private = record {
  mode = mode;
  allowed_modes = allowed;
  denied_modes = denied;
  allow_private = private;
  allow_restricted = false;
  allow_secret = false;
  limit = 20;
}

-- `text or default`
abbrev pub text_or : String → String → String
text_or text default = if text == "" then default else text

-- the modes for which the relationship decision is made
abbrev pub other_relationship_modes : List String
other_relationship_modes = "daily" ∷ "conflict" ∷ "repair" ∷ "sex_candidate" ∷ "sex" ∷ []

-- `RetrievalPolicy.decision_for`, of the mode in lower case
unfoldable pub decide_for : String → RetrievalPolicyDecision
decide_for mode =
    if mode == "system_maintenance"
    then deciding mode ("system_maintenance" ∷ "work" ∷ []) relationship_modes false
    else if mode == "work"
    then deciding mode ("work" ∷ "system_maintenance" ∷ []) relationship_modes false
    else if mode == "intimacy"
    then deciding mode relationship_modes (work_modes ++ "cron" ∷ []) true
    else if contains other_relationship_modes mode
    then deciding mode relationship_modes (work_modes ++ "cron" ∷ []) true
    else if mode == "cron"
    then deciding "no_memory" [] state_modes false
    else deciding "unknown" ("unknown" ∷ "work" ∷ "system_maintenance" ∷ [])
        (relationship_modes ++ "no_memory" ∷ []) false

pub record EventRow : Type 0 where
  pub event_id : ℕ
  pub subcategory : Option String
  pub category : Option String
  pub sensitivity : Option String

-- `row.get(key) or default`
abbrev pub get_or_text : Option String → String → String
get_or_text none default = default
get_or_text (some text) default = text_or text default

-- the part of `RetrievalPolicy._row_mode` behind the state modes
unfoldable pub legacy_mode : String → String → String
legacy_mode subcategory category =
    if contains ("tool.output" ∷ "task.assistant_response" ∷ "task.a_share" ∷ []) subcategory
    then "work"
    else if contains ("memory.system_convention" ∷ "memory.project_path" ∷ []) subcategory
    then "work"
    else if contains ("memory.runtime_boundary" ∷ "memory.secret_boundary" ∷ []) subcategory
    then "system_maintenance"
    else if contains ("user.relationship" ∷ "user.preference" ∷ []) subcategory
    then "daily"
    else if contains ("task.cron" ∷ "noise.cron" ∷ []) subcategory
    then "no_memory"
    else if contains ("tool" ∷ "task" ∷ "memory" ∷ []) category
    then "work"
    else if category == "user"
    then "daily"
    else if category == "noise"
    then "no_memory"
    else "unknown"

unfoldable pub mode_of_categories : String → String → String
mode_of_categories subcategory category =
    if subcategory == "no_memory" || category == "no_memory"
    then "no_memory"
    else if contains state_modes subcategory
    then subcategory
    else if contains state_modes category
    then category
    else legacy_mode subcategory category

-- `limit or decision.limit`, on limits from 0 on: with a negative one the slice `rows[:limit]` drops
-- rows from the end
abbrev pub limit_or : Option ℕ → ℕ → ℕ
limit_or none default = default
limit_or (some zero) default = default
limit_or (some (suc n)) default = suc n

-- the loop over the rows of a token, with the ids that are seen and the rows so far
unfoldable pub add_rows : List EventRow → List EventRow → List EventRow
add_rows rows [] = rows
add_rows rows (row ∷ found) =
    add_rows
      (if contains (map (λ (r : EventRow). r.event_id) rows) row.event_id
        then rows
        else rows ++ row ∷ [])
      found

module _ (lower : String → String) where
  -- `RetrievalPolicy.decision_for`
  unfoldable pub decision_for : String → RetrievalPolicyDecision
  decision_for mode = decide_for (lower (text_or mode "unknown"))

  -- `RetrievalPolicy._row_mode`
  unfoldable pub row_mode : EventRow → String
  row_mode row =
      mode_of_categories (lower (get_or_text row.subcategory "unknown"))
        (lower (get_or_text row.category "unknown"))

  -- `RetrievalPolicy._allowed`
  unfoldable pub allowed : EventRow → RetrievalPolicyDecision → Bool
  allowed row d =
      let mode = row_mode row in
      let sensitivity = get_or_text row.sensitivity "normal" in
      if contains d.denied_modes mode
      then false
      else if mode == "no_memory"
      then false
      else if sensitivity == "private" && not d.allow_private
      then false
      else if sensitivity == "restricted" && not d.allow_restricted
      then false
      else if sensitivity == "secret" && not d.allow_secret
      then false
      else contains d.allowed_modes mode

  module _ (search_events : String → ℕ → Bool → List EventRow) where
    -- the loop over the tokens
    unfoldable pub search_tokens : ℕ → Bool → List EventRow → List String → List EventRow
    search_tokens limit sensitive rows [] = rows
    search_tokens limit sensitive rows (token ∷ tokens) =
        search_tokens limit sensitive (add_rows rows (search_events token limit sensitive)) tokens

    -- `RetrievalPolicy.retrieve`; the tokens are the query, its words and its characters
    unfoldable pub retrieve : String → String → List String → Bool → Option ℕ → List EventRow
    retrieve mode query tokens include_sensitive limit =
        let d = decision_for mode in
        let most = limit_or limit d.limit in
        let sensitive =
          include_sensitive && (d.allow_private || d.allow_restricted || d.allow_secret) in
        let rows = search_events query most sensitive in
        let found = if is_empty rows then search_tokens most sensitive [] tokens else rows in
        take most (filter_by (λ row. allowed row d) found)

-- ===== src/Semantic/Store.antt =====
-- packages/pcltm/memory/semantic_store.py: the table of facts, in the order of its row ids. A row
-- is given as the fact that `_from_row` reads from it. `later` stands for the order of the texts of
-- two dates, and `is_like` for the LIKE of SQLite with the text in lower case between two `%`.
pub mod Lookup
use soul_llink.Base.{
  take, ℕ, zero, suc, Bool, true, false, not, ◌&&◌, ◌||◌, List, [], ◌∷◌, ◌++◌, String, Option, none,
  some, ◌==◌, string_eq, ltb, nat_eq, if◌then◌else◌, filter_by, find_by, is_empty, Result, ok,
  raise, key_error, length,
}
use soul_llink.Base.Sorting.{sorted}
use soul_llink.Semantic.Fact.{TemporalFact, is_active, with_supersession}

abbrev pub SemanticStore : Type 0
SemanticStore = List TemporalFact

-- `add`, an INSERT OR REPLACE
unfoldable pub add : TemporalFact → SemanticStore → SemanticStore
add fact s = filter_by (λ f. not (f.memory_id == fact.memory_id)) s ++ fact ∷ []

unfoldable pub get : String → SemanticStore → Option TemporalFact
get memory_id s = find_by (λ f. f.memory_id == memory_id) s

unfoldable pub update : TemporalFact → SemanticStore → Result SemanticStore
unfolding get add
update fact s = elim (get fact.memory_id s) [ none ↦ raise key_error | some _ ↦ ok (add fact s) ]

-- `delete`, with whether a row was there
unfoldable pub delete : String → SemanticStore → Bool × SemanticStore
delete memory_id s = (
  ltb 0 (length (filter_by (λ f. f.memory_id == memory_id) s)),
  filter_by (λ f. not (f.memory_id == memory_id)) s,
)

-- the arguments of `search`
pub record SearchQuery : Type 0 where
  pub subject : Option String
  pub predicate : Option String
  pub object_contains : Option String
  pub namespace : Option String
  pub active_only : Bool
  pub conflict_group : Option String
  pub limit : ℕ

-- a clause that is there only with its argument
abbrev pub fits : Option String → (String → Bool) → Bool
fits none test = true
fits (some value) test = test value

abbrev pub in_group : Option String → String → Bool
in_group none group = false
in_group (some own) group = own == group

module _ (later : ℕ → ℕ → Bool) (is_like : String → String → Bool) where
  -- the clauses on the texts
  unfoldable pub matches_texts : SearchQuery → TemporalFact → Bool
  matches_texts q f =
      fits q.subject (λ subject. f.subject == subject)
      && fits q.predicate (λ predicate. f.predicate == predicate)
      && fits q.object_contains (λ text. is_like f.object text)
      && fits q.namespace (λ namespace. f.namespace == namespace)
      && fits q.conflict_group (λ group. in_group f.conflict_group group)

  -- the WHERE clause
  unfoldable pub matches : SearchQuery → TemporalFact → Bool
  unfolding matches_texts
  matches q f = matches_texts q f && (if q.active_only then is_active f else true)

  -- `ORDER BY confidence DESC, valid_from DESC`
  abbrev pub ranks_before : TemporalFact → TemporalFact → Bool
  ranks_before a b =
      ltb b.confidence a.confidence
      || a.confidence == b.confidence && later a.valid_from b.valid_from

  unfoldable pub search : SearchQuery → SemanticStore → List TemporalFact
  unfolding matches sorted
  search q s = take q.limit (sorted ranks_before (filter_by (matches q) s))

  unfoldable pub list_conflicts : String → SemanticStore → List TemporalFact
  unfolding search
  list_conflicts conflict_group = search (record {
    subject = none;
    predicate = none;
    object_contains = none;
    namespace = none;
    active_only = false;
    conflict_group = some conflict_group;
    limit = 200;
  })

abbrev pub cons_ok : TemporalFact → Result (List TemporalFact) → Result (List TemporalFact)
cons_ok f (ok fs) = ok (f ∷ fs)
cons_ok f (raise e) = raise e

-- `mark_superseded`; an exception leaves the rows that were updated before it
unfoldable pub mark_superseded :
    List String → String → ℕ → SemanticStore → Result (List TemporalFact) × SemanticStore
unfolding get update with_supersession
mark_superseded [] superseded_by valid_until s = (ok [], s)
mark_superseded (memory_id ∷ ids) superseded_by valid_until s = elim (get memory_id s) [
  | none ↦ mark_superseded ids superseded_by valid_until s
  | some current ↦ elim (with_supersession (some superseded_by) (some valid_until) none current) [
    | raise e ↦ (raise e, s)
    | ok changed ↦ elim (update changed s) [
      | raise e ↦ (raise e, s)
      | ok updated ↦
          let rest = mark_superseded ids superseded_by valid_until updated in
          (cons_ok changed rest.0, rest.1)
    ]
  ]
]

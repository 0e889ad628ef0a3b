-- ===== src/Semantic/Resolver.antt =====
-- packages/pcltm/memory/conflict_resolver.py: how a new fact meets the active facts of its group.
-- The scores are ten-thousandths.
pub mod History
pub mod Closing
use soul_llink.Base.{
  ℕ, ◌+◌, ◌*◌, Bool, true, false, not, ◌&&◌, List, [], ◌∷◌, String, Option, none, some, ◌==◌,
  string_eq, leb, if◌then◌else◌, filter_by, is_empty, map, Result, ok, raise,
}
use soul_llink.Semantic.Fact.{TemporalFact, is_blank, with_supersession}
use soul_llink.Semantic.Store.{SemanticStore, SearchQuery, add, search, mark_superseded}

-- `_STABILITY_RANK`; the constructor of a fact refuses any other text
abbrev pub stability_rank : String → ℕ
stability_rank text =
    if text == "medium"
    then 1
    else if text == "high"
    then 2
    else if text == "verified"
    then 3
    else 0

pub record ConflictResolution : Type 0 where
  pub fact : TemporalFact
  pub superseded : List String
  pub reason : String
  pub conflict_group : Option String

abbrev pub score : TemporalFact → ℕ
score f = f.confidence + stability_rank f.stability * 1500

-- `_can_supersede`
unfoldable pub can_supersede : TemporalFact → TemporalFact → Bool
can_supersede candidate old =
    (not (is_empty candidate.source_refs) && not (is_blank candidate.write_reason))
    && leb old.valid_from candidate.valid_from
    && leb (score old) (score candidate)

-- the query of `_active_conflicts`; an empty group is none
abbrev pub group_query : String → SearchQuery
group_query group = record {
  subject = none;
  predicate = none;
  object_contains = none;
  namespace = none;
  active_only = true;
  conflict_group = some group;
  limit = 200;
}

abbrev pub key_query : TemporalFact → SearchQuery
key_query candidate = record {
  subject = some candidate.subject;
  predicate = some candidate.predicate;
  object_contains = none;
  namespace = some candidate.namespace;
  active_only = true;
  conflict_group = none;
  limit = 200;
}

abbrev pub conflict_query : Option String → TemporalFact → SearchQuery
conflict_query none candidate = key_query candidate
conflict_query (some group) candidate =
    if group == "" then key_query candidate else group_query group

-- the candidate with the facts that it supersedes, if there are any
unfoldable pub revise : List String → TemporalFact → Result TemporalFact
unfolding with_supersession
revise [] candidate = ok candidate
revise (id ∷ ids) candidate = with_supersession none none (some (id ∷ ids)) candidate

abbrev pub map_ok : {A B : Type 0} → B → Result A → Result B
map_ok b (ok _) = ok b
map_ok b (raise e) = raise e

module _ (later : ℕ → ℕ → Bool) (is_like : String → String → Bool) where
  -- `_active_conflicts`
  unfoldable pub active_conflicts : TemporalFact → SemanticStore → List TemporalFact
  unfolding search
  active_conflicts candidate s =
      filter_by (λ f. not (f.memory_id == candidate.memory_id))
        (search later is_like (conflict_query candidate.conflict_group candidate) s)

  abbrev pub differing : TemporalFact → SemanticStore → List TemporalFact
  differing candidate s =
      filter_by (λ f. not (f.object == candidate.object)) (active_conflicts candidate s)

  abbrev pub same : TemporalFact → SemanticStore → List TemporalFact
  same candidate s = filter_by (λ f. f.object == candidate.object) (active_conflicts candidate s)

  abbrev pub to_supersede : TemporalFact → SemanticStore → List TemporalFact
  to_supersede candidate s = filter_by (can_supersede candidate) (differing candidate s)

  abbrev pub resolution : TemporalFact → List String → String → ConflictResolution
  resolution fact superseded reason = record {
    fact = fact;
    superseded = superseded;
    reason = reason;
    conflict_group = fact.conflict_group;
  }

  -- the writes behind the decision
  unfoldable pub write_resolution :
      ℕ
      → List TemporalFact
      → List String
      → TemporalFact
      → SemanticStore
      → Result ConflictResolution × SemanticStore
  unfolding mark_superseded add
  write_resolution now others [] fact s = (
    ok (
        resolution fact [] (
          if is_empty others
          then "inserted"
          else "candidate_kept_in_conflict_group_without_supersession")),
    add fact s,
  )
  write_resolution now others (id ∷ ids) fact s =
      let marked = mark_superseded (id ∷ ids) fact.memory_id now (add fact s) in
      (
        map_ok (resolution fact (id ∷ ids) "candidate_superseded_conflicting_fact") marked.0,
        marked.1,
      )

  -- the part of `resolve` behind the first return
  unfoldable pub supersede_conflicts :
      ℕ → TemporalFact → SemanticStore → Result ConflictResolution × SemanticStore
  unfolding write_resolution revise
  supersede_conflicts now candidate s =
      let superseded = map (λ f. f.memory_id) (to_supersede candidate s) in
      elim (revise superseded candidate) [
        | raise e ↦ (raise e, s)
        | ok fact ↦ write_resolution now (differing candidate s) superseded fact s
      ]

  -- `resolve`
  unfoldable pub resolve :
      ℕ → TemporalFact → SemanticStore → Result ConflictResolution × SemanticStore
  unfolding supersede_conflicts
  resolve now candidate s =
      if not (is_empty (same candidate s)) && is_empty (differing candidate s)
      then (
        ok (resolution candidate [] "same_fact_added_with_additional_provenance"),
        add candidate s,
      )
      else supersede_conflicts now candidate s

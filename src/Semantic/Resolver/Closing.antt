-- ===== src/Semantic/Resolver/Closing.antt =====
-- The whole of `resolve`: every other fact is kept, or closed for a reason.
use soul_llink.Base.{
  ℕ, ◌≡◌, refl, sym, ◌∙◌, ap, ◌⊎◌, inl, inr, Bool, false, not, ◌&&◌, List, [], ◌∷◌, String, Option,
  some, ◌==◌, ==-refl, string_eq, Bool-cases, map, Distinct, is_empty, Result, Exception, ok, raise,
}
use mathlib.Core.Path.{subst}
use soul_llink.Semantic.Fact.{TemporalFact, with_supersession}
use soul_llink.Semantic.Fact.Validity.{make_fact-IsAcceptable}
use soul_llink.Semantic.Store.{SemanticStore, add, get}
use soul_llink.Semantic.Store.Lookup.{get-add, get-add-other, IsFound}
use soul_llink.Semantic.Resolver.{
  ConflictResolution, map_ok, revise, differing, same, to_supersede, write_resolution,
  supersede_conflicts, resolve,
}
use soul_llink.Semantic.Resolver.History.{
  closed, IsKept, IsSuperseded, some_injective, mark_superseded-IsKept, Result-cases,
  to_supersede-IsSuperseded, named,
}

ok_injective : {A : Type 0} {x y : A} → ok x ≡ ok y → x ≡ y
ok_injective e = cc

map_ok-injective : {A B : Type 0} (b c : B) (r : Result A) → map_ok b r ≡ ok c → b ≡ c
map_ok-injective b c (ok a) h = ok_injective h
map_ok-injective b c (raise e) h = absurd (cc)

revise-memory_id :
    (ids : List String) (candidate fact : TemporalFact)
    → revise ids candidate ≡ ok fact
    → fact.memory_id ≡ candidate.memory_id
unfolding revise with_supersession
revise-memory_id [] candidate fact h = sym (ap {B = String} (λ f. f.memory_id) (ok_injective h))
revise-memory_id (id ∷ ids) candidate fact h = sym (
    ap {B = String} (λ f. f.memory_id)
      (make_fact-IsAcceptable (record candidate { supersedes = id ∷ ids }) fact h).1)

-- A fact stands as it was, or closed by the candidate, which then supersedes it.
unfoldable pub IsKeptOrClosed : TemporalFact → ℕ → TemporalFact → SemanticStore → Type 0
IsKeptOrClosed candidate now f s =
    (get f.memory_id s ≡ some f)
    ⊎ ((get f.memory_id s ≡ some (closed candidate.memory_id now f)) × IsSuperseded candidate f)

module _ (later : ℕ → ℕ → Bool) (is_like : String → String → Bool) where
  write_resolution-IsKept :
      (now : ℕ) (others : List TemporalFact) (ids : List String) (fact : TemporalFact)
      (s : SemanticStore) (f : TemporalFact)
      → get f.memory_id s ≡ some f
      → (fact.memory_id == f.memory_id) ≡ false
      → IsKept ids fact.memory_id now f.memory_id f
          (write_resolution later is_like now others ids fact s).1
  unfolding write_resolution IsKept
  write_resolution-IsKept now others [] fact s f h n = inl (get-add-other fact s f.memory_id n ∙ h)
  write_resolution-IsKept now others (id ∷ ids) fact s f h n =
      mark_superseded-IsKept (id ∷ ids) fact.memory_id now (add fact s) f.memory_id f
        (get-add-other fact s f.memory_id n ∙ h)

  -- What the list of superseded keys names is superseded.
  IsKept-superseded :
      (now : ℕ) (candidate : TemporalFact) (s s' : SemanticStore) (f : TemporalFact)
      → Distinct (map (λ g. g.memory_id) s)
      → get f.memory_id s ≡ some f
      → IsKept
          (map (λ g. g.memory_id) (to_supersede later is_like candidate s))
          candidate.memory_id
          now
          f.memory_id
          f
          s'
      → IsKeptOrClosed candidate now f s'
  unfolding IsKept IsKeptOrClosed IsFound
  IsKept-superseded now candidate s s' f d h (inl e) = inl e
  IsKept-superseded now candidate s s' f d h (inr (c, e)) =
      let g =
        named later is_like (λ x. IsFound s x × IsSuperseded candidate x)
          (to_supersede later is_like candidate s) f.memory_id
          (to_supersede-IsSuperseded later is_like candidate s d) c in
      let own : g.0 ≡ f =
        some_injective (sym g.1.0 ∙ ap {B = Option TemporalFact} (λ x. get x s) g.2 ∙ h) in
      inr (e, subst (IsSuperseded candidate) own g.1.1)

  supersede_conflicts-raised :
      (now : ℕ) (candidate : TemporalFact) (s : SemanticStore) (e : Exception)
      → revise (map (λ g. g.memory_id) (to_supersede later is_like candidate s)) candidate ≡ raise e
      → supersede_conflicts later is_like now candidate s ≡ (raise e, s)
  unfolding supersede_conflicts
  supersede_conflicts-raised now candidate s e q = rw (supersede_conflicts, q) refl

  supersede_conflicts-goes :
      (now : ℕ) (candidate : TemporalFact) (s : SemanticStore) (fact : TemporalFact)
      → let ids = map (λ g. g.memory_id) (to_supersede later is_like candidate s) in
        revise ids candidate ≡ ok fact
        → supersede_conflicts later is_like now candidate s
          ≡ write_resolution later is_like now (differing later is_like candidate s) ids fact s
  unfolding supersede_conflicts
  supersede_conflicts-goes now candidate s fact q = rw (supersede_conflicts, q) refl

  supersede_conflicts-kept :
      (now : ℕ) (candidate : TemporalFact) (s : SemanticStore) (f : TemporalFact)
      → Distinct (map (λ g. g.memory_id) s)
      → get f.memory_id s ≡ some f
      → (candidate.memory_id == f.memory_id) ≡ false
      → IsKeptOrClosed candidate now f (supersede_conflicts later is_like now candidate s).1
  unfolding supersede_conflicts IsKeptOrClosed
  supersede_conflicts-kept now candidate s f d h n =
      let ids = map (λ g. g.memory_id) (to_supersede later is_like candidate s) in
      elim (Result-cases (revise ids candidate)) [
        | inl (e, r) ↦ rw (supersede_conflicts, r) (inl h)
        | inr (fact, r) ↦
            let key = revise-memory_id ids candidate fact r in
            rw (supersede_conflicts, r)
              (IsKept-superseded now candidate s _ f d h (
                subst
                  (λ k.
                    IsKept ids k now f.memory_id f
                      (write_resolution later is_like now (differing later is_like candidate s) ids
                        fact s).1)
                  key
                  (write_resolution-IsKept now _ ids fact s f h
                    (ap {B = Bool} (λ k. k == f.memory_id) key ∙ n))))
      ]

  -- In a store without a key twice, whatever `resolve` answers or raises, every fact under another
  -- key than the candidate's stands as it was, or is closed at the current time with the candidate
  -- as its successor; it was active then, has another object, and the candidate outranks it.
  pub resolve-IsKeptOrClosed :
      (now : ℕ) (candidate : TemporalFact) (s : SemanticStore) (f : TemporalFact)
      → Distinct (map (λ g. g.memory_id) s)
      → get f.memory_id s ≡ some f
      → (candidate.memory_id == f.memory_id) ≡ false
      → IsKeptOrClosed candidate now f (resolve later is_like now candidate s).1
  unfolding resolve IsKeptOrClosed
  resolve-IsKeptOrClosed now candidate s f d h n =
      elim (Bool-cases (
        not (is_empty (same later is_like candidate s))
        && is_empty (differing later is_like candidate s))) [
          | inl t ↦ rw (t) (inl (get-add-other candidate s f.memory_id n ∙ h))
          | inr u ↦ rw (u) (supersede_conflicts-kept now candidate s f d h n)
        ]

  -- The candidate that is written stays as it was written: it does not supersede itself.
  IsKept-own :
      (now : ℕ) (candidate fact : TemporalFact) (s s' : SemanticStore)
      → Distinct (map (λ g. g.memory_id) s)
      → IsKept
          (map (λ g. g.memory_id) (to_supersede later is_like candidate s))
          fact.memory_id
          now
          candidate.memory_id
          fact
          s'
      → get candidate.memory_id s' ≡ some fact
  unfolding IsKept
  IsKept-own now candidate fact s s' d (inl e) = e
  IsKept-own now candidate fact s s' d (inr (c, e)) =
      let g =
        named later is_like (λ x. IsFound s x × IsSuperseded candidate x)
          (to_supersede later is_like candidate s) candidate.memory_id
          (to_supersede-IsSuperseded later is_like candidate s d) c in
      absurd (
        let own = ap {B = Bool} (λ k. k == candidate.memory_id) g.2 ∙ ==-refl candidate.memory_id in
        let no = g.1.1.other in let both = sym own ∙ no in cc)

  write_resolution-own :
      (now : ℕ) (others : List TemporalFact) (ids : List String) (fact : TemporalFact)
      (s : SemanticStore)
      → IsKept ids fact.memory_id now fact.memory_id fact
          (write_resolution later is_like now others ids fact s).1
  unfolding write_resolution IsKept
  write_resolution-own now others [] fact s = inl (get-add fact s)
  write_resolution-own now others (id ∷ ids) fact s =
      mark_superseded-IsKept (id ∷ ids) fact.memory_id now (add fact s) fact.memory_id fact
        (get-add fact s)

  -- What an answer says of its fact.
  write_resolution-fact :
      (now : ℕ) (others : List TemporalFact) (ids : List String) (fact : TemporalFact)
      (s : SemanticStore) (r : ConflictResolution)
      → (write_resolution later is_like now others ids fact s).0 ≡ ok r
      → (r.fact ≡ fact) × (r.superseded ≡ ids)
  unfolding write_resolution
  write_resolution-fact now others [] fact s r h =
      let e = sym (ok_injective h) in
      (ap {B = TemporalFact} (λ x. x.fact) e, ap {B = List String} (λ x. x.superseded) e)
  write_resolution-fact now others (id ∷ ids) fact s r h =
      let e = sym (map_ok-injective _ r _ h) in
      (ap {B = TemporalFact} (λ x. x.fact) e, ap {B = List String} (λ x. x.superseded) e)

  supersede_conflicts-stores :
      (now : ℕ) (candidate : TemporalFact) (s : SemanticStore) (r : ConflictResolution)
      → Distinct (map (λ g. g.memory_id) s)
      → (supersede_conflicts later is_like now candidate s).0 ≡ ok r
      → get candidate.memory_id (supersede_conflicts later is_like now candidate s).1 ≡ some r.fact
  supersede_conflicts-stores now candidate s r d h =
      let ids = map (λ g. g.memory_id) (to_supersede later is_like candidate s) in
      elim (Result-cases (revise ids candidate)) [
        | inl (e, q) ↦ absurd (
            let k = sym (supersede_conflicts-raised now candidate s e q) in
            let m = ap {B = Result ConflictResolution} (λ x. x.0) k ∙ h in cc)
        | inr (fact, q) ↦
            let step = supersede_conflicts-goes now candidate s fact q in
            let key = revise-memory_id ids candidate fact q in
            let stored = IsKept-own now candidate fact s _ d (
              subst
                (λ k.
                  IsKept ids fact.memory_id now k fact
                    (write_resolution later is_like now (differing later is_like candidate s) ids
                      fact s).1)
                key (write_resolution-own now (differing later is_like candidate s) ids fact s)) in
            let told =
              write_resolution-fact now (differing later is_like candidate s) ids fact s r
                (sym (ap {B = Result ConflictResolution} (λ x. x.0) step) ∙ h) in
            rw (step, told.0) stored
      ]

  -- In a store without a key twice, when `resolve` answers, the store has the fact of the answer
  -- under the candidate's key.
  pub resolve-stores :
      (now : ℕ) (candidate : TemporalFact) (s : SemanticStore) (r : ConflictResolution)
      → Distinct (map (λ g. g.memory_id) s)
      → (resolve later is_like now candidate s).0 ≡ ok r
      → get candidate.memory_id (resolve later is_like now candidate s).1 ≡ some r.fact
  unfolding resolve
  resolve-stores now candidate s r d =
      elim (Bool-cases (
        not (is_empty (same later is_like candidate s))
        && is_empty (differing later is_like candidate s))) [
          | inl t ↦ rw (t) (λ h.
              get-add candidate s
              ∙ ap {B = Option TemporalFact} (λ x. some x)
                  (ap {B = TemporalFact} (λ x. x.fact) (ok_injective h)))
          | inr u ↦ rw (u) (supersede_conflicts-stores now candidate s r d)
        ]

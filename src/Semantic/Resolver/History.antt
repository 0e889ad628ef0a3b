-- ===== src/Semantic/Resolver/History.antt =====
-- What the resolver does to the facts that are there: it keeps them or closes them, and closes only
-- what the candidate supersedes.
use soul_llink.Base.{
  ℕ, ◌≡◌, refl, sym, ◌∙◌, ap, ◌⊎◌, inl, inr, Bool, true, false, not, ◌||◌, List, [], ◌∷◌, String,
  Option, none, some, ◌==◌, ==→≡, ==-refl, string_eq, Bool-cases, Option-cases, All, All-map, arith,
  contains, map, Distinct, Result, Exception, ok, raise,
}
use soul_llink.Base.Rows.{find_by-passes}
use soul_llink.Semantic.Fact.{TemporalFact, is_active, cleaned, with_supersession}
use soul_llink.Semantic.Fact.Validity.{make_fact-IsAcceptable, cleaned_twice}
use soul_llink.Semantic.Store.{SemanticStore, add, get, update, mark_superseded}
use soul_llink.Semantic.Store.Lookup.{
  get-add, get-add-other, IsFound, search-All, matches-is_active, Distinct-IsFound, All-filtered,
}
use soul_llink.Semantic.Resolver.{can_supersede, active_conflicts, to_supersede, conflict_query}

-- The fact that closes another one: the same but for the end of its validity and its successor.
abbrev pub closed : String → ℕ → TemporalFact → TemporalFact
closed superseded_by valid_until f = record (cleaned f) {
  valid_until = some valid_until;
  superseded_by = some superseded_by;
}

with_supersession-closed :
    (by : String) (until : ℕ) (f g : TemporalFact)
    → with_supersession (some by) (some until) none f ≡ ok g
    → g ≡ closed by until f
unfolding with_supersession
with_supersession-closed by until f g h =
    sym
      (make_fact-IsAcceptable (record f { valid_until = some until; superseded_by = some by }) g
        h).1

closed_twice :
    (by : String) (until : ℕ) (f : TemporalFact)
    → closed by until (closed by until f) ≡ closed by until f
closed_twice by until f =
    ap {B = TemporalFact} (λ g. record g { valid_until = some until; superseded_by = some by })
      (cleaned_twice f)

-- What the loop does to one key: it finds the same fact, or the fact closed, if the key is in the list.
unfoldable pub IsKept : List String → String → ℕ → String → TemporalFact → SemanticStore → Type 0
IsKept ids by until id f s =
    (get id s ≡ some f) ⊎ ((contains ids id ≡ true) × (get id s ≡ some (closed by until f)))

pub Result-cases :
    {A : Type 0} (r : Result A) → ((e : Exception) × (r ≡ raise e)) ⊎ ((a : A) × (r ≡ ok a))
Result-cases (raise e) = inl (e, refl)
Result-cases (ok a) = inr (a, refl)

pub some_injective : {A : Type 0} {x y : A} → some x ≡ some y → x ≡ y
some_injective h = cc

get-memory_id :
    (id : String) (s : SemanticStore) (f : TemporalFact) → get id s ≡ some f → f.memory_id ≡ id
unfolding get
get-memory_id id s f h = ==→≡ f.memory_id id (find_by-passes (λ g. g.memory_id == id) s f h)

module _ (k : String) (ids : List String) (by : String) (until : ℕ) (s : SemanticStore) where
  mark_superseded-absent :
      get k s ≡ none → mark_superseded (k ∷ ids) by until s ≡ mark_superseded ids by until s
  unfolding mark_superseded
  mark_superseded-absent e = rw (mark_superseded, e) refl

  mark_superseded-raised :
      (c : TemporalFact) (x : Exception)
      → get k s ≡ some c
      → with_supersession (some by) (some until) none c ≡ raise x
      → mark_superseded (k ∷ ids) by until s ≡ (raise x, s)
  unfolding mark_superseded
  mark_superseded-raised c x e h = rw (mark_superseded, e, h) refl

  mark_superseded-goes :
      (c g d : TemporalFact)
      → get k s ≡ some c
      → with_supersession (some by) (some until) none c ≡ ok g
      → get g.memory_id s ≡ some d
      → (mark_superseded (k ∷ ids) by until s).1 ≡ (mark_superseded ids by until (add g s)).1
  unfolding mark_superseded update
  mark_superseded-goes c g d e h u = rw (mark_superseded, e, h, update, u) refl

IsKept-cons :
    (k : String) (ids : List String) (by : String) (until : ℕ) (id : String) (f : TemporalFact)
    (s : SemanticStore)
    → IsKept ids by until id f s
    → IsKept (k ∷ ids) by until id f s
unfolding IsKept
IsKept-cons k ids by until id f s (inl h) = inl h
IsKept-cons k ids by until id f s (inr (t, h)) = inr (or_true (id == k) (contains ids id) t, h)
  where
    or_true : (p q : Bool) → q ≡ true → (p || q) ≡ true
    or_true p q h = ground arith

-- A fact that is closed at its key stays closed.
IsKept-closed :
    (k : String) (ids : List String) (by : String) (until : ℕ) (id : String) (f : TemporalFact)
    (s : SemanticStore)
    → (id == k) ≡ true
    → IsKept ids by until id (closed by until f) s
    → IsKept (k ∷ ids) by until id f s
unfolding IsKept
IsKept-closed k ids by until id f s e (inl h) = inr (rw (e) refl, h)
IsKept-closed k ids by until id f s e (inr (t, h)) =
    inr (rw (e) refl, h ∙ ap {B = Option TemporalFact} (λ g. some g) (closed_twice by until f))

pub mark_superseded-IsKept :
    (ids : List String) (by : String) (until : ℕ) (s : SemanticStore) (id : String)
    (f : TemporalFact)
    → get id s ≡ some f
    → IsKept ids by until id f (mark_superseded ids by until s).1
unfolding mark_superseded IsKept
mark_superseded-IsKept [] by until s id f h = inl h
mark_superseded-IsKept (k ∷ ids) by until s id f h = elim (Option-cases (get k s)) [
  | inl e ↦
      rw (mark_superseded-absent k ids by until s e)
        (IsKept-cons k ids by until id f _ (mark_superseded-IsKept ids by until s id f h))
  | inr (c, e) ↦ elim (Result-cases (with_supersession (some by) (some until) none c)) [
    | inl (x, r) ↦ rw (mark_superseded-raised k ids by until s c x e r) (inl h)
    | inr (g, r) ↦
        let shape = with_supersession-closed by until c g r in
        let key : g.memory_id ≡ k =
          ap {B = String} (λ y. y.memory_id) shape ∙ get-memory_id k s c e in
        let there : get g.memory_id s ≡ some c =
          ap {B = Option TemporalFact} (λ y. get y s) key ∙ e in
        rw (mark_superseded-goes k ids by until s c g c e r there)
          (elim (Bool-cases (g.memory_id == id)) [
            | inl t ↦
                let here : id ≡ k = sym (==→≡ g.memory_id id t) ∙ key in
                let own : c ≡ f =
                  some_injective
                    (sym e ∙ ap {B = Option TemporalFact} (λ y. get y s) (sym here) ∙ h) in
                let closes : g ≡ closed by until f =
                  shape ∙ ap {B = TemporalFact} (closed by until) own in
                IsKept-closed k ids by until id f _ (ap {B = Bool} (λ y. y == k) here ∙ ==-refl k) (
                  mark_superseded-IsKept ids by until (add g s) id (closed by until f) (
                    ap {B = Option TemporalFact} (λ y. get y (add g s))
                      (sym (==→≡ g.memory_id id t))
                    ∙ get-add g s
                    ∙ ap {B = Option TemporalFact} (λ y. some y) closes))
            | inr n ↦
                IsKept-cons k ids by until id f _
                  (mark_superseded-IsKept ids by until (add g s) id f (get-add-other g s id n ∙ h))
          ])
  ]
]

-- A fact in the table that the candidate has a reason to close.
pub record IsSuperseded (candidate : TemporalFact) (f : TemporalFact) : Type 0 where
  pub other : (f.memory_id == candidate.memory_id) ≡ false
  pub active : is_active f ≡ true
  pub differs : (f.object == candidate.object) ≡ false
  pub outranked : can_supersede candidate f ≡ true

module _ (later : ℕ → ℕ → Bool) (is_like : String → String → Bool) where
  conflict_query-active_only :
      (group : Option String) (candidate : TemporalFact)
      → (conflict_query group candidate).active_only ≡ true
  conflict_query-active_only none candidate = refl
  conflict_query-active_only (some group) candidate = ground arith

  pub to_supersede-IsSuperseded :
      (candidate : TemporalFact) (s : SemanticStore)
      → Distinct (map (λ f. f.memory_id) s)
      → All (λ f. IsFound s f × IsSuperseded candidate f) (to_supersede later is_like candidate s)
  unfolding active_conflicts
  to_supersede-IsSuperseded candidate s d =
      let q = conflict_query candidate.conflict_group candidate in
      let found = search-All later is_like (IsFound s) q s (Distinct-IsFound s d) in
      let others = All-filtered (λ f. not (f.memory_id == candidate.memory_id)) _ _ found in
      let unlike = All-filtered (λ f. not (f.object == candidate.object)) _ _ others in
      let ranked = All-filtered (can_supersede candidate) _ _ unlike in
      All-map _ _
        (λ f h. (
          h.0.0.0.0,
          record {
            other = not_true (f.memory_id == candidate.memory_id) h.0.0.1;
            active =
                matches-is_active later is_like q f
                  (conflict_query-active_only candidate.conflict_group candidate) h.0.0.0.1;
            differs = not_true (f.object == candidate.object) h.0.1;
            outranked = h.1;
          },
        ))
        _ ranked
    where
      not_true : (b : Bool) → not b ≡ true → b ≡ false
      not_true b h = ground arith

  -- A key in the list of the superseded ones is the key of a fact that is superseded.
  pub named :
      (P : TemporalFact → Type 0) (fs : List TemporalFact) (id : String)
      → All P fs
      → contains (map (λ f. f.memory_id) fs) id ≡ true
      → (f : TemporalFact) × P f × (f.memory_id ≡ id)
  named P [] id h c = absurd (cc)
  named P (f ∷ fs) id h c = elim (Bool-cases (id == f.memory_id)) [
    | inl t ↦ (f, h.0, sym (==→≡ id f.memory_id t))
    | inr n ↦ named P fs id h.1 (or_second (id == f.memory_id) _ n c)
  ]
    where
      or_second : (p q : Bool) → p ≡ false → (p || q) ≡ true → q ≡ true
      or_second p q n c = ground arith

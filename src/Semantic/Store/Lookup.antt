-- ===== src/Semantic/Store/Lookup.antt =====
-- What a lookup finds after the table has changed.
use soul_llink.Base.{
  All-take, ℕ, ◌≡◌, refl, sym, ◌∙◌, ap, inl, inr, Bool, true, false, not, ◌&&◌, ◌||◌, List, [], ◌∷◌,
  ◌++◌, String, none, some, ◌==◌, ==→≡, ==-refl, string_eq, filter_by, find_by, if◌then◌else◌,
  Bool-cases, All, arith, contains, map, Distinct,
}
use soul_llink.Base.Sorting.{All-sorted}
use soul_llink.Base.Rows.{find_by-snoc, find_by-head, find_by-tail}
use soul_llink.Semantic.Fact.{TemporalFact, is_active}
use soul_llink.Semantic.Store.{
  SemanticStore, SearchQuery, add, get, matches, matches_texts, ranks_before, search,
}

find_by-filtered :
    {A : Type 0} (p : A → Bool) (xs : List A) → find_by p (filter_by (λ x. not (p x)) xs) ≡ none
find_by-filtered p [] = refl
find_by-filtered p (x ∷ xs) = elim (Bool-cases (p x)) [
  | inl t ↦ rw (t) (find_by-filtered p xs)
  | inr f ↦ rw (f, f) (find_by-filtered p xs)
]

find_by-others :
    {A : Type 0} (p q : A → Bool) (xs : List A) (a : A)
    → ((x : A) → p x ≡ true → q x ≡ true)
    → p a ≡ false
    → find_by p (filter_by q xs ++ a ∷ []) ≡ find_by p xs
find_by-others p q [] a e n = rw (n) refl
find_by-others p q (x ∷ xs) a e n = elim (Bool-cases (p x)) [
  | inl t ↦ rw (e x t, t) refl
  | inr f ↦ elim (Bool-cases (q x)) [
    | inl t ↦ rw (t, f) (find_by-others p q xs a e n)
    | inr g ↦ rw (g, f) (find_by-others p q xs a e n)
  ]
]

-- The fact that was added is found under its key.
pub get-add :
    (fact : TemporalFact) (s : SemanticStore) → get fact.memory_id (add fact s) ≡ some fact
unfolding get add
get-add fact s =
    find_by-snoc (λ f. f.memory_id == fact.memory_id) _ fact
      (find_by-filtered (λ f. f.memory_id == fact.memory_id) s) (==-refl fact.memory_id)

-- Every other key finds what it found before.
pub get-add-other :
    (fact : TemporalFact) (s : SemanticStore) (id : String)
    → (fact.memory_id == id) ≡ false
    → get id (add fact s) ≡ get id s
unfolding get add
get-add-other fact s id n =
    find_by-others _ _ s fact
      (λ f h. elim (Bool-cases (f.memory_id == fact.memory_id)) [
        | inl t ↦ absurd (
            let p : fact.memory_id ≡ id =
              sym (==→≡ f.memory_id fact.memory_id t) ∙ ==→≡ f.memory_id id h in
            let q = sym (ap {B = Bool} (λ x. fact.memory_id == x) p) ∙ ==-refl fact.memory_id in
            let r = sym q ∙ n in cc)
        | inr g ↦ rw (g) refl
      ])
      n

-- Every fact is found under its key.
unfoldable pub IsFound : SemanticStore → TemporalFact → Type 0
IsFound s f = get f.memory_id s ≡ some f

pub All-filtered :
    {A : Type 0} (p : A → Bool) (P : A → Type 0) (xs : List A)
    → All P xs
    → All (λ x. P x × (p x ≡ true)) (filter_by p xs)
All-filtered p P [] h = tt
All-filtered p P (x ∷ xs) h = elim (Bool-cases (p x)) [
  | inl t ↦ rw (t) ((h.0, t), All-filtered p P xs h.1)
  | inr f ↦ rw (f) (All-filtered p P xs h.1)
]

module _ (later : ℕ → ℕ → Bool) (is_like : String → String → Bool) where
  pub matches-is_active :
      (q : SearchQuery) (f : TemporalFact)
      → q.active_only ≡ true
      → matches later is_like q f ≡ true
      → is_active f ≡ true
  unfolding matches
  matches-is_active q f a h =
      and_last (matches_texts later is_like q f) q.active_only (is_active f) a h
    where
      and_last : (p b x : Bool) → b ≡ true → (p && (if b then x else true)) ≡ true → x ≡ true
      and_last p b x e h = ground arith

  -- What a search gives matches the query.
  pub search-All :
      (P : TemporalFact → Type 0) (q : SearchQuery) (s : SemanticStore)
      → All P s
      → All (λ f. P f × (matches later is_like q f ≡ true)) (search later is_like q s)
  unfolding search
  search-All P q s h =
      All-take _ q.limit _
        (All-sorted (ranks_before later is_like) _ _ (All-filtered (matches later is_like q) P s h))

other_keys :
    (id : String) (s : SemanticStore)
    → contains (map (λ f. f.memory_id) s) id ≡ false
    → All (λ f. (id == f.memory_id) ≡ false) s
other_keys id [] h = tt
other_keys id (f ∷ s) h =
    let r = or_false (id == f.memory_id) (contains (map (λ x. x.memory_id) s) id) h in
    (r.0, other_keys id s r.1)
  where
    or_false : (p q : Bool) → (p || q) ≡ false → (p ≡ false) × (q ≡ false)
    or_false p q h = ground arith

All-both :
    {A : Type 0} (P Q R : A → Type 0)
    → ((a : A) → P a → Q a → R a)
    → (xs : List A) → All P xs
    → All Q xs
    → All R xs
All-both P Q R g [] h k = tt
All-both P Q R g (x ∷ xs) h k = (g x h.0 k.0, All-both P Q R g xs h.1 k.1)

-- In a table where no key stands twice, every fact is found under its key.
pub Distinct-IsFound : (s : SemanticStore) → Distinct (map (λ f. f.memory_id) s) → All (IsFound s) s
unfolding IsFound get
Distinct-IsFound [] d = tt
Distinct-IsFound (f ∷ s) d = (
  find_by-head (λ x. x.memory_id == f.memory_id) f s (==-refl f.memory_id),
  All-both (λ g. (f.memory_id == g.memory_id) ≡ false) (IsFound s) (IsFound (f ∷ s))
      (λ g n h. find_by-tail (λ x. x.memory_id == g.memory_id) f s n ∙ h) s
      (other_keys f.memory_id s d.0) (Distinct-IsFound s d.1),
)

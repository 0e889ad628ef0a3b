-- ===== src/Session/Chain/Settled.antt =====
-- The indexes of the chain of packages/pcltm/session/session_summary_chain.py: what is settled is
-- not listed as unresolved.
use soul_llink.Base.{
  ℕ, ◌≡◌, refl, sym, ap, ◌∙◌, inl, inr, Bool, true, false, not, ◌&&◌, List, [], ◌∷◌, arith,
  is_empty, if◌then◌else◌, All, All-append, All-drop, All-filter_by, if-keeps, contains, ◌==◌,
  Bool-cases,
}
use soul_llink.Base.Text.{Text, text_eq}
use soul_llink.Session.Turn.{clean_text}
use soul_llink.Session.Turn.Cleaning.{clean_text_again}
use soul_llink.Session.SegmentRecord.{SessionSegment, clean_all}
use soul_llink.Session.Summary.{non_empty, append_unique, without_item}
use soul_llink.Session.Chain.{
  Indexes, complete_item, revoke_item, pause_item, is_settled, open_item, decide_item, commit_item,
  each_item, index_segment, index_segments,
}

-- A text that cleaning leaves alone.
abbrev pub IsClean : Text → Type 0
IsClean t = clean_text 220 t ≡ t

pub clean_all-IsClean : (xs : List Text) → All IsClean (clean_all xs)
unfolding clean_all
clean_all-IsClean [] = tt
clean_all-IsClean (x ∷ xs) = elim (Bool-cases (is_empty (clean_text 240 x))) [
  | inl e ↦ rw e (clean_all-IsClean xs)
  | inr e ↦ rw e ((clean_text_again 220 220 x (omega arith) (omega arith)).1, clean_all-IsClean xs)
]

-- The lists that a segment of the constructor brings are clean.
pub record IsCleanSegment (s : SessionSegment) : Type 0 where
  pub clean_completed : All IsClean s.completed_items
  pub clean_revoked : All IsClean s.revoked_items
  pub clean_paused : All IsClean s.paused_items
  pub clean_unresolved : All IsClean s.unresolved_items

-- No unresolved item is settled, and all of them are clean.
pub record IsSettledIndex (i : Indexes) : Type 0 where
  pub apart : All (λ x. is_settled i x ≡ false) i.unresolved
  pub clean :
      All IsClean i.unresolved
      × All IsClean i.completed
      × All IsClean i.paused
      × All IsClean i.revoked

pub not_contains :
    (xs : List Text) (x : Text) → All (λ y. (x == y) ≡ false) xs → contains xs x ≡ false
not_contains [] x h = refl
not_contains (y ∷ ys) x h = rw h.0 (not_contains ys x h.1)

pub differs : (xs : List Text) (x : Text) → contains xs x ≡ false → All (λ y. (x == y) ≡ false) xs
differs [] x h = tt
differs (y ∷ ys) x h = (ground arith, differs ys x (ground arith))

-- A clean item is the only one that `_append_unique` may add.
All-append_unique :
    (P : Text → Type 0) (n : ℕ) (xs : List Text) (item : Text)
    → IsClean item
    → All P xs
    → P item
    → All P (append_unique n xs item)
unfolding append_unique
All-append_unique P n xs item c h p = rw c (
    All-drop P _ _ (
      if-keeps (All P) (not (is_empty item) && not (contains (non_empty xs) item)) _ _
        (All-append P (non_empty xs) (item ∷ []) (All-filter_by P _ xs h) (p, tt))
        (All-filter_by P _ xs h)))

contains-append_unique :
    (n : ℕ) (xs : List Text) (item x : Text)
    → IsClean item
    → contains xs x ≡ false
    → (x == item) ≡ false
    → contains (append_unique n xs item) x ≡ false
contains-append_unique n xs item x c h d =
    not_contains _ x (All-append_unique (λ y. (x == y) ≡ false) n xs item c (differs xs x h) d)

-- Settling an item takes it off the unresolved ones.
apart-without :
    (i i' : Indexes) (item : Text)
    → ((x : Text) → is_settled i x ≡ false → (x == item) ≡ false → is_settled i' x ≡ false)
    → (xs : List Text) → All (λ x. is_settled i x ≡ false) xs
    → All (λ x. is_settled i' x ≡ false) (without_item item xs)
apart-without i i' item f [] h = tt
apart-without i i' item f (x ∷ xs) h = elim (Bool-cases (x == item)) [
  | inl e ↦ rw e (apart-without i i' item f xs h.1)
  | inr e ↦ rw e (f x h.0 e, apart-without i i' item f xs h.1)
]

complete_item-IsSettledIndex :
    (i : Indexes) (item : Text)
    → IsClean item
    → IsSettledIndex i
    → IsSettledIndex (complete_item i item)
unfolding complete_item
complete_item-IsSettledIndex i item c s = record {
  apart =
      apart-without i (complete_item i item) item
        (λ x h d. ground (arith, contains-append_unique 8 i.completed item x c)) i.unresolved
        s.apart;
  clean = (
    All-filter_by IsClean _ i.unresolved s.clean.0,
    All-append_unique IsClean 8 i.completed item c s.clean.1 c,
    s.clean.2,
    s.clean.3,
  );
}

revoke_item-IsSettledIndex :
    (i : Indexes) (item : Text)
    → IsClean item
    → IsSettledIndex i
    → IsSettledIndex (revoke_item i item)
unfolding revoke_item
revoke_item-IsSettledIndex i item c s = record {
  apart =
      apart-without i (revoke_item i item) item
        (λ x h d. ground (arith, contains-append_unique 8 i.revoked item x c)) i.unresolved s.apart;
  clean = (
    All-filter_by IsClean _ i.unresolved s.clean.0,
    s.clean.1,
    s.clean.2,
    All-append_unique IsClean 8 i.revoked item c s.clean.3 c,
  );
}

pause_item-IsSettledIndex :
    (i : Indexes) (item : Text)
    → IsClean item
    → IsSettledIndex i
    → IsSettledIndex (pause_item i item)
unfolding pause_item
pause_item-IsSettledIndex i item c s = record {
  apart =
      apart-without i (pause_item i item) item
        (λ x h d. ground (arith, contains-append_unique 8 i.paused item x c)) i.unresolved s.apart;
  clean = (
    All-filter_by IsClean _ i.unresolved s.clean.0,
    s.clean.1,
    All-append_unique IsClean 8 i.paused item c s.clean.2 c,
    s.clean.3,
  );
}

open_item-IsSettledIndex :
    (i : Indexes) (item : Text)
    → IsClean item
    → IsSettledIndex i
    → IsSettledIndex (open_item i item)
unfolding open_item
open_item-IsSettledIndex i item c s = elim (Bool-cases (is_settled i item)) [
  | inl e ↦ rw e s
  | inr e ↦ rw e (record {
    apart = All-append_unique (λ x. is_settled i x ≡ false) 8 i.unresolved item c s.apart e;
    clean = (
      All-append_unique IsClean 8 i.unresolved item c s.clean.0 c,
      s.clean.1,
      s.clean.2,
      s.clean.3,
    );
  })
]

each_item-keeps :
    (P : Indexes → Type 0) (Q : Text → Type 0) (step : Indexes → Text → Indexes)
    → ((i : Indexes) (item : Text) → Q item → P i → P (step i item))
    → (i : Indexes) (items : List Text) → All Q items
    → P i
    → P (each_item step i items)
unfolding each_item
each_item-keeps P Q step f i [] q p = p
each_item-keeps P Q step f i (item ∷ items) q p =
    each_item-keeps P Q step f (step i item) items q.1 (f i item q.0 p)

decide_item-IsSettledIndex :
    (i : Indexes) (item : Text) → Unit {0} → IsSettledIndex i → IsSettledIndex (decide_item i item)
unfolding decide_item
decide_item-IsSettledIndex i item c s = record { apart = s.apart; clean = s.clean }

commit_item-IsSettledIndex :
    (i : Indexes) (item : Text) → Unit {0} → IsSettledIndex i → IsSettledIndex (commit_item i item)
unfolding commit_item
commit_item-IsSettledIndex i item c s = record { apart = s.apart; clean = s.clean }

All-true : (xs : List Text) → All (λ x. Unit {0}) xs
All-true [] = tt
All-true (x ∷ xs) = (tt, All-true xs)

index_segment-IsSettledIndex :
    (i : Indexes) (s : SessionSegment)
    → IsCleanSegment s
    → IsSettledIndex i
    → IsSettledIndex (index_segment i s)
unfolding index_segment
index_segment-IsSettledIndex i s c p =
    each_item-keeps IsSettledIndex (λ x. Unit {0}) commit_item commit_item-IsSettledIndex _
      s.commitments (All-true _)
      (each_item-keeps IsSettledIndex (λ x. Unit {0}) decide_item decide_item-IsSettledIndex _
        s.decisions (All-true _)
        (each_item-keeps IsSettledIndex IsClean open_item open_item-IsSettledIndex _ _
          c.clean_unresolved
          (each_item-keeps IsSettledIndex IsClean pause_item pause_item-IsSettledIndex _ _
            c.clean_paused
            (each_item-keeps IsSettledIndex IsClean revoke_item revoke_item-IsSettledIndex _ _
              c.clean_revoked
              (each_item-keeps IsSettledIndex IsClean complete_item complete_item-IsSettledIndex i _
                c.clean_completed p)))))

pub index_segments-IsSettledIndex :
    (segments : List SessionSegment) (i : Indexes)
    → All IsCleanSegment segments
    → IsSettledIndex i
    → IsSettledIndex (index_segments i segments)
unfolding index_segments
index_segments-IsSettledIndex [] i c p = p
index_segments-IsSettledIndex (s ∷ segments) i c p =
    index_segments-IsSettledIndex segments (index_segment i s) c.1
      (index_segment-IsSettledIndex i s c.0 p)

pub clean_all-clean : (xs : List Text) → All IsClean xs → clean_all xs ≡ non_empty xs
unfolding clean_all
clean_all-clean [] c = refl
clean_all-clean (x ∷ xs) c =
    let larger : clean_text 240 x ≡ x =
      ap (clean_text 240) (sym c.0)
      ∙ (clean_text_again 220 240 x (omega arith) (omega arith)).1
      ∙ c.0 in
    rw (larger, c.0, clean_all-clean xs c.1) (flip (is_empty x) x (non_empty xs))
  where
    flip :
        (b : Bool) (x : Text) (rest : List Text)
        → (if b then rest else x ∷ rest) ≡ (if not b then x ∷ rest else rest)
    flip true x rest = refl
    flip false x rest = refl

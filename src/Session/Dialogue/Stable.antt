-- ===== src/Session/Dialogue/Stable.antt =====
-- The constructor of packages/pcltm/state/active_dialogue_state.py on its own results, and the way
-- through a dictionary and back.
use soul_llink.Base.{
  ◌≤◌, ◌<◌, ◌≡◌, refl, sym, ◌∙◌, false, not, ◌&&◌, List, [], ◌∷◌, ◌++◌, arith, leb, length,
  is_empty, if◌then◌else◌, All, All-append, Distinct, Distinct-snoc, contains, contains-append,
  ==_comm, Bool-cases, length-append,
}
use soul_llink.Base.Text.{Text, codes, text_eq, strip, join_words}
use soul_llink.Session.Turn.{clean_text, words_of}
use soul_llink.Session.Turn.Cleaning.{clean_text_again}
use soul_llink.Session.Dialogue.{
  ActiveDialogueState, clean_items, clean_list, or_default, make_state, to_dict, from_dict,
}
use soul_llink.Base.{inl, inr}
use mathlib.Core.List.{append-nil, append_assoc}

abbrev IsItem : Text → Type 0
IsItem text = (is_empty text ≡ false) × (clean_text 180 text ≡ text)

-- At most four items, each cleaned and not empty, and none twice.
pub record IsCleanList (items : List Text) : Type 0 where
  pub few : length items ≤ 4
  pub cleaned : All IsItem items
  pub distinct : Distinct items

clean_text-IsItem :
    (text : Text) → is_empty (clean_text 180 text) ≡ false → IsItem (clean_text 180 text)
clean_text-IsItem text e = (e, (clean_text_again 180 180 text (omega arith) (omega arith)).1)

-- One more item, if it is new.
add_clean :
    (items : List Text) (text : Text)
    → length items < 4
    → IsCleanList items
    → IsCleanList (
        if not (is_empty (clean_text 180 text)) && not (contains items (clean_text 180 text))
        then items ++ clean_text 180 text ∷ []
        else items)
add_clean items text h c = elim (Bool-cases (is_empty (clean_text 180 text))) [
  | inl e ↦ rw e c
  | inr e ↦ elim (Bool-cases (contains items (clean_text 180 text))) [
    | inl k ↦ rw (e, k) c
    | inr n ↦
        rw (e, n)
          (record {
            few = omega (arith, h, length-append {0} items (clean_text 180 text ∷ []));
            cleaned = All-append IsItem items _ c.cleaned (clean_text-IsItem text e, tt);
            distinct = Distinct-snoc items (clean_text 180 text) c.distinct n;
          })
  ]
]

stop_at_four :
    (next rest : List Text)
    → IsCleanList next
    → (length next < 4 → IsCleanList rest)
    → IsCleanList (if leb 4 (length next) then next else rest)
stop_at_four next rest c f = elim (Bool-cases (leb 4 (length next))) [
  | inl e ↦ rw e c
  | inr e ↦ rw e (f (ground arith))
]

clean_items-IsCleanList :
    (values items : List Text)
    → length items < 4
    → IsCleanList items
    → IsCleanList (clean_items 4 180 items values)
unfolding clean_items
clean_items-IsCleanList [] items h c = c
clean_items-IsCleanList (value ∷ values) items h c =
    stop_at_four _ _ (add_clean items value h c)
      (λ le. clean_items-IsCleanList values _ le (add_clean items value h c))

pub clean_list-IsCleanList : (values : List Text) → IsCleanList (clean_list values)
unfolding clean_list
clean_list-IsCleanList values =
    clean_items-IsCleanList values [] (omega arith)
      (record { few = omega arith; cleaned = tt; distinct = tt })

-- Items that are kept are kept in order.
not_contained :
    (items : List Text) (value : Text) (values : List Text)
    → Distinct (items ++ value ∷ values)
    → contains items value ≡ false
not_contained [] value values d = refl
not_contained (item ∷ items) value values d = ground (
  arith,
  not_contained items value values d.1,
  contains-append items (value ∷ values) item,
  ==_comm value item,
)

no_more :
    (items values : List Text)
    → length (items ++ values) ≤ 4
    → 4 ≤ length items
    → items ≡ items ++ values
no_more items [] h le = sym (append-nil items)
no_more items (value ∷ values) h le =
    absurd (omega (arith, h, le, length-append {0} items (value ∷ values)))

join_kept :
    (items values rest : List Text)
    → length (items ++ values) ≤ 4
    → rest ≡ items ++ values
    → (if leb 4 (length items) then items else rest) ≡ items ++ values
join_kept items values rest h e = elim (Bool-cases (leb 4 (length items))) [
  | inl full ↦ rw full (no_more items values h (ground arith))
  | inr more ↦ rw more e
]

clean_items-clean :
    (values items : List Text)
    → Distinct (items ++ values)
    → length (items ++ values) ≤ 4
    → All IsItem values
    → clean_items 4 180 items values ≡ items ++ values
unfolding clean_items
clean_items-clean [] items d h c = sym (append-nil items)
clean_items-clean (value ∷ values) items d h c =
    rw (c.0.1, c.0.0, not_contained items value values d)
      (join_kept (items ++ value ∷ []) values (clean_items 4 180 (items ++ value ∷ []) values)
          (rw (append_assoc items (value ∷ []) values) h)
          (clean_items-clean values (items ++ value ∷ [])
            (rw (append_assoc items (value ∷ []) values) d)
            (rw (append_assoc items (value ∷ []) values) h) c.1)
        ∙ append_assoc items (value ∷ []) values)

-- Cleaning a clean list again changes nothing.
pub clean_list_again : (items : List Text) → IsCleanList items → clean_list items ≡ items
unfolding clean_list
clean_list_again items c = clean_items-clean items [] c.distinct c.few c.cleaned

clean_text-work : clean_text 40 (codes "work") ≡ codes "work"
unfolding clean_text words_of strip join_words
clean_text-work = refl

or_default_again :
    (mode : Text)
    → or_default (clean_text 40 (or_default (clean_text 40 mode) (codes "work"))) (codes "work")
      ≡ or_default (clean_text 40 mode) (codes "work")
or_default_again mode = elim (Bool-cases (is_empty (clean_text 40 mode))) [
  | inl e ↦ rw (e, clean_text-work)
  | inr e ↦ rw (e, (clean_text_again 40 40 mode (omega arith) (omega arith)).1, e)
]

again_280 : (text : Text) → clean_text 280 (clean_text 280 text) ≡ clean_text 280 text
again_280 text = (clean_text_again 280 280 text (omega arith) (omega arith)).1

list_again : (values : List Text) → clean_list (clean_list values) ≡ clean_list values
list_again values = clean_list_again (clean_list values) (clean_list-IsCleanList values)

-- The constructor changes nothing in a state that it has made.
pub make_state_again : (s : ActiveDialogueState) → make_state (make_state s) ≡ make_state s
unfolding make_state
make_state_again s = simp (again_280, list_again, or_default_again)

-- A state that the constructor has made is read back from its dictionary, and constructing it
-- again changes nothing.
pub from_dict-to_dict_state :
    (s : ActiveDialogueState)
    → (from_dict (to_dict (make_state s)) ≡ make_state s)
      × (make_state (make_state s) ≡ make_state s)
unfolding from_dict to_dict make_state
from_dict-to_dict_state s = (simp (again_280, list_again, or_default_again), make_state_again s)

-- ===== src/Session/Turn/Cleaning.antt =====
-- `_clean_text`, which several modules of packages/pcltm share: its result is one line within the
-- limit, and cleaning it again changes nothing.
use soul_llink.Base.{
  ℕ, zero, suc, ◌+◌, ◌-◌, ◌≤◌, ◌<◌, ◌≡◌, refl, ◌⊎◌, inl, inr, Bool, true, false, [], ◌∷◌, ◌++◌,
  arith, ltb, length, take, Bool-cases, length-append,
}
use soul_llink.Base.Text.{Text, strip, rstrip, join_words}
use soul_llink.Session.Turn.{words_of, clean_text}
use soul_llink.Session.Turn.Lines.{
  Words, IsLine, is_empty-Words, join_words-line, join_words-Joined, length-rstrip, rstrip-visible,
  rstrip-cons, strip-Words,
}

words_of-IsLine : (text : Text) → IsLine (words_of text)
unfolding words_of
words_of-IsLine text = join_words-Joined (strip text) [] tt

words_of-Words : (text : Text) → Words false text → words_of text ≡ text
unfolding words_of
words_of-Words text w = rw (strip-Words text w) (join_words-line text w)

words_of-line : (text : Text) → IsLine text → words_of text ≡ text
words_of-line text (inl e) = rw e (unfold words_of strip join_words in refl)
words_of-line text (inr w) = words_of-Words text w

length-take : (n : ℕ) (text : Text) → length (take n text) ≤ n
length-take zero text = omega arith
length-take (suc n) [] = omega arith
length-take (suc n) (c ∷ text) = omega (arith, length-take n text)

Words-empty : (text : Text) → (text ≡ []) ⊎ Words true text → Words true text
Words-empty text (inl e) = rw e tt
Words-empty text (inr w) = w

-- A blank that nothing visible follows is taken off.
Words-blank_cut :
    (text : Text)
    → (rstrip text ≡ []) ⊎ Words false (rstrip text)
    → (rstrip (32 ∷ text) ≡ []) ⊎ Words true (rstrip (32 ∷ text))
Words-blank_cut text (inl e) = inl (rw (rstrip-cons 32 text, e))
Words-blank_cut text (inr w) =
    inr (rw (rstrip-cons 32 text, is_empty-Words (rstrip text) w) (inl (refl, w)))

-- A cut line, with the blanks at its end taken off, is a line or empty.
Words-cut :
    (b : Bool) (n : ℕ) (text : Text)
    → Words b text
    → (rstrip (take n text) ≡ []) ⊎ Words b (rstrip (take n text))
Words-cut b zero text w = inl (unfold rstrip in refl)
Words-cut b (suc n) [] w = inl (unfold rstrip in refl)
Words-cut false (suc n) (c ∷ text) w =
    rw (rstrip-visible c (take n text) w.0) (inr (w.0, Words-empty _ (Words-cut true n text w.1)))
Words-cut true (suc n) (c ∷ text) (inr (e, w)) =
    rw (rstrip-visible c (take n text) e) (inr (inr (e, Words-empty _ (Words-cut true n text w))))
Words-cut true (suc n) (c ∷ text) (inl (e, w)) =
    rw e (Words-blank_cut (take n text) (Words-cut false n text w))

Words-ellipsis : (b : Bool) (text : Text) → Words b text → Words b (text ++ 8230 ∷ [])
Words-ellipsis true [] w = inr (refl, tt)
Words-ellipsis false [] w = absurd w
Words-ellipsis true (c ∷ text) (inl (e, w)) = inl (e, Words-ellipsis false text w)
Words-ellipsis true (c ∷ text) (inr (e, w)) = inr (e, Words-ellipsis true text w)
Words-ellipsis false (c ∷ text) w = (w.0, Words-ellipsis true text w.1)

Words-cut_line :
    (n : ℕ) (text : Text) → Words false text → Words false (rstrip (take n text) ++ 8230 ∷ [])
Words-cut_line n text w = elim (Words-cut false n text w) [
  | inl e ↦ rw e (refl, tt)
  | inr v ↦ Words-ellipsis false (rstrip (take n text)) v
]

IsLine-cut : (n : ℕ) (text : Text) → IsLine text → IsLine (rstrip (take n text) ++ 8230 ∷ [])
IsLine-cut zero text l = unfold rstrip in inr (refl, tt)
IsLine-cut (suc n) text (inl e) = rw e (unfold rstrip in inr (refl, tt))
IsLine-cut (suc n) text (inr w) = inr (Words-cut_line (suc n) text w)

clean_text-IsLine : (max_chars : ℕ) (text : Text) → IsLine (clean_text max_chars text)
unfolding clean_text
clean_text-IsLine max_chars text = elim (Bool-cases (ltb max_chars (length (words_of text)))) [
  | inl e ↦ rw e (IsLine-cut (max_chars - 1) (words_of text) (words_of-IsLine text))
  | inr e ↦ rw e (words_of-IsLine text)
]

length-cut : (n : ℕ) (text : Text) → length (rstrip (take n text) ++ 8230 ∷ []) ≤ n + 1
length-cut n text = omega (
  arith,
  length-append {0} (rstrip (take n text)) (8230 ∷ []),
  length-rstrip (take n text),
  length-take n text,
)

-- A cleaned text has at most so many characters.
pub length-clean_text :
    (max_chars : ℕ) (text : Text) → 0 < max_chars → length (clean_text max_chars text) ≤ max_chars
unfolding clean_text
length-clean_text max_chars text h = elim (Bool-cases (ltb max_chars (length (words_of text)))) [
  | inl e ↦ rw e (omega (arith, length-cut (max_chars - 1) (words_of text)))
  | inr e ↦ rw e (ground arith)
]

-- A line within the limit is clean.
pub clean_text-line :
    (max_chars : ℕ) (text : Text)
    → IsLine text
    → length text ≤ max_chars
    → clean_text max_chars text ≡ text
unfolding clean_text
clean_text-line max_chars text l h = rw (words_of-line text l) (ground arith)

-- A text that is cleaned to a positive number of characters is within that number, and cleaning
-- it again to this number, or to any larger one, changes nothing.
pub clean_text_again :
    (max_chars larger : ℕ) (text : Text)
    → 0 < max_chars
    → max_chars ≤ larger
    → (length (clean_text max_chars text) ≤ max_chars)
      × (clean_text larger (clean_text max_chars text) ≡ clean_text max_chars text)
clean_text_again max_chars larger text h le = (
  length-clean_text max_chars text h,
  clean_text-line larger (clean_text max_chars text) (clean_text-IsLine max_chars text)
      (omega (arith, length-clean_text max_chars text h)),
)

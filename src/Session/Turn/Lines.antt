-- ===== src/Session/Turn/Lines.antt =====
-- Cleaned texts, which several modules of packages/pcltm cut to one line: what `" ".join(split())`
-- gives, and that cleaning a cleaned text changes nothing.
use soul_llink.Base.{
  ℕ, ◌≤◌, ◌≡◌, refl, sym, ap, ◌∙◌, ◌⊎◌, inl, inr, Bool, true, false, [], ◌∷◌, ◌++◌, arith, length,
  is_empty, if◌then◌else◌, All, All-append, Bool-cases,
}
use soul_llink.Base.Text.{Text, is_space, drop_spaces, strip, rstrip, join_words}
use mathlib.Core.Path.{subst}
use mathlib.Core.List.{reverse, reverse-append, append_assoc, append-nil}

-- Words with single blanks between them: `Words true` may follow a visible character, and
-- `Words false` starts with one.
abbrev pub Words : Bool → Text → Type 0
Words true [] = Unit
Words false [] = ⊥
Words true (c ∷ text) = ((c ≡ 32) × Words false text) ⊎ ((is_space c ≡ false) × Words true text)
Words false (c ∷ text) = (is_space c ≡ false) × Words true text

-- A text that is one line of words, or empty.
abbrev pub IsLine : Text → Type 0
IsLine text = (text ≡ []) ⊎ Words false text

pub is_empty-Words : (text : Text) → Words false text → is_empty text ≡ false
is_empty-Words [] w = absurd w
is_empty-Words (c ∷ text) w = refl

is_empty-snoc : (text : Text) (c : ℕ) → is_empty (text ++ c ∷ []) ≡ false
is_empty-snoc [] c = refl
is_empty-snoc (d ∷ text) c = refl

-- Splitting words and joining them again gives the same line.
join_words-Words :
    (word text : Text)
    → is_empty word ≡ false
    → Words true text
    → join_words word text ≡ word ++ text
unfolding join_words
join_words-Words word [] v w = sym (append-nil word)
join_words-Words word (c ∷ []) v (inl (e, w)) = absurd w
join_words-Words word (c ∷ d ∷ text) v (inl (e, w)) =
    rw (e, v, w.0, join_words-Words (d ∷ []) text refl w.1)
join_words-Words word (c ∷ text) v (inr (e, w)) = rw e (
    join_words-Words (word ++ c ∷ []) text (is_empty-snoc word c) w
    ∙ append_assoc word (c ∷ []) text)

pub join_words-line : (text : Text) → Words false text → join_words [] text ≡ text
unfolding join_words
join_words-line [] w = absurd w
join_words-line (c ∷ text) w = rw w.0 (join_words-Words (c ∷ []) text refl w.1)

-- A visible word in front of what may follow one.
Words-append :
    (word text : Text)
    → All (λ c. is_space c ≡ false) word
    → Words true text
    → Words true (word ++ text)
Words-append [] text v w = w
Words-append (c ∷ word) text v w = inr (v.0, Words-append word text v.1 w)

Words-blank : (text : Text) → Words false text → Words true (32 ∷ text)
Words-blank text w = inl (refl, w)

-- What `join_words` makes of a visible word and the text behind it.
abbrev pub Joined : Text → Text → Type 0
Joined [] text = IsLine text
Joined (_ ∷ _) text = Words false text

IsLine-Joined : (word text : Text) → Words false text → Joined word text
IsLine-Joined [] text w = inr w
IsLine-Joined (_ ∷ _) text w = w

Joined-snoc : (word : Text) (c : ℕ) (text : Text) → Joined (word ++ c ∷ []) text → Words false text
Joined-snoc [] c text w = w
Joined-snoc (_ ∷ _) c text w = w

join_rest :
    (c : ℕ) (word rest : Text)
    → All (λ c. is_space c ≡ false) (c ∷ word)
    → IsLine rest
    → Words false (if is_empty rest then c ∷ word else (c ∷ word) ++ 32 ∷ rest)
join_rest c word rest v (inl e) =
    rw e (v.0, subst (Words true) (append-nil word) (Words-append word [] v.1 tt))
join_rest c word rest v (inr w) =
    rw (is_empty-Words rest w) (v.0, Words-append word (32 ∷ rest) v.1 (Words-blank rest w))

pub join_words-Joined :
    (text word : Text) → All (λ c. is_space c ≡ false) word → Joined word (join_words word text)
unfolding join_words
join_words-Joined [] [] v = inl refl
join_words-Joined [] (c ∷ word) v =
    (v.0, subst (Words true) (append-nil word) (Words-append word [] v.1 tt))
join_words-Joined (c ∷ text) word v = elim (Bool-cases (is_space c)) [
  | inl blank ↦ rw blank (join_blank word v (join_words-Joined text [] tt))
  | inr e ↦ rw e (
      IsLine-Joined word _ (
        Joined-snoc word c _
          (join_words-Joined text (word ++ c ∷ []) (All-append _ word (c ∷ []) v (e, tt)))))
]
  where
    join_blank :
        (word : Text)
        → All (λ c. is_space c ≡ false) word
        → IsLine (join_words [] text)
        → Joined word (
            if is_empty word
            then join_words [] text
            else if is_empty (join_words [] text)
            then word
            else word ++ 32 ∷ join_words [] text)
    join_blank [] v l = l
    join_blank (d ∷ word) v l = join_rest d word (join_words [] text) v l

-- `rstrip`, one character at a time.
drop_spaces-snoc :
    (text : Text) (c : ℕ)
    → drop_spaces (text ++ c ∷ [])
      ≡ (if is_empty (drop_spaces text) then drop_spaces (c ∷ []) else drop_spaces text ++ c ∷ [])
drop_spaces-snoc [] c = refl
drop_spaces-snoc (d ∷ text) c = ground (arith, drop_spaces-snoc text c)

is_empty-reverse : (text : Text) → is_empty (reverse text) ≡ is_empty text
is_empty-reverse [] = refl
is_empty-reverse (c ∷ text) = rw (reverse-append (c ∷ []) text) (is_empty-snoc (reverse text) c)

reverse-trimmed :
    (trimmed : Text) (c : ℕ)
    → reverse (if is_empty trimmed then (if is_space c then [] else c ∷ []) else trimmed ++ c ∷ [])
      ≡ (if is_empty (reverse trimmed)
          then (if is_space c then [] else c ∷ [])
          else c ∷ reverse trimmed)
reverse-trimmed [] c = elim (Bool-cases (is_space c)) [ inl e ↦ rw e | inr e ↦ rw e ]
reverse-trimmed (d ∷ trimmed) c =
    rw (is_empty-reverse (d ∷ trimmed), reverse-append (d ∷ trimmed) (c ∷ [])) refl

pub rstrip-cons :
    (c : ℕ) (text : Text)
    → rstrip (c ∷ text)
      ≡ (if is_empty (rstrip text) then (if is_space c then [] else c ∷ []) else c ∷ rstrip text)
unfolding rstrip
rstrip-cons c text =
    ap (λ t. reverse (drop_spaces t)) (reverse-append (c ∷ []) text)
    ∙ ap reverse (drop_spaces-snoc (reverse text) c)
    ∙ reverse-trimmed (drop_spaces (reverse text)) c

pub length-rstrip : (text : Text) → length (rstrip text) ≤ length text
length-rstrip [] = unfold rstrip in omega arith
length-rstrip (c ∷ text) = rw (rstrip-cons c text) (ground (arith, length-rstrip text))

-- A visible character is kept by `rstrip`, and a line as a whole.
pub rstrip-visible :
    (c : ℕ) (text : Text) → is_space c ≡ false → rstrip (c ∷ text) ≡ c ∷ rstrip text
rstrip-visible c text e = rw (rstrip-cons c text, e) (kept c (rstrip text))
  where
    kept : (c : ℕ) (rest : Text) → (if is_empty rest then c ∷ [] else c ∷ rest) ≡ c ∷ rest
    kept c [] = refl
    kept c (_ ∷ _) = refl

pub rstrip-Words : (b : Bool) (text : Text) → Words b text → rstrip text ≡ text
rstrip-Words b [] w = unfold rstrip in refl
rstrip-Words true (c ∷ text) (inl (e, w)) =
    rw (rstrip-cons c text, rstrip-Words false text w, is_empty-Words text w)
rstrip-Words true (c ∷ text) (inr (e, w)) = rw (rstrip-visible c text e, rstrip-Words true text w)
rstrip-Words false (c ∷ text) w = rw (rstrip-visible c text w.0, rstrip-Words true text w.1)

pub strip-Words : (text : Text) → Words false text → strip text ≡ text
strip-Words [] w = absurd w
strip-Words (c ∷ text) w = unfold strip rstrip in rw w.0 (rstrip-Words false (c ∷ text) w)

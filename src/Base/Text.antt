-- ===== src/Base/Text.antt =====
-- Python text as a list of code points, where the program looks inside it.
use soul_llink.Base.Tests.{Eq, ◌==◌, nat_eq, nat_beq, leb, ltb, if◌then◌else◌}
use soul_llink.Base.Lists.{is_empty}
use mathlib.Core.Path.{◌≡◌}
use mathlib.Core.Logic.{◌↔◌}
use native.Mathlib.Omega.{arith}
use Prim.Native.Nat.{ℕ}
use Prim.Native.Char.{code}
use Prim.Native.String.{String}
use mathlib.Core.Bool.{Bool, true, false, not, ◌&&◌, ◌||◌}
use mathlib.Core.List.{List, [], ◌∷◌, ◌++◌, reverse}

abbrev pub Text : Type 0
Text = List ℕ

abbrev pub codes : String → Text
codes String.[] = []
codes (String.◌∷◌ c s) = code c ∷ codes s

-- `text.startswith(term)`
unfoldable pub starts_with : Text → Text → Bool
starts_with [] text = true
starts_with (c ∷ term) [] = false
starts_with (c ∷ term) (d ∷ text) = c == d && starts_with term text

-- `term in text`
unfoldable pub occurs_in : Text → Text → Bool
unfolding starts_with
occurs_in term [] = starts_with term []
occurs_in term (d ∷ text) = starts_with term (d ∷ text) || occurs_in term text

-- `str.isspace` on one code point
abbrev pub is_space : ℕ → Bool
is_space c =
    (leb 9 c && leb c 13)
    || (leb 28 c && leb c 32)
    || nat_beq c 133
    || nat_beq c 160
    || nat_beq c 5760
    || (leb 8192 c && leb c 8202)
    || nat_beq c 8232
    || nat_beq c 8233
    || nat_beq c 8239
    || nat_beq c 8287
    || nat_beq c 12288

abbrev pub drop_spaces : Text → Text
drop_spaces [] = []
drop_spaces (c ∷ text) = let rest = drop_spaces text in if is_space c then rest else c ∷ text

-- `text.strip()`
unfoldable pub strip : Text → Text
strip text = reverse (drop_spaces (reverse (drop_spaces text)))

-- `text.rstrip()`
unfoldable pub rstrip : Text → Text
rstrip text = reverse (drop_spaces (reverse text))

-- `" ".join(text.split())`, with the word that is being read
unfoldable pub join_words : Text → Text → Text
join_words word [] = word
join_words word (c ∷ text) =
    let next = join_words (word ++ c ∷ []) text in
    let rest = join_words [] text in
    if not (is_space c)
    then next
    else if is_empty word
    then rest
    else if is_empty rest
    then word
    else word ++ 32 ∷ rest

-- `a < b` on texts, by code points
abbrev pub text_before : Text → Text → Bool
text_before [] [] = false
text_before [] (d ∷ t) = true
text_before (c ∷ s) [] = false
text_before (c ∷ s) (d ∷ t) = ltb c d || c == d && text_before s t

abbrev pub text_beq : Text → Text → Bool
text_beq [] [] = true
text_beq (c ∷ s) (d ∷ t) = c == d && text_beq s t
text_beq _ _ = false

pub text_beq_iff : (s t : Text) → (text_beq s t ≡ true) ↔ (s ≡ t)
text_beq_iff [] [] = ground arith
text_beq_iff (c ∷ s) (d ∷ t) = ground (arith, text_beq_iff s t)
text_beq_iff [] (d ∷ t) = ground arith
text_beq_iff (c ∷ s) [] = ground arith

instance abbrev pub text_eq : Eq Text
text_eq = record { beq = text_beq; beq_iff = text_beq_iff }

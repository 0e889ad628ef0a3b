-- ===== src/Session/Turn.antt =====
-- Dialogue turns and what the session modules read in their texts: DialogueTurn of
-- packages/pcltm/state/update_active_dialogue.py, and the text helpers that segmenter.py and
-- session_summary_chain.py of packages/pcltm/session share. `str.lower` is a parameter.
pub mod Lines
pub mod Cleaning
use soul_llink.Base.{
  ℕ, ◌-◌, Bool, List, [], ◌∷◌, ◌++◌, String, if◌then◌else◌, ltb, length, is_empty, any, take,
}
use soul_llink.Base.Text.{Text, codes, occurs_in, strip, rstrip, join_words}

pub record DialogueTurn : Type 0 where
  pub user : Text
  pub assistant : Text

-- `"\n".join(part for part in (turn.user, turn.assistant) if part)`
unfoldable pub join_parts : Text → Text → Text
join_parts a b = if is_empty a then b else if is_empty b then a else a ++ 10 ∷ b

unfoldable pub turn_text : DialogueTurn → Text
turn_text turn = join_parts turn.user turn.assistant

-- `" ".join(str(value or "").strip().split())`
unfoldable pub words_of : Text → Text
words_of text = join_words [] (strip text)

-- `_clean_text`: one line of at most so many characters, with "…" where it is cut
unfoldable pub clean_text : ℕ → Text → Text
unfolding words_of
clean_text max_chars text =
    let line = words_of text in
    if ltb max_chars (length line) then rstrip (take (max_chars - 1) line) ++ 8230 ∷ [] else line

-- `_contains_any`
unfoldable pub contains_any : (Text → Text) → Text → List String → Bool
contains_any lower text needles =
    any (λ needle. occurs_in (lower (codes needle)) (lower text)) needles

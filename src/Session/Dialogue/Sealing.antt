-- ===== src/Session/Dialogue/Sealing.antt =====
-- What `render` of packages/pcltm/state/active_dialogue_state.py lets out of a state.
use soul_llink.Base.{◌≡◌, refl, List, [], ◌∷◌, ◌++◌, map, String, arith, length, is_empty, ==-refl}
use soul_llink.Base.Sorting.{sorted}
use soul_llink.Base.Text.{Text, codes, text_eq}
use soul_llink.Session.Dialogue.{
  ActiveDialogueState, redact, redact_all, sealed_value, sealed_list, value_line, list_line,
  render_sealed, render,
}

-- Two states that show the same fields, with as many items in each list.
pub record LooksLike (s t : ActiveDialogueState) : Type 0 where
  pub same_goal : is_empty s.conversation_goal ≡ is_empty t.conversation_goal
  pub same_task : is_empty s.current_task ≡ is_empty t.current_task
  pub same_intent : is_empty s.last_user_intent ≡ is_empty t.last_user_intent
  pub same_commitment : is_empty s.last_assistant_commitment ≡ is_empty t.last_assistant_commitment
  pub same_threads : length s.open_threads ≡ length t.open_threads
  pub same_questions : length s.pending_questions ≡ length t.pending_questions
  pub same_constraints : length s.local_constraints ≡ length t.local_constraints
  pub same_hint : is_empty s.continuation_hint ≡ is_empty t.continuation_hint

module _ (replace : Text → Text → Text → Text) where
  -- Without references every value is replaced by the mark of its field.
  sealed_value-mark :
      (field : String) (value : Text)
      → sealed_value replace [] field value
        ≡ codes "<sealed_active_dialogue_" ++ codes field ++ codes ">"
  unfolding sealed_value redact redact_all sorted
  sealed_value-mark field value = rw (==-refl value)

  value_line-hides :
      (field : String) (a b : Text)
      → is_empty a ≡ is_empty b
      → value_line replace [] field a ≡ value_line replace [] field b
  unfolding value_line
  value_line-hides field a b e = rw (sealed_value-mark field a, sealed_value-mark field b, e)

  map-mark :
      (field : String) (xs ys : List Text)
      → length xs ≡ length ys
      → map (sealed_value replace [] field) xs ≡ map (sealed_value replace [] field) ys
  map-mark field [] [] e = refl
  map-mark field [] (y ∷ ys) e = absurd (omega (arith, e))
  map-mark field (x ∷ xs) [] e = absurd (omega (arith, e))
  map-mark field (x ∷ xs) (y ∷ ys) e = cc (
    sealed_value-mark field x,
    sealed_value-mark field y,
    map-mark field xs ys (omega (arith, e)),
  )

  is_empty-length : (xs ys : List Text) → length xs ≡ length ys → is_empty xs ≡ is_empty ys
  is_empty-length [] [] e = refl
  is_empty-length [] (y ∷ ys) e = absurd (omega (arith, e))
  is_empty-length (x ∷ xs) [] e = absurd (omega (arith, e))
  is_empty-length (x ∷ xs) (y ∷ ys) e = refl

  list_line-hides :
      (field : String) (xs ys : List Text)
      → length xs ≡ length ys
      → list_line replace [] field xs ≡ list_line replace [] field ys
  unfolding list_line sealed_list
  list_line-hides field xs ys e = rw (is_empty-length xs ys e, map-mark field xs ys e)

  -- The rendered state shows no text of the state: two states with the same fields present, and
  -- lists of the same lengths, are rendered alike.
  pub render-hides :
      (s t : ActiveDialogueState) → LooksLike s t → render replace s ≡ render replace t
  unfolding render render_sealed
  render-hides s t l = rw (
    value_line-hides "conversation_goal" _ _ l.same_goal,
    value_line-hides "current_task" _ _ l.same_task,
    value_line-hides "last_user_intent" _ _ l.same_intent,
    value_line-hides "last_assistant_commitment" _ _ l.same_commitment,
    list_line-hides "open_threads" _ _ l.same_threads,
    list_line-hides "pending_questions" _ _ l.same_questions,
    list_line-hides "local_constraints" _ _ l.same_constraints,
    value_line-hides "continuation_hint" _ _ l.same_hint,
  )

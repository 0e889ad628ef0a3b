-- ===== src/Session/Update/Keeping.antt =====
-- What a turn does to the task and the goal of the dialogue state, in
-- packages/pcltm/state/update_active_dialogue.py.
use soul_llink.Base.{
  ◌≡◌, refl, ap, ◌∙◌, Bool, true, false, not, ◌&&◌, ◌||◌, Option, some, List, [], ◌∷◌, arith,
  is_empty, if◌then◌else◌, Bool-cases, if-keeps, inl, inr,
}
use soul_llink.Base.Text.{Text}
use soul_llink.Session.Turn.{DialogueTurn, clean_text}
use soul_llink.Session.Turn.Cleaning.{clean_text_again}
use soul_llink.Session.Dialogue.{ActiveDialogueState, make_state, to_dict, from_dict, with_updates}
use soul_llink.Session.Dialogue.Stable.{make_state_again}
use soul_llink.Session.Update.{
  is_continuation_request, is_side_interruption, is_scope_correction, settle_task, next_state,
  update_state, update_active_dialogue, update_turns, mode_or, focus_of,
}

-- A state that the constructor has made.
abbrev pub IsMade : ActiveDialogueState → Type 0
IsMade s = make_state s ≡ s

clean-if :
    (keeps : Bool) (task user : Text)
    → clean_text 280 task ≡ task
    → clean_text 280 (if keeps then task else clean_text 220 user)
      ≡ (if keeps then task else clean_text 220 user)
clean-if true task user e = e
clean-if false task user e = (clean_text_again 220 280 user (omega arith) (omega arith)).1

module _ (lower : Text → Text) where
  -- A turn leaves the task as it is: it says nothing, or there is a task and the turn points back
  -- to it without correcting its scope, or is a side remark.
  unfoldable pub keeps_task : ActiveDialogueState → Text → Bool
  keeps_task s user_text =
      is_empty user_text
      || not (is_empty s.current_task)
        && (is_continuation_request lower user_text && not (is_scope_correction lower user_text)
            || is_side_interruption lower user_text)

  settle_task-task :
      (s : ActiveDialogueState) (user_text : Text)
      → (settle_task lower (focus_of s) user_text).task
        ≡ (if keeps_task s user_text then s.current_task else user_text)
  unfolding settle_task keeps_task
  settle_task-task s user_text = ground arith

  update_state-IsMade :
      (s : ActiveDialogueState) (turn : DialogueTurn) (mode : Text)
      → IsMade (update_state lower s turn mode)
  unfolding update_state with_updates from_dict next_state
  update_state-IsMade s turn mode =
      if-keeps IsMade
        (is_empty (clean_text 220 turn.user) && is_empty (clean_text 220 turn.assistant)) _ _
        (make_state_again _) (make_state_again _)

  -- The task that is settled is clean already.
  clean-task :
      (s : ActiveDialogueState) (user : Text)
      → IsMade s
      → clean_text 280 (settle_task lower (focus_of s) (clean_text 220 user)).task
        ≡ (if keeps_task s (clean_text 220 user) then s.current_task else clean_text 220 user)
  unfolding make_state
  clean-task s user m =
      ap (clean_text 280) (settle_task-task s (clean_text 220 user))
      ∙ clean-if (keeps_task s (clean_text 220 user)) s.current_task user
          (ap (λ t. t.current_task) m)

  keeps_task-silent :
      (s : ActiveDialogueState) (user_text : Text)
      → is_empty user_text ≡ true
      → keeps_task s user_text ≡ true
  unfolding keeps_task
  keeps_task-silent s user_text e = rw e

  -- The task after a turn, for a state that the constructor has made.
  update_state-task :
      (s : ActiveDialogueState) (turn : DialogueTurn) (mode : Text)
      → IsMade s
      → (update_state lower s turn mode).current_task ≡ (
          if keeps_task s (clean_text 220 turn.user)
          then s.current_task
          else clean_text 220 turn.user)
  unfolding update_state with_updates from_dict to_dict next_state make_state
  update_state-task s turn mode m =
      elim (Bool-cases
        (is_empty (clean_text 220 turn.user) && is_empty (clean_text 220 turn.assistant))) [
          | inl e ↦
              rw (e, keeps_task-silent s (clean_text 220 turn.user) (ground arith))
                (ap (λ t. t.current_task) m)
          | inr e ↦ rw e (clean-task s turn.user m)
        ]

  settle_task-goal :
      (s : ActiveDialogueState) (user_text : Text)
      → is_empty s.conversation_goal ≡ false
      → (settle_task lower (focus_of s) user_text).goal ≡ s.conversation_goal
  unfolding settle_task
  settle_task-goal s user_text e = ground arith

  update_state-goal :
      (s : ActiveDialogueState) (turn : DialogueTurn) (mode : Text)
      → IsMade s
      → is_empty s.conversation_goal ≡ false
      → (update_state lower s turn mode).conversation_goal ≡ s.conversation_goal
  unfolding update_state with_updates from_dict to_dict next_state make_state
  update_state-goal s turn mode m g =
      if-keeps (λ (t : ActiveDialogueState). t.conversation_goal ≡ s.conversation_goal)
        (is_empty (clean_text 220 turn.user) && is_empty (clean_text 220 turn.assistant)) _ _
        (ap (λ t. t.conversation_goal) m)
        (ap (clean_text 280) (settle_task-goal s (clean_text 220 turn.user) g)
          ∙ ap (λ t. t.conversation_goal) m)

  -- A turn on a state that the constructor has made gives such a state. It keeps the task where
  -- the turn has no user text, or where there is a task and the turn points back to it without
  -- correcting its scope or is a side remark; otherwise the cleaned user text is the new task.
  pub update_active_dialogue-task :
      (s : ActiveDialogueState) (turn : DialogueTurn) (mode : Option Text)
      → IsMade s
      → IsMade (update_active_dialogue lower (some s) turn mode)
        × ((update_active_dialogue lower (some s) turn mode).current_task ≡ (
            if keeps_task s (clean_text 220 turn.user)
            then s.current_task
            else clean_text 220 turn.user))
  unfolding update_active_dialogue
  update_active_dialogue-task s turn mode m = (
    update_state-IsMade s turn (mode_or lower mode s.response_mode),
    update_state-task s turn (mode_or lower mode s.response_mode) m,
  )

  -- Over any turns, a goal that is set is never changed, and the state stays one that the
  -- constructor has made.
  pub update_turns-goal :
      (s : ActiveDialogueState) (turns : List DialogueTurn) (mode : Text)
      → IsMade s
      → is_empty s.conversation_goal ≡ false
      → IsMade (update_turns lower s turns mode)
        × ((update_turns lower s turns mode).conversation_goal ≡ s.conversation_goal)
  unfolding update_turns update_active_dialogue
  update_turns-goal s [] mode m g = (m, refl)
  update_turns-goal s (turn ∷ turns) mode m g =
      let mode' = mode_or lower (some mode) s.response_mode in
      let same = update_state-goal s turn mode' m g in
      let (made, later) =
        update_turns-goal (update_state lower s turn mode') turns mode
          (update_state-IsMade s turn mode') (ap is_empty same ∙ g) in
      (made, later ∙ same)

-- ===== src/Persona/Transition/Flags.antt =====
-- Safety flags: a transition keeps every flag, once.
use soul_llink.Base.{
  ◌≡◌, ◌⊎◌, none, some, if-keeps, Bool, true, ◌||◌, List, [], ◌∷◌, ◌++◌, String, Option, arith,
  ◌==◌, string_eq, contains, contains-append, Distinct, Distinct-snoc, Bool-cases, Option-cases,
  inl, inr,
}
use soul_llink.Persona.Types.{Mode, sex, mode_eq, ModeDecision, TransitionDecision}
use soul_llink.Persona.Transition.{
  append_new, merge_flags, RoutingConfig, Turn, is_crisis, decide_turn, transition, crisis_outcome,
  on_sex_request, leave_sex, hold_short_message, hold_work_continuation, enter_work, leave_work,
  hold_or_accept, from_previous, or_else,
}

pub contains-append_new :
    (merged flags : List String) (f : String)
    → contains (append_new merged flags) f ≡ (contains merged f || contains flags f)
unfolding append_new
contains-append_new merged [] f = ground arith
contains-append_new merged (x ∷ flags) f = ground (
  arith,
  contains-append_new merged flags f,
  contains-append_new (merged ++ x ∷ []) flags f,
  contains-append merged (x ∷ []) f,
  string_eq.beq_iff f x,
)

append_new-Distinct :
    (merged flags : List String) → Distinct merged → Distinct (append_new merged flags)
unfolding append_new
append_new-Distinct merged [] d = d
append_new-Distinct merged (x ∷ flags) d = elim (Bool-cases (contains merged x)) [
  | inl old ↦ rw old (append_new-Distinct merged flags d)
  | inr new ↦ rw new (append_new-Distinct (merged ++ x ∷ []) flags (Distinct-snoc merged x d new))
]

pub contains-merge_flags :
    (first second : List String) (f : String)
    → contains (merge_flags first second) f ≡ (contains first f || contains second f)
unfolding merge_flags
contains-merge_flags first second f =
    rw (contains-append_new (append_new [] first) second f, contains-append_new [] first f)

pub merge_flags-Distinct : (first second : List String) → Distinct (merge_flags first second)
unfolding merge_flags
merge_flags-Distinct first second =
    append_new-Distinct (append_new [] first) second (append_new-Distinct [] first tt)

module _ (cfg : RoutingConfig) where
  on_sex_request-flags :
      (t : Turn)
      → ((on_sex_request cfg t).safety_flags ≡ t.flags)
        ⊎ ((on_sex_request cfg t).safety_flags
            ≡ merge_flags t.flags ("sex_transition_confirmation_pending" ∷ []))
        ⊎ ((on_sex_request cfg t).safety_flags
            ≡ merge_flags t.flags ("ambiguous_hint_held_by_work_context" ∷ []))
        ⊎ ((on_sex_request cfg t).safety_flags
            ≡ merge_flags t.flags ("sex_desire_gate_restrained" ∷ []))
        ⊎ ((on_sex_request cfg t).safety_flags ≡ merge_flags t.flags ("sex_shadow_only" ∷ []))
  unfolding on_sex_request
  on_sex_request-flags t = ground arith

  -- the flags of an outcome, and of one that may be missing
  KeepsFlags : List String → TransitionDecision → Type 0
  KeepsFlags flags r = r.safety_flags ≡ flags

  HasFlags : List String → Option TransitionDecision → Type 0
  HasFlags flags none = Unit
  HasFlags flags (some r) = KeepsFlags flags r

  or_else-KeepsFlags :
      (flags : List String) (o : Option TransitionDecision) (r : TransitionDecision)
      → HasFlags flags o
      → KeepsFlags flags r
      → KeepsFlags flags (or_else o r)
  unfolding HasFlags
  or_else-KeepsFlags flags none r h h' = h'
  or_else-KeepsFlags flags (some r') r h h' = h

  leave_sex-HasFlags : (t : Turn) → HasFlags t.flags (leave_sex cfg t)
  unfolding HasFlags KeepsFlags leave_sex
  leave_sex-HasFlags t = ground arith

  hold_short_message-HasFlags :
      (previous : Mode) (t : Turn) → HasFlags t.flags (hold_short_message cfg previous t)
  unfolding HasFlags KeepsFlags hold_short_message
  hold_short_message-HasFlags previous t = ground arith

  hold_work_continuation-HasFlags :
      (previous : Mode) (t : Turn) → HasFlags t.flags (hold_work_continuation cfg previous t)
  unfolding HasFlags KeepsFlags hold_work_continuation
  hold_work_continuation-HasFlags previous t = ground arith

  enter_work-HasFlags : (t : Turn) → HasFlags t.flags (enter_work cfg t)
  unfolding HasFlags KeepsFlags enter_work
  enter_work-HasFlags t = ground arith

  leave_work-KeepsFlags : (t : Turn) → KeepsFlags t.flags (leave_work cfg t)
  unfolding KeepsFlags leave_work
  leave_work-KeepsFlags t = ground arith

  hold_or_accept-KeepsFlags :
      (previous : Mode) (t : Turn) → KeepsFlags t.flags (hold_or_accept cfg previous t)
  unfolding KeepsFlags hold_or_accept
  hold_or_accept-KeepsFlags previous t = ground arith

  from_previous-KeepsFlags :
      (previous : Mode) (t : Turn) → KeepsFlags t.flags (from_previous cfg previous t)
  unfolding from_previous
  from_previous-KeepsFlags previous t = or_else-KeepsFlags t.flags _ _ (leave_sex-HasFlags t) (
      or_else-KeepsFlags t.flags _ _ (hold_short_message-HasFlags previous t) (
        or_else-KeepsFlags t.flags _ _ (hold_work_continuation-HasFlags previous t) (
          or_else-KeepsFlags t.flags _ _ (enter_work-HasFlags t) (
            if-keeps (KeepsFlags t.flags) _ _ _ (leave_work-KeepsFlags t)
              (hold_or_accept-KeepsFlags previous t)))))

  from_previous-flags :
      (previous : Mode) (t : Turn) → (from_previous cfg previous t).safety_flags ≡ t.flags
  unfolding KeepsFlags
  from_previous-flags previous t = from_previous-KeepsFlags previous t

  on_sex_request_keeps :
      (t : Turn) (f : String)
      → contains t.flags f ≡ true
      → contains (on_sex_request cfg t).safety_flags f ≡ true
  on_sex_request_keeps t f h = ground (
    arith,
    on_sex_request-flags t,
    contains-merge_flags t.flags ("sex_transition_confirmation_pending" ∷ []) f,
    contains-merge_flags t.flags ("ambiguous_hint_held_by_work_context" ∷ []) f,
    contains-merge_flags t.flags ("sex_desire_gate_restrained" ∷ []) f,
    contains-merge_flags t.flags ("sex_shadow_only" ∷ []) f,
  )

  on_sex_request-Distinct :
      (t : Turn) → Distinct t.flags → Distinct (on_sex_request cfg t).safety_flags
  on_sex_request-Distinct t d = elim (on_sex_request-flags t) [
    | inl e ↦ rw e d
    | inr (inl e) ↦ rw e (merge_flags-Distinct t.flags _)
    | inr (inr (inl e)) ↦ rw e (merge_flags-Distinct t.flags _)
    | inr (inr (inr (inl e))) ↦ rw e (merge_flags-Distinct t.flags _)
    | inr (inr (inr (inr e))) ↦ rw e (merge_flags-Distinct t.flags _)
  ]

  decide_turn-flags :
      (t : Turn)
      → Distinct t.flags
      → Distinct (decide_turn cfg t).safety_flags
        × ((f : String)
            → contains t.flags f ≡ true
            → contains (decide_turn cfg t).safety_flags f ≡ true)
  unfolding decide_turn crisis_outcome
  decide_turn-flags t d = elim (Bool-cases (is_crisis t)) [
    | inl crisis ↦ rw crisis (d, λ f h. h)
    | inr calm ↦ elim (Bool-cases (t.requested == sex)) [
      | inl asks ↦ rw (calm, asks) (on_sex_request-Distinct t d, on_sex_request_keeps t)
      | inr other_request ↦ elim (Option-cases t.previous) [
        | inl start ↦ rw (calm, other_request, start) (d, λ f h. h)
        | inr (previous, e) ↦
            rw (calm, other_request, e)
              (let same = from_previous-flags previous t in (rw same d, λ f h. rw same h))
      ]
    ]
  ]

  -- A transition drops no safety flag, neither the decision's nor the caller's, and lists no flag
  -- twice.
  pub transition-flags :
      (previous_mode : Option Mode) (d : ModeDecision) (flags : List String) (tier : Option String)
      (enabled : Bool)
      → let result = transition cfg previous_mode d flags tier enabled in
        Distinct result.safety_flags
        × ((f : String)
            → (contains d.safety_flags f || contains flags f) ≡ true
            → contains result.safety_flags f ≡ true)
  unfolding transition
  transition-flags previous_mode d flags tier enabled =
      let (distinct, keeps) = decide_turn-flags _ (merge_flags-Distinct d.safety_flags flags) in
      (distinct, λ f h. keeps f (rw (contains-merge_flags d.safety_flags flags f) h))

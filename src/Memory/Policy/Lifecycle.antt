-- ===== src/Memory/Policy/Lifecycle.antt =====
-- The life of a governed memory as a relation, and how long it can get.
use soul_llink.Base.{
  ℕ, suc, ◌+◌, ◌≤◌, ◌<◌, ◌≡◌, refl, true, false, arith, Option, none, some, contains, Bool-cases,
  inl, inr,
}
use soul_llink.Memory.Contracts.{
  LifecycleState, pending_review, active, superseded, retired, expired, rejected, quarantined,
  MemoryTransitionCommand, lifecycle_eq,
}
use soul_llink.Memory.Policy.{action_target, targets, allowed_transitions, resolve_transition}

-- The diagram of the lifecycle.
infix 40 ◌⟶◌
pub data ◌⟶◌ : LifecycleState → LifecycleState → Type 0 where
  approve : pending_review ⟶ active
  refuse : pending_review ⟶ rejected
  isolate : pending_review ⟶ quarantined
  replace : active ⟶ superseded
  withdraw : active ⟶ retired
  lapse : active ⟶ expired

-- `n` commands in a row, each allowed in the state that the one before it led to.
pub data Life (s : LifecycleState) : ℕ → LifecycleState → Type 0 where
  born : Life s 0 s
  step :
      {n : ℕ} {t : LifecycleState} (command : MemoryTransitionCommand)
      → Life s n t
      → (resolve_transition t command).allowed ≡ true
      → Life s (suc n) command.target_state

ruleset edges = (approve, refuse, isolate, replace, withdraw, lapse)

targets→some : (o : Option LifecycleState) (s : LifecycleState) → targets o s ≡ true → o ≡ some s
targets→some none s h = cc
targets→some (some t) s h = ground (arith, lifecycle_eq.beq_iff t s)

allowed-⟶ : (s t : LifecycleState) → contains (allowed_transitions s) t ≡ true → s ⟶ t
allowed-⟶ s t h = grind (arith, edges)

-- An allowed command names its target by its action, and follows an edge of the diagram.
pub resolve_transition-⟶ :
    (s : LifecycleState) (command : MemoryTransitionCommand)
    → (resolve_transition s command).allowed ≡ true
    → (action_target command.action ≡ some command.target_state) × (s ⟶ command.target_state)
unfolding resolve_transition
resolve_transition-⟶ s command h = (
  targets→some (action_target command.action) command.target_state (ground arith),
  allowed-⟶ s command.target_state (ground arith),
)

-- The command for an edge of the diagram.
command_for : LifecycleState → MemoryTransitionCommand
command_for pending_review = record { action = ""; target_state = pending_review }
command_for active = record { action = "activate"; target_state = active }
command_for superseded = record { action = "supersede"; target_state = superseded }
command_for retired = record { action = "retire"; target_state = retired }
command_for expired = record { action = "expire"; target_state = expired }
command_for rejected = record { action = "reject"; target_state = rejected }
command_for quarantined = record { action = "quarantine"; target_state = quarantined }

-- Every edge of the diagram is reached by a command that the policy allows.
pub ⟶-resolve_transition :
    {s t : LifecycleState}
    → s ⟶ t
    → (command : MemoryTransitionCommand) × (command.target_state ≡ t)
      × ((resolve_transition s command).allowed ≡ true)
unfolding resolve_transition command_for action_target
⟶-resolve_transition approve = (command_for active, refl, refl)
⟶-resolve_transition refuse = (command_for rejected, refl, refl)
⟶-resolve_transition isolate = (command_for quarantined, refl, refl)
⟶-resolve_transition replace = (command_for superseded, refl, refl)
⟶-resolve_transition withdraw = (command_for retired, refl, refl)
⟶-resolve_transition lapse = (command_for expired, refl, refl)

-- how many commands can still follow
abbrev remaining : LifecycleState → ℕ
remaining pending_review = 2
remaining active = 1
remaining _ = 0

⟶-remaining : {s t : LifecycleState} → s ⟶ t → remaining t < remaining s
⟶-remaining approve = omega arith
⟶-remaining refuse = omega arith
⟶-remaining isolate = omega arith
⟶-remaining replace = omega arith
⟶-remaining withdraw = omega arith
⟶-remaining lapse = omega arith

remaining_capped : (s : LifecycleState) → remaining s ≤ 2
remaining_capped s = ground arith

Life-remaining :
    {s : LifecycleState} {n : ℕ} {t : LifecycleState} → Life s n t → n + remaining t ≤ remaining s
Life-remaining born = omega arith
Life-remaining (step {t = t} command life allowed) =
    omega (arith, Life-remaining life, ⟶-remaining (resolve_transition-⟶ t command allowed).1)

-- From any state at most two commands in a row are ever allowed, and after two the memory is in a
-- state that allows no further command.
pub Life-bounded :
    {s : LifecycleState} {n : ℕ} {t : LifecycleState}
    → Life s n t
    → (n ≤ 2)
      × (n ≡ 2
          → (command : MemoryTransitionCommand) → (resolve_transition t command).allowed ≡ false)
Life-bounded {s} {n} {t} life = (
  omega (arith, Life-remaining life, remaining_capped s),
  λ two command. elim (Bool-cases (resolve_transition t command).allowed) [
    | inl yes_allowed ↦
        absurd (omega (arith, Life-remaining (step command life yes_allowed), remaining_capped s))
    | inr refused ↦ refused
  ],
)

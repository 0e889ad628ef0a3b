-- ===== src/Memory/Policy/Tests.antt =====
-- The theorems about the memory policy on concrete memories and commands.
use soul_llink.Base.{ℕ, ◌≤◌, ◌≡◌, refl, ◌↔◌, true, false, [], ◌∷◌, some, none}
use soul_llink.Memory.Contracts.{
  normal, private, restricted, sensitivity_rank, pending_review, active, retired, event_derived,
  inject, daily, sex, AuthorityRef, AuthoritySnapshot, MemoryWriteCommand, MemoryAccessRequest,
  MemoryTransitionCommand, persona_eq,
}
use soul_llink.Memory.Policy.{
  admit_access, admit_write, inherit_sensitivity, action_target, resolve_transition,
}
use soul_llink.Memory.Policy.Access.{IsReadable, admit_access-IsReadable}
use soul_llink.Memory.Policy.Write.{
  SourcesBelow, inherit_sensitivity_least, IsWritable, admit_write-IsWritable,
}
use soul_llink.Memory.Policy.Lifecycle.{
  ◌⟶◌, approve, Life, born, step, resolve_transition-⟶, ⟶-resolve_transition, Life-bounded,
}

abbrev memory : AuthoritySnapshot
memory = record {
  authority_kind = "claim";
  object_id = "claim-7";
  object_version = 2;
  payload_sha256 = "0123456789abcdef0123456789abcdef0123456789abcdef0123456789abcdef";
  governance_id = 11;
  governance_state = active;
  sensitivity = private;
  lifecycle_state = active;
  source_refs = [];
  projection_generation = none;
  mode_scope = daily ∷ sex ∷ [];
  injection_policy = "allow";
}

abbrev memory_ref : AuthorityRef
memory_ref = record {
  authority_kind = "claim";
  object_id = "claim-7";
  object_version = 2;
  payload_sha256 = "0123456789abcdef0123456789abcdef0123456789abcdef0123456789abcdef";
}

abbrev daily_request : MemoryAccessRequest
daily_request = record { surface = inject; persona_mode = daily; sensitivity_ceiling = restricted }

abbrev derived : MemoryWriteCommand
derived = record {
  lineage_kind = event_derived;
  sensitivity = private;
  mode_scope = daily ∷ [];
  source_refs = memory_ref ∷ [];
  requested_lifecycle = pending_review;
}

abbrev activate : MemoryTransitionCommand
activate = record { action = "activate"; target_state = active }

abbrev retire : MemoryTransitionCommand
retire = record { action = "retire"; target_state = retired }

admit_access-IsReadable_example :
    ((admit_access memory daily_request).allowed ≡ true) ↔ IsReadable memory daily_request
admit_access-IsReadable_example = admit_access-IsReadable memory daily_request

inherit_sensitivity_least_example :
    let d = inherit_sensitivity (memory ∷ []) normal in
    let rank = sensitivity_rank d.effective in
    (sensitivity_rank normal ≤ rank)
    × SourcesBelow rank (memory ∷ [])
    × ((k : ℕ) → sensitivity_rank normal ≤ k → SourcesBelow k (memory ∷ []) → rank ≤ k)
    × ((d.allowed ≡ true) ↔ SourcesBelow (sensitivity_rank normal) (memory ∷ []))
    × (d.allowed ≡ true → d.effective ≡ normal)
inherit_sensitivity_least_example = inherit_sensitivity_least (memory ∷ []) normal

admit_write-IsWritable_example :
    ((admit_write derived (memory ∷ [])).allowed ≡ true ↔ IsWritable derived (memory ∷ []))
    × ((admit_write derived (memory ∷ [])).allowed ≡ true
        → ((admit_write derived (memory ∷ [])).effective_sensitivity ≡ some derived.sensitivity)
          × ((admit_write derived (memory ∷ [])).injectable_modes ≡ derived.mode_scope))
admit_write-IsWritable_example = admit_write-IsWritable derived (memory ∷ [])

resolve_transition-⟶_example :
    (action_target activate.action ≡ some activate.target_state)
    × (pending_review ⟶ activate.target_state)
unfolding resolve_transition action_target
resolve_transition-⟶_example = resolve_transition-⟶ pending_review activate refl

⟶-resolve_transition_example :
    (command : MemoryTransitionCommand) × (command.target_state ≡ active)
    × ((resolve_transition pending_review command).allowed ≡ true)
⟶-resolve_transition_example = ⟶-resolve_transition approve

two_commands : Life pending_review 2 retired
unfolding resolve_transition action_target
two_commands = step retire (step activate born refl) refl

Life-bounded_example :
    (2 ≤ 2)
    × (◌≡◌ {A = ℕ} 2 2
        → (command : MemoryTransitionCommand)
        → (resolve_transition retired command).allowed ≡ false)
Life-bounded_example = Life-bounded two_commands

-- ===== src/Memory/Policy.antt =====
-- packages/pcltm/memory_policy.py: the policy kernel. A `reason` is the text of the source's
-- REASON_ constant.
mod Tests
pub mod Access
pub mod Write
pub mod Lifecycle
use soul_llink.Base.{
  ℕ, Bool, true, false, not, ◌&&◌, ◌||◌, List, [], ◌∷◌, String, Option, none, some, map, ◌==◌,
  string_eq, ltb, leb, nat_beq, if◌then◌else◌, length, all, contains, is_empty,
}
use soul_llink.Memory.Contracts.{
  Sensitivity, normal, private, restricted, secret, sensitivity_rank, LifecycleState,
  pending_review, active, superseded, retired, expired, rejected, quarantined, LineageKind,
  event_derived, explicit_user_assertion, system_governed_invariant, legacy_governed,
  transient_task_state, AccessSurface, inject, audit, PersonaMode, daily, work, sex, cron,
  default_mode, AuthorityRef, AuthoritySnapshot, snapshot_ref, AdmissionDecision,
  MemoryWriteCommand, MemoryAccessRequest, MemoryTransitionCommand, authority_ref_eq, lifecycle_eq,
  persona_eq, surface_eq,
}

abbrev pub policy_version : String
policy_version = "memory-policy-v1"

pub record SensitivityDecision : Type 0 where
  pub effective : Sensitivity
  pub allowed : Bool
  pub reason_code : String

pub record TransitionDecision : Type 0 where
  pub allowed : Bool
  pub previous_state : LifecycleState
  pub new_state : LifecycleState
  pub reason_code : String

-- `_ALLOWED_TRANSITIONS`
abbrev pub allowed_transitions : LifecycleState → List LifecycleState
allowed_transitions pending_review = active ∷ rejected ∷ quarantined ∷ []
allowed_transitions active = superseded ∷ retired ∷ expired ∷ []
allowed_transitions _ = []

-- `_decision`
abbrev pub decision :
    Bool
    → String
    → String
    → Option AuthoritySnapshot
    → Option Sensitivity
    → List PersonaMode
    → AdmissionDecision
decision allowed action reason snapshot sensitivity modes = record {
  allowed = allowed;
  action = action;
  reason_code = reason;
  policy_version = policy_version;
  snapshot = snapshot;
  effective_sensitivity = sensitivity;
  injectable_modes = modes;
}

-- `max(a, b, key=rank)`: the first of two members with the larger rank
abbrev pub max_sensitivity : Sensitivity → Sensitivity → Sensitivity
max_sensitivity a b = if ltb (sensitivity_rank a) (sensitivity_rank b) then b else a

-- `max((snapshot.sensitivity ...), default=NORMAL)`, from the left
pub max_from : Sensitivity → List AuthoritySnapshot → Sensitivity
max_from best [] = best
max_from best (s ∷ rest) = max_from (max_sensitivity best s.sensitivity) rest

pub source_effective : List AuthoritySnapshot → Sensitivity
unfolding max_from
source_effective [] = normal
source_effective (s ∷ rest) = max_from s.sensitivity rest

unfoldable pub inherit_sensitivity : List AuthoritySnapshot → Sensitivity → SensitivityDecision
unfolding source_effective
inherit_sensitivity sources requested =
    let source = source_effective sources in
    let effective = max_sensitivity source requested in
    if ltb (sensitivity_rank requested) (sensitivity_rank source)
    then record { effective = effective; allowed = false; reason_code = "sensitivity_downgrade" }
    else record { effective = effective; allowed = true; reason_code = "write_allowed" }

abbrev pub needs_source : LineageKind → Bool
needs_source event_derived = true
needs_source explicit_user_assertion = true
needs_source _ = false

abbrev pub is_legacy : LineageKind → Bool
is_legacy legacy_governed = true
is_legacy _ = false

abbrev pub is_secret : Sensitivity → Bool
is_secret secret = true
is_secret _ = false

-- the set of a list: each element once
pub set_of : List AuthorityRef → List AuthorityRef
set_of [] = []
set_of (x ∷ xs) = let rest = set_of xs in if contains rest x then rest else x ∷ rest

-- `a != b` fails for two sets when each holds the elements of the other
pub same_set : List AuthorityRef → List AuthorityRef → Bool
same_set xs ys = all (contains ys) xs && all (contains xs) ys

-- the test on `ref_keys` and `snapshot_keys`: no key twice on either side, and the same keys
pub keys_match : List AuthorityRef → List AuthoritySnapshot → Bool
keys_match refs snapshots =
    let ref_keys = set_of refs in
    let snapshot_keys = set_of (map snapshot_ref snapshots) in
    nat_beq (length ref_keys) (length refs)
    && nat_beq (length snapshot_keys) (length snapshots)
    && same_set ref_keys snapshot_keys

unfoldable pub admit_write : MemoryWriteCommand → List AuthoritySnapshot → AdmissionDecision
admit_write command snapshots =
    let reject = λ (reason : String). decision false "reject" reason none none [] in
    let needs = needs_source command.lineage_kind in
    let inherited = inherit_sensitivity snapshots command.sensitivity in
    if is_secret command.sensitivity
    then reject "secret_write_forbidden"
    else if is_legacy command.lineage_kind
    then reject "legacy_lineage_forbidden"
    else if needs && is_empty command.source_refs
    then reject "source_snapshot_missing"
    else if needs && is_empty snapshots
    then reject "source_snapshot_missing"
    else if needs && not (keys_match command.source_refs snapshots)
    then reject "source_snapshot_mismatch"
    else if not inherited.allowed
    then decision false "reject" inherited.reason_code none (some inherited.effective) []
    else if command.requested_lifecycle == active && is_empty command.source_refs
    then decision false "reject" "empty_lineage" none (some inherited.effective) []
    else decision true "allow" "write_allowed" none (some inherited.effective) command.mode_scope

abbrev pub is_restricted : Sensitivity → Bool
is_restricted restricted = true
is_restricted _ = false

abbrev pub is_private : Sensitivity → Bool
is_private private = true
is_private _ = false

unfoldable pub admit_access : AuthoritySnapshot → MemoryAccessRequest → AdmissionDecision
admit_access snapshot request =
    let reject = λ (reason : String).
      decision false "reject" reason (some snapshot) (some snapshot.sensitivity) [] in
    if not (snapshot.lifecycle_state == active)
    then reject "lifecycle_inactive"
    else if ltb (sensitivity_rank request.sensitivity_ceiling)
        (sensitivity_rank snapshot.sensitivity)
    then reject "sensitivity_ceiling_exceeded"
    else if is_secret snapshot.sensitivity
    then reject "secret_access_denied"
    else if is_restricted snapshot.sensitivity && not (request.surface == audit)
    then reject "restricted_access_denied"
    else if is_private snapshot.sensitivity
        && not (contains (daily ∷ sex ∷ []) request.persona_mode)
    then reject "mode_denied"
    else if not (contains snapshot.mode_scope request.persona_mode)
    then reject "mode_denied"
    else if request.surface == inject && not (snapshot.injection_policy == "allow")
    then reject "injection_policy_denied"
    else decision true "allow" "access_allowed" (some snapshot) (some snapshot.sensitivity)
        (request.persona_mode ∷ [])

unfoldable pub admit_injection : AuthoritySnapshot → MemoryAccessRequest → AdmissionDecision
admit_injection snapshot request =
    if not (request.surface == inject)
    then decision false "reject" "mode_denied" (some snapshot) (some snapshot.sensitivity) []
    else admit_access snapshot request

-- `action_targets.get(action)`
unfoldable pub action_target : String → Option LifecycleState
action_target action =
    if action == "activate"
    then some active
    else if action == "supersede"
    then some superseded
    else if action == "retire"
    then some retired
    else if action == "expire"
    then some expired
    else if action == "reject"
    then some rejected
    else if action == "quarantine"
    then some quarantined
    else none

-- `target is state`, where `None` is no state
abbrev pub targets : Option LifecycleState → LifecycleState → Bool
targets none s = false
targets (some t) s = t == s

unfoldable pub resolve_transition : LifecycleState → MemoryTransitionCommand → TransitionDecision
resolve_transition current command =
    let allowed =
      targets (action_target command.action) command.target_state
      && contains (allowed_transitions current) command.target_state in
    record {
      allowed = allowed;
      previous_state = current;
      new_state = command.target_state;
      reason_code = if allowed then "transition_allowed" else "invalid_transition";
    }

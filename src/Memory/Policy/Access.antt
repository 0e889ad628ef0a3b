-- ===== src/Memory/Policy/Access.antt =====
-- What it takes to read a governed memory, and what it takes to inject it into a prompt.
use soul_llink.Base.{◌≤◌, ◌≡◌, ◌≢◌, ◌↔◌, ◌⊎◌, true, arith, string_eq, contains}
use soul_llink.Memory.Contracts.{
  normal, private, restricted, secret, sensitivity_rank, active, inject, audit, daily, sex,
  AuthoritySnapshot, MemoryAccessRequest, persona_eq,
}
use soul_llink.Memory.Policy.{admit_access, admit_injection}

-- The conditions of access, with no order among them.
pub record IsReadable (s : AuthoritySnapshot) (r : MemoryAccessRequest) : Type 0 where
  pub is_active : s.lifecycle_state ≡ active
  pub below_ceiling : sensitivity_rank s.sensitivity ≤ sensitivity_rank r.sensitivity_ceiling
  pub not_secret : s.sensitivity ≢ secret
  pub restricted_audit : s.sensitivity ≡ restricted → r.surface ≡ audit
  pub private_persona : s.sensitivity ≡ private → (r.persona_mode ≡ daily) ⊎ (r.persona_mode ≡ sex)
  pub in_scope : contains s.mode_scope r.persona_mode ≡ true
  pub injectable : r.surface ≡ inject → s.injection_policy ≡ "allow"

-- Access is granted exactly when all the conditions hold, whatever order the code tests them in.
pub admit_access-IsReadable :
    (s : AuthoritySnapshot) (r : MemoryAccessRequest)
    → ((admit_access s r).allowed ≡ true) ↔ IsReadable s r
unfolding admit_access
admit_access-IsReadable s r = ground (arith, string_eq.beq_iff s.injection_policy "allow")

-- A memory that may be injected is active, is normal or private, and is in scope for the persona;
-- a private one only reaches the daily and the sex persona.
pub admit_injection_safe :
    (s : AuthoritySnapshot) (r : MemoryAccessRequest)
    → (admit_injection s r).allowed ≡ true
    → (r.surface ≡ inject)
      × (s.lifecycle_state ≡ active)
      × ((s.sensitivity ≡ normal)
          ⊎ (s.sensitivity ≡ private) × ((r.persona_mode ≡ daily) ⊎ (r.persona_mode ≡ sex)))
      × (contains s.mode_scope r.persona_mode ≡ true)
      × (s.injection_policy ≡ "allow")
unfolding admit_injection admit_access
admit_injection_safe s r h = ground (arith, string_eq.beq_iff s.injection_policy "allow")

-- ===== src/Memory/Policy/Write.antt =====
-- Sensitivity inherited from the sources, and what a write needs to be admitted.
use soul_llink.Base.{
  ℕ, suc, ◌≤◌, ◌≡◌, ◌≢◌, ◌↔◌, refl, sym, ap, ◌∙◌, Bool, true, false, List, [], ◌∷◌, map, some,
  arith, length, all, contains, is_empty, All, Distinct, ==-refl,
}
use soul_llink.Memory.Contracts.{
  Sensitivity, secret, sensitivity_rank, active, legacy_governed, AuthorityRef, AuthoritySnapshot,
  snapshot_ref, MemoryWriteCommand, authority_ref_eq,
}
use soul_llink.Memory.Policy.{
  max_from, inherit_sensitivity, source_effective, set_of, same_set, keys_match, needs_source,
  admit_write,
}

-- The rank of every source is at most `k`.
abbrev pub SourcesBelow : ℕ → List AuthoritySnapshot → Type 0
SourcesBelow k = All (λ s. sensitivity_rank s.sensitivity ≤ k)

SourcesBelow-mono :
    (j k : ℕ) (xs : List AuthoritySnapshot) → j ≤ k → SourcesBelow j xs → SourcesBelow k xs
SourcesBelow-mono j k [] le h = tt
SourcesBelow-mono j k (x ∷ xs) le h = (omega arith, SourcesBelow-mono j k xs le h.1)

max_from_upper :
    (b : Sensitivity) (xs : List AuthoritySnapshot)
    → (sensitivity_rank b ≤ sensitivity_rank (max_from b xs))
      × SourcesBelow (sensitivity_rank (max_from b xs)) xs
unfolding max_from
max_from_upper b [] = (omega arith, tt)
max_from_upper b (x ∷ xs) = ground (arith, max_from_upper b xs, max_from_upper x.sensitivity xs)

max_from_least :
    (b : Sensitivity) (xs : List AuthoritySnapshot) (k : ℕ)
    → sensitivity_rank b ≤ k
    → SourcesBelow k xs
    → sensitivity_rank (max_from b xs) ≤ k
unfolding max_from
max_from_least b [] k p h = p
max_from_least b (x ∷ xs) k p h =
    ground (arith, max_from_least b xs k p h.1, max_from_least x.sensitivity xs k h.0 h.1)

source_effective_upper :
    (xs : List AuthoritySnapshot) → SourcesBelow (sensitivity_rank (source_effective xs)) xs
unfolding source_effective
source_effective_upper [] = tt
source_effective_upper (x ∷ xs) = max_from_upper x.sensitivity xs

source_effective_least :
    (xs : List AuthoritySnapshot) (k : ℕ)
    → SourcesBelow k xs
    → sensitivity_rank (source_effective xs) ≤ k
unfolding source_effective
source_effective_least [] k h = omega arith
source_effective_least (x ∷ xs) k h = max_from_least x.sensitivity xs k h.0 h.1

-- The effective sensitivity is the least one above the request and above every source. The
-- request is allowed exactly when it ranks no source above itself, and is then itself effective.
pub inherit_sensitivity_least :
    (xs : List AuthoritySnapshot) (requested : Sensitivity)
    → let d = inherit_sensitivity xs requested in
      let rank = sensitivity_rank d.effective in
      (sensitivity_rank requested ≤ rank)
      × SourcesBelow rank xs
      × ((k : ℕ) → sensitivity_rank requested ≤ k → SourcesBelow k xs → rank ≤ k)
      × ((d.allowed ≡ true) ↔ SourcesBelow (sensitivity_rank requested) xs)
      × (d.allowed ≡ true → d.effective ≡ requested)
unfolding inherit_sensitivity
inherit_sensitivity_least xs requested =
    let upper = source_effective_upper xs in
    let mono = λ (k : ℕ). SourcesBelow-mono (sensitivity_rank (source_effective xs)) k xs in
    (
      ground (arith, upper),
      ground (arith, upper, mono (sensitivity_rank requested)),
      λ k p h. ground (arith, source_effective_least xs k h),
      (
        λ e. ground (arith, upper, mono (sensitivity_rank requested)),
        λ h. ground (arith, source_effective_least xs (sensitivity_rank requested) h),
      ),
      λ e. ground arith,
    )

-- A set has the elements of its list.
contains-set_of :
    (xs : List AuthorityRef) (a : AuthorityRef) → contains (set_of xs) a ≡ contains xs a
unfolding set_of
contains-set_of [] a = refl
contains-set_of (x ∷ xs) a =
    ground (arith, contains-set_of xs a, contains-set_of xs x, authority_ref_eq.beq_iff a x)

length-set_of : (xs : List AuthorityRef) → length (set_of xs) ≤ length xs
unfolding set_of
length-set_of [] = omega arith
length-set_of (x ∷ xs) = ground (arith, length-set_of xs)

-- A set is as long as its list exactly when the list has no element twice.
set_of-Distinct : (xs : List AuthorityRef) → (length (set_of xs) ≡ length xs) ↔ Distinct xs
unfolding set_of
set_of-Distinct [] = (λ e. tt, λ d. refl)
set_of-Distinct (x ∷ xs) =
    ground (arith, set_of-Distinct xs, length-set_of xs, contains-set_of xs x)

all→contains :
    (p : AuthorityRef → Bool) (xs : List AuthorityRef) (a : AuthorityRef)
    → all p xs ≡ true
    → contains xs a ≡ true
    → p a ≡ true
all→contains p [] a h m = cc
all→contains p (x ∷ xs) a h m = ground (arith, all→contains p xs a, authority_ref_eq.beq_iff a x)

contains→all :
    (p : AuthorityRef → Bool) (xs : List AuthorityRef)
    → ((a : AuthorityRef) → contains xs a ≡ true → p a ≡ true)
    → all p xs ≡ true
contains→all p [] h = refl
contains→all p (x ∷ xs) h =
    let rest = contains→all p xs (λ a m. h a (ground arith)) in
    rw (h x (ground (arith, ==-refl x))) rest

-- Two lists have the same elements.
abbrev pub SameElements : List AuthorityRef → List AuthorityRef → Type 0
SameElements xs ys = (a : AuthorityRef) → contains xs a ≡ contains ys a

same_set_iff : (xs ys : List AuthorityRef) → (same_set xs ys ≡ true) ↔ SameElements xs ys
unfolding same_set
same_set_iff xs ys = (
  λ h a. ground (arith, all→contains (contains ys) xs a, all→contains (contains xs) ys a),
  λ h. ground (
    arith,
    contains→all (contains ys) xs (λ a m. sym (h a) ∙ m),
    contains→all (contains xs) ys (λ a m. h a ∙ m),
  ),
)

-- The references and the snapshots agree: no reference and no snapshot key twice, and each
-- reference has its snapshot, each snapshot its reference.
pub record KeysAgree (refs : List AuthorityRef) (snapshots : List AuthoritySnapshot) : Type 0 where
  pub refs_once : Distinct refs
  pub snapshots_once : Distinct (map snapshot_ref snapshots)
  pub same_keys : SameElements refs (map snapshot_ref snapshots)

length-map_ref : (xs : List AuthoritySnapshot) → length (map snapshot_ref xs) ≡ length xs
length-map_ref [] = refl
length-map_ref (x ∷ xs) = ap suc (length-map_ref xs)

keys_match-KeysAgree :
    (refs : List AuthorityRef) (snapshots : List AuthoritySnapshot)
    → (keys_match refs snapshots ≡ true) ↔ KeysAgree refs snapshots
unfolding keys_match
keys_match-KeysAgree refs snapshots =
    let keys = map snapshot_ref snapshots in
    let (same→, same←) = same_set_iff (set_of refs) (set_of keys) in
    (
      λ h. record {
        refs_once = (set_of-Distinct refs).0 (ground arith);
        snapshots_once = (set_of-Distinct keys).0 (ground (arith, length-map_ref snapshots));
        same_keys =
            λ a. sym (contains-set_of refs a) ∙ same→ (ground arith) a ∙ contains-set_of keys a;
      },
      λ h. ground (
        arith,
        (set_of-Distinct refs).1 h.refs_once,
        (set_of-Distinct keys).1 h.snapshots_once,
        length-map_ref snapshots,
        same← (λ a. contains-set_of refs a ∙ h.same_keys a ∙ sym (contains-set_of keys a)),
      ),
    )

-- The conditions of an admitted write, with no order among them.
pub record IsWritable (c : MemoryWriteCommand) (snapshots : List AuthoritySnapshot) : Type 0 where
  pub not_secret : c.sensitivity ≢ secret
  pub not_legacy : c.lineage_kind ≢ legacy_governed
  pub sourced : needs_source c.lineage_kind ≡ true → c.source_refs ≢ []
  pub sources_known : needs_source c.lineage_kind ≡ true → KeysAgree c.source_refs snapshots
  pub no_downgrade : SourcesBelow (sensitivity_rank c.sensitivity) snapshots
  pub active_sourced : c.requested_lifecycle ≡ active → c.source_refs ≢ []

-- References that are there and agree with the snapshots leave no empty list of snapshots.
KeysAgree-nonempty :
    (refs : List AuthorityRef) (snapshots : List AuthoritySnapshot)
    → refs ≢ []
    → KeysAgree refs snapshots
    → is_empty snapshots ≡ false
KeysAgree-nonempty [] snapshots n h = absurd (n refl)
KeysAgree-nonempty (r ∷ refs) [] n h = ground (arith, h.same_keys r, ==-refl r)
KeysAgree-nonempty (r ∷ refs) (s ∷ snapshots) n h = refl

-- A write is admitted exactly when all the conditions hold; its effective sensitivity is then the
-- requested one and it may be injected in the modes of the command.
pub admit_write-IsWritable :
    (c : MemoryWriteCommand) (snapshots : List AuthoritySnapshot)
    → ((admit_write c snapshots).allowed ≡ true ↔ IsWritable c snapshots)
      × ((admit_write c snapshots).allowed ≡ true
          → ((admit_write c snapshots).effective_sensitivity ≡ some c.sensitivity)
            × ((admit_write c snapshots).injectable_modes ≡ c.mode_scope))
unfolding admit_write
admit_write-IsWritable c snapshots =
    let agree = keys_match-KeysAgree c.source_refs snapshots in
    let inherited = inherit_sensitivity_least snapshots c.sensitivity in
    (
      (
        λ h. record {
          not_secret = ground arith;
          not_legacy = ground arith;
          sourced = ground arith;
          sources_known = λ n. agree.0 (ground arith);
          no_downgrade = inherited.3.0 (ground arith);
          active_sourced = ground arith;
        },
        λ w. ground (
          arith,
          agree.1,
          inherited.3.1 w.no_downgrade,
          w.sourced,
          w.sources_known,
          KeysAgree-nonempty c.source_refs snapshots,
        ),
      ),
      λ h. ground (arith, inherited.4),
    )

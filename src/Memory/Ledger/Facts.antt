-- ===== src/Memory/Ledger/Facts.antt =====
-- What a statement has checked and written when it goes through.
use soul_llink.Base.{
  ℕ, zero, suc, ◌+◌, ◌≡◌, refl, sym, Bool, true, false, not, ◌&&◌, [], ◌∷◌, ◌++◌, map, String,
  Option, none, some, ◌==◌, nat_eq, string_eq, if◌then◌else◌, any, contains, length, filter_by,
  arith,
}
use soul_llink.Memory.Contracts.{lifecycle_eq, active}
use soul_llink.Memory.Ledger.{
  GovernanceRow, CurrentRow, ReceiptRow, Ledger, TxResult, done, refused, raised, Tx, ◌>>=◌,
  is_governance_edge, is_version_of, insert_governance, is_active_row, is_governance_of,
  update_current, set_current, insert_receipt, governance_abort, current_abort, receipt_abort,
  switch_row,
}

pub done-injective :
    {A : Type 0} (a b : A) (l l' : Ledger) → done a l ≡ done b l' → (a ≡ b) × (l ≡ l')
done-injective a b l l' h = (cc, cc)

-- What a chain has done, its first step and then the rest have done.
pub >>=-done :
    {A B : Type 0} (m : Tx A) (next : A → Tx B) (l l' : Ledger) (b : B)
    → (m >>= next) l ≡ done b l'
    → (a : A) × (mid : Ledger) × (m l ≡ done a mid) × (next a mid ≡ done b l')
unfolding ◌>>=◌
>>=-done {A} {B} m next l l' b h = go (m l) refl h
  where
    go :
        (r : TxResult A)
        → m l ≡ r
        → elim r [ done a after ↦ next a after | refused x ↦ refused x | raised e ↦ raised e ]
          ≡ done b l'
        → (a : A) × (mid : Ledger) × (m l ≡ done a mid) × (next a mid ≡ done b l')
    go (done a mid) e k = (a, mid, e, k)
    go (refused x) e k = absurd (cc)
    go (raised x) e k = absurd (cc)

-- Where the first step can only be done in one way, the rest has been done from there.
pub >>=-run :
    {A B : Type 0} (m : Tx A) (next : A → Tx B) (l l' : Ledger) (b : B) (a : A) (mid : Ledger)
    → ((x : A) (y : Ledger) → m l ≡ done x y → (x ≡ a) × (y ≡ mid))
    → (m >>= next) l ≡ done b l'
    → next a mid ≡ done b l'
>>=-run m next l l' b a mid only h =
    let s = >>=-done m next l l' b h in let p = only s.0 s.1 s.2 in rw (sym p.0, sym p.1) s.3

-- A first step that is done passes its result and the ledger on.
pub done->>= :
    {A B : Type 0} (m : Tx A) (next : A → Tx B) (l mid : Ledger) (a : A)
    → m l ≡ done a mid
    → (m >>= next) l ≡ next a mid
unfolding ◌>>=◌
done->>= m next l mid a h = rw (◌>>=◌, h) refl

-- A statement that is done has met no abort.
pub abort-done :
    {A : Type 0} (o : Option String) (r : TxResult A) (a : A) (l : Ledger)
    → elim o [ some e ↦ raised e | none ↦ r ] ≡ done a l
    → (o ≡ none) × (r ≡ done a l)
abort-done (some e) r a l h = absurd (cc)
abort-done none r a l h = (refl, h)

module _ (make_row : ℕ → GovernanceRow) (l : Ledger) where
  pub insert_governance-done :
      (id : ℕ) (l' : Ledger)
      → insert_governance make_row l ≡ done id l'
      → (id ≡ l.next_governance_id)
        × (l' ≡ record l {
          governance = l.governance ++ make_row l.next_governance_id ∷ [];
          next_governance_id = l.next_governance_id + 1;
        })
        × (governance_abort (make_row l.next_governance_id) l ≡ none)
  unfolding insert_governance
  insert_governance-done id l' h =
      let r = abort-done (governance_abort (make_row l.next_governance_id) l) _ id l' h in
      let p = done-injective _ _ _ _ r.1 in (sym p.0, sym p.1, r.0)

pub set_current-done :
    (n old_version_id : ℕ) (row : CurrentRow) (l l' : Ledger)
    → set_current n old_version_id row l ≡ done 1 l'
    → (l' ≡ record l { current = map (switch_row old_version_id row) l.current })
      × (current_abort row l ≡ none)
      × (n ≡ 1)
unfolding set_current
set_current-done zero old_version_id row l l' h =
    absurd (let p = done-injective 0 1 l l' h in omega (arith, p.0))
set_current-done (suc n) old_version_id row l l' h =
    let r = abort-done (current_abort row l) _ 1 l' h in
    let p = done-injective _ _ _ _ r.1 in (sym p.1, r.0, p.0)

-- An update of exactly one row.
pub update_current-done :
    (old_version_id : ℕ) (row : CurrentRow) (l l' : Ledger)
    → update_current old_version_id row l ≡ done 1 l'
    → (l' ≡ record l { current = map (switch_row old_version_id row) l.current })
      × (current_abort row l ≡ none)
      × (length (filter_by (is_active_row row.claim_id old_version_id) l.current) ≡ 1)
unfolding update_current
update_current-done old_version_id row l l' h = set_current-done _ old_version_id row l l' h

pub insert_receipt-done :
    (row : ReceiptRow) (u : Unit {0}) (l l' : Ledger)
    → insert_receipt row l ≡ done u l'
    → (l' ≡ record l { receipts = l.receipts ++ row ∷ [] }) × (receipt_abort row l ≡ none)
unfolding insert_receipt
insert_receipt-done row u l l' h =
    let r = abort-done (receipt_abort row l) _ u l' h in
    let p = done-injective _ _ _ _ r.1 in (sym p.1, r.0)

-- A test that would abort has failed.
pub abort-unless :
    (p : Bool) (e : String) (o : Option String)
    → (if not p then some e else o) ≡ none
    → (p ≡ true) × (o ≡ none)
abort-unless true e o h = (refl, h)
abort-unless false e o h = absurd (cc)

pub abort-when :
    (p : Bool) (e : String) (o : Option String)
    → (if p then some e else o) ≡ none
    → (p ≡ false) × (o ≡ none)
abort-when true e o h = absurd (cc)
abort-when false e o h = (refl, h)

-- An edge of the governance log goes to a version that is there.
pub governance_abort-none :
    (row : GovernanceRow) (l : Ledger)
    → governance_abort row l ≡ none
    → (is_governance_edge row.action row.previous_state row.new_state ≡ true)
      × (any (is_version_of row.claim_id row.claim_version_id) l.versions ≡ true)
unfolding governance_abort
governance_abort-none row l h =
    let r1 = abort-unless (is_governance_edge row.action row.previous_state row.new_state) _ _ h in
    let r2 =
      abort-when
        (row.new_state == active
          && not (any (λ s. s.claim_version_id == row.claim_version_id) l.sources))
        _ _ r1.1 in
    let r3 =
      abort-unless (any (is_version_of row.claim_id row.claim_version_id) l.versions) _ _ r2.1 in
    (r1.0, r3.0)

-- A row that memory_current takes is not guarded, and the governance log has its event.
pub current_abort-none :
    (row : CurrentRow) (l : Ledger)
    → current_abort row l ≡ none
    → (contains l.guards row.claim_id ≡ false) × (any (is_governance_of row) l.governance ≡ true)
unfolding current_abort
current_abort-none row l h =
    let r1 = abort-when (contains l.guards row.claim_id) _ _ h in
    let r2 =
      abort-unless (any (is_version_of row.claim_id row.claim_version_id) l.versions) _ _ r1.1 in
    let r3 = abort-unless (any (is_governance_of row) l.governance) _ _ r2.1 in (r1.0, r3.0)

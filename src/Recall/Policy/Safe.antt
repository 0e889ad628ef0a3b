-- ===== src/Recall/Policy/Safe.antt =====
-- What packages/pcltm/retrieval_policy.py never returns.
use soul_llink.Base.{
  ℕ, zero, suc, ◌≤◌, ◌≡◌, refl, inl, inr, Bool, true, false, Option, List, [], ◌∷◌, String, arith,
  length, ◌==◌, string_eq, ==→≡, contains, filter_by, take, All, All-take, Bool-cases,
}
use soul_llink.Recall.Policy.{
  relationship_modes, work_modes, RetrievalPolicyDecision, decide_for, decision_for, EventRow,
  get_or_text, row_mode, allowed, limit_or, text_or, retrieve,
}

-- A row that may be returned in a mode.
pub record IsPermitted (mode row_mode sensitivity : String) : Type 0 where
  pub not_restricted : (sensitivity == "restricted") ≡ false
  pub not_secret : (sensitivity == "secret") ≡ false
  pub private_only : (sensitivity == "private") ≡ true → contains relationship_modes mode ≡ true
  pub in_work : contains work_modes mode ≡ true → contains work_modes row_mode ≡ true
  pub in_relationship :
      contains work_modes mode ≡ false
      → contains relationship_modes mode ≡ true
      → contains relationship_modes row_mode ≡ true
  pub elsewhere :
      contains work_modes mode ≡ false
      → contains relationship_modes mode ≡ false
      → contains ("unknown" ∷ work_modes) row_mode ≡ true
  pub not_cron : (mode == "cron") ≡ false

decide_for-never :
    (mode : String)
    → ((decide_for mode).allow_restricted ≡ false) × ((decide_for mode).allow_secret ≡ false)
unfolding decide_for
decide_for-never mode = ground arith

decide_for-private :
    (mode : String)
    → (decide_for mode).allow_private ≡ true
    → contains relationship_modes mode ≡ true
unfolding decide_for
decide_for-private mode h = ground arith

decide_for-work :
    (mode row : String)
    → contains work_modes mode ≡ true
    → contains (decide_for mode).allowed_modes row ≡ true
    → contains work_modes row ≡ true
unfolding decide_for
decide_for-work mode row h k = ground arith

decide_for-relationship :
    (mode row : String)
    → contains work_modes mode ≡ false
    → contains relationship_modes mode ≡ true
    → contains (decide_for mode).allowed_modes row ≡ true
    → contains relationship_modes row ≡ true
unfolding decide_for
decide_for-relationship mode row w h k = ground arith

decide_for-elsewhere :
    (mode row : String)
    → contains work_modes mode ≡ false
    → contains relationship_modes mode ≡ false
    → contains (decide_for mode).allowed_modes row ≡ true
    → contains ("unknown" ∷ work_modes) row ≡ true
unfolding decide_for
decide_for-elsewhere mode row w h k = ground arith

-- Nothing is allowed in the mode of scheduled jobs.
cron_allows :
    (mode row : String) → mode ≡ "cron" → contains (decide_for mode).allowed_modes row ≡ false
unfolding decide_for
cron_allows mode row e = rw e refl

All-filtered :
    {A : Type 0} (P : A → Type 0) (p : A → Bool)
    → ((x : A) → p x ≡ true → P x)
    → (xs : List A) → All P (filter_by p xs)
All-filtered P p f [] = tt
All-filtered P p f (x ∷ xs) = elim (Bool-cases (p x)) [
  | inl e ↦ rw e (f x e, All-filtered P p f xs)
  | inr e ↦ rw e (All-filtered P p f xs)
]

length-take_le : {A : Type 0} (n : ℕ) (xs : List A) → length (take n xs) ≤ n
length-take_le zero xs = omega arith
length-take_le (suc n) [] = omega arith
length-take_le (suc n) (x ∷ xs) = omega (arith, length-take_le n xs)

not_true : (b : Bool) → (b ≡ true → ⊥) → b ≡ false
not_true true f = absurd (f refl)
not_true false f = refl

cron_absurd :
    (mode row : String) → mode ≡ "cron" → contains (decide_for mode).allowed_modes row ≡ true → ⊥
cron_absurd mode row e h = let none_listed = cron_allows mode row e in cc

decide_for-limit : (mode : String) → (decide_for mode).limit ≡ 20
unfolding decide_for
decide_for-limit mode = ground arith

length_within :
    {A : Type 0} (limit : Option ℕ) (default : ℕ) (xs : List A)
    → default ≡ 20
    → length (take (limit_or limit default) xs) ≤ limit_or limit 20
length_within limit default xs e = rw e (length-take_le (limit_or limit 20) xs)

module _ (lower : String → String) where
  -- The mode that a call is decided for.
  abbrev pub effective_mode : String → String
  effective_mode mode = lower (text_or mode "unknown")

  abbrev pub sensitivity_of : EventRow → String
  sensitivity_of row = get_or_text row.sensitivity "normal"

  -- The tests of `_allowed` that a row has passed.
  allowed_tests :
      (row : EventRow) (d : RetrievalPolicyDecision)
      → d.allow_restricted ≡ false
      → d.allow_secret ≡ false
      → allowed lower row d ≡ true
      → ((sensitivity_of row == "restricted") ≡ false)
        × ((sensitivity_of row == "secret") ≡ false)
        × ((sensitivity_of row == "private") ≡ true → d.allow_private ≡ true)
        × (contains d.allowed_modes (row_mode lower row) ≡ true)
  unfolding allowed
  allowed_tests row d r s h = (ground arith, ground arith, λ p. ground arith, ground arith)

  allowed-IsPermitted :
      (mode : String) (row : EventRow)
      → allowed lower row (decision_for lower mode) ≡ true
      → IsPermitted (effective_mode mode) (row_mode lower row) (sensitivity_of row)
  unfolding decision_for
  allowed-IsPermitted mode row h =
      let m = effective_mode mode in
      let (r, s) = decide_for-never m in
      let (restricted, secret, private, listed) = allowed_tests row (decide_for m) r s h in
      record {
        not_restricted = restricted;
        not_secret = secret;
        private_only = λ p. decide_for-private m (private p);
        in_work = λ w. decide_for-work m (row_mode lower row) w listed;
        in_relationship = λ w k. decide_for-relationship m (row_mode lower row) w k listed;
        elsewhere = λ w k. decide_for-elsewhere m (row_mode lower row) w k listed;
        not_cron =
            not_true (m == "cron")
              (λ c. cron_absurd m (row_mode lower row) (==→≡ m "cron" c) listed);
      }

  decision_limit : (mode : String) → (decision_for lower mode).limit ≡ 20
  unfolding decision_for
  decision_limit mode = decide_for-limit (effective_mode mode)

  -- Whatever the store finds, every row that `retrieve` returns is neither restricted nor secret
  -- and is private only in a relationship mode; in a work mode it is of a work mode, in a
  -- relationship mode of such a mode, and in any other mode of a work mode or unknown, and there
  -- is none in the mode of scheduled jobs. There are at most as many rows as the limit says.
  pub retrieve-IsPermitted :
      (search_events : String → ℕ → Bool → List EventRow) (mode query : String)
      (tokens : List String) (include_sensitive : Bool) (limit : Option ℕ)
      → All
          (λ row. IsPermitted (effective_mode mode) (row_mode lower row) (sensitivity_of row))
          (retrieve lower search_events mode query tokens include_sensitive limit)
        × (length (retrieve lower search_events mode query tokens include_sensitive limit)
            ≤ limit_or limit 20)
  unfolding retrieve
  retrieve-IsPermitted search_events mode query tokens include_sensitive limit = (
    All-take _ (limit_or limit (decision_for lower mode).limit) _
        (All-filtered _ _ (allowed-IsPermitted mode) _),
    length_within limit (decision_for lower mode).limit _ (decision_limit mode),
  )

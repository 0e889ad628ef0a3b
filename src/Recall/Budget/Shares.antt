-- ===== src/Recall/Budget/Shares.antt =====
-- The limits of packages/pcltm/context_budget.py share the context window out, and a report in
-- which no bucket is truncated is within the window.
use soul_llink.Base.{
  ℕ, ◌+◌, ◌-◌, ◌*◌, ◌≤◌, ◌<◌, ◌≡◌, refl, ◌↔◌, true, false, Option, List, [], ◌∷◌, arith, ltb,
  lt→ltb, any, sum_by, map, ok,
}
use soul_llink.Recall.Budget.{
  ContextBudgetBucket, spent_buckets, all_buckets, ContextBudgetLine, ContextBudgetReport,
  within_budget, Ratios, ratios_or, get_ratio, total_ratio, share, bucket_limit, bucket_truncated,
  WindowContents, count_tokens, bucket_count, budget_line, total_tokens, estimate_context_budget,
}
use native.Mathlib.Nat.{div-mul-le_self, le_trans, mul-le-mul_left, le_of_mul-le-mul_right}

-- The shares of some buckets, times the total, are at most their ratios' part of the window.
shares-le :
    (window : ℕ) (ratios : Ratios) (buckets : List ContextBudgetBucket)
    → sum_by (share window ratios) buckets * total_ratio ratios
      ≤ window * sum_by (get_ratio ratios) buckets
unfolding share
shares-le window ratios [] = grind arith
shares-le window ratios (b ∷ buckets) = grind (
  arith,
  shares-le window ratios buckets,
  div-mul-le_self (window * get_ratio ratios b) (total_ratio ratios),
)

spent-le-total : (ratios : Ratios) → sum_by (get_ratio ratios) spent_buckets ≤ total_ratio ratios
unfolding total_ratio
spent-le-total ratios = omega arith

shares_fit :
    (window : ℕ) (ratios : Ratios)
    → 0 < total_ratio ratios
    → sum_by (share window ratios) spent_buckets ≤ window
shares_fit window ratios h =
    le_of_mul-le-mul_right {k = total_ratio ratios}
      (le_trans (shares-le window ratios spent_buckets)
        (mul-le-mul_left window (spent-le-total ratios)))
      h

limits_sum :
    (window : ℕ) (ratios : Ratios)
    → 0 < total_ratio ratios
    → sum_by (bucket_limit window ratios) all_buckets ≡ window
unfolding bucket_limit
limits_sum window ratios h = omega (arith, shares_fit window ratios h)

abbrev lines_of : ℕ → WindowContents → Ratios → List ContextBudgetLine
lines_of window c ratios = map (budget_line window c ratios) all_buckets

total_tokens_lem :
    (window : ℕ) (c : WindowContents) (ratios : Ratios)
    → total_tokens (lines_of window c ratios) ≡ sum_by (count_tokens c) spent_buckets
unfolding total_tokens budget_line bucket_count
total_tokens_lem window c ratios = refl

sum_by_le :
    (f g : ContextBudgetBucket → ℕ) (buckets : List ContextBudgetBucket)
    → any (λ b. ltb (g b) (f b)) buckets ≡ false
    → sum_by f buckets ≤ sum_by g buckets
sum_by_le f g [] h = omega arith
sum_by_le f g (b ∷ buckets) h = ground (arith, sum_by_le f g buckets)

counts_sum :
    (window : ℕ) (c : WindowContents)
    → sum_by (bucket_count window c) all_buckets
      ≡ sum_by (count_tokens c) spent_buckets + (window - sum_by (count_tokens c) spent_buckets)
unfolding bucket_count
counts_sum window c = omega arith

not_truncated :
    (window : ℕ) (c : WindowContents) (ratios : Ratios)
    → any (λ line. line.truncated) (lines_of window c ratios) ≡ false
    → sum_by (count_tokens c) spent_buckets ≤ sum_by (share window ratios) spent_buckets
unfolding budget_line bucket_count bucket_limit bucket_truncated
not_truncated window c ratios h = sum_by_le (count_tokens c) (share window ratios) spent_buckets h

-- What a report says of the window, the limits of its lines and their counts.
pub record IsAccounted (window : ℕ) (c : WindowContents) (r : ContextBudgetReport) : Type 0 where
  pub shared_out : sum_by (λ line. line.token_limit) r.lines ≡ window
  pub counted : r.estimated_total_tokens ≡ sum_by (count_tokens c) spent_buckets
  pub reserved :
      sum_by (λ line. line.token_count) r.lines
      ≡ r.estimated_total_tokens + (window - r.estimated_total_tokens)
  pub fits : (within_budget r ≡ true) ↔ (r.estimated_total_tokens ≤ window)
  pub enough : any (λ line. line.truncated) r.lines ≡ false → within_budget r ≡ true

report-IsAccounted :
    (window : ℕ) (c : WindowContents) (ratios : Ratios)
    → 0 < total_ratio ratios
    → IsAccounted window c (record {
      context_window = window;
      lines = lines_of window c ratios;
      estimated_total_tokens = total_tokens (lines_of window c ratios);
      over_budget_tokens = total_tokens (lines_of window c ratios) - window;
    })
unfolding budget_line within_budget
report-IsAccounted window c ratios h = record {
  shared_out = limits_sum window ratios h;
  counted = total_tokens_lem window c ratios;
  reserved = rw (total_tokens_lem window c ratios) (counts_sum window c);
  fits = ground arith;
  enough = λ e.
      let fewer = not_truncated window c ratios e in
      ground (arith, total_tokens_lem window c ratios, shares_fit window ratios h);
}

-- With a window and a ratio that are positive there is a report. Its limits share the window out
-- exactly, it counts every bucket once, and the reserve is what is left of the window. It is
-- within its budget exactly when the tokens fit the window, and so it is when no line is truncated.
pub estimate_context_budget-IsAccounted :
    (window : ℕ) (c : WindowContents) (ratios : Option Ratios)
    → 0 < window
    → 0 < total_ratio (ratios_or ratios)
    → (r : ContextBudgetReport) × (estimate_context_budget window c ratios ≡ ok r)
      × IsAccounted window c r
unfolding estimate_context_budget
estimate_context_budget-IsAccounted window c ratios h k = (
  _,
  rw (lt→ltb 0 window h, lt→ltb 0 (total_ratio (ratios_or ratios)) k),
  report-IsAccounted window c (ratios_or ratios) k,
)

-- ===== src/Persona/Manager/Session.antt =====
-- A manager over many turns and resets, and what its summary says in the end.
use soul_llink.Base.{
  ◌+◌, ◌≤◌, ◌<◌, ◌≡◌, refl, ap, sym, ◌∙◌, Bool, true, false, List, [], ◌∷◌, String, Option, none,
  some, is_some, arith, inl, inr, Bool-cases, if◌then◌else◌,
}
use soul_llink.Persona.Types.{Mode, ModeDecision}
use soul_llink.Persona.Transition.{RoutingConfig, or_else}
use mathlib.Core.Path.{subst}
use soul_llink.Persona.Shadow.{Summary, reset}
use soul_llink.Persona.Shadow.Counts.{tally, get_summary_adds_up}
use soul_llink.Persona.Manager.{Manager, manage, reset_shadow_stats, get_shadow_summary}
use soul_llink.Persona.Manager.Recording.{IsReady, KeepsReady, manage-KeepsReady}

-- What a host asks of the manager.
pub data HostCall : Type 0 where
  turn_call : Option Mode → ModeDecision → List String → Option String → Bool → HostCall
  reset_call : HostCall

abbrev pub serve_call : RoutingConfig → HostCall → Manager → Manager
serve_call cfg (turn_call previous d flags tier enabled) m =
    (manage cfg previous d flags tier enabled m).2
serve_call cfg reset_call m = reset_shadow_stats m

abbrev pub run_session : RoutingConfig → List HostCall → Manager → Manager
run_session cfg [] m = m
run_session cfg (call ∷ calls) m = run_session cfg calls (serve_call cfg call m)

AddsUp : Summary → Type 0
AddsUp s =
    (s.agreements + s.disagreement_count ≡ s.total_decisions)
    × (tally s.disagreement_by_type ≡ s.disagreement_count)
    × (s.agreement_rate.0 ≤ s.agreement_rate.1)
    × (0 < s.agreement_rate.1)

reset-KeepsReady : (m : Manager) → IsReady m → KeepsReady m (reset_shadow_stats m)
unfolding reset_shadow_stats reset
reset-KeepsReady m h = elim (Bool-cases m.enable_shadow) [
  | inl e ↦ rw e (
    record { shadowed = λ q. refl; consistent = record { counted = refl; differing = refl } },
    refl,
    refl,
  )
  | inr e ↦
      rw e (record { shadowed = λ q. sym e ∙ h.shadowed q; consistent = h.consistent }, refl, refl)
]

serve_call-KeepsReady :
    (cfg : RoutingConfig) (call : HostCall) (m : Manager)
    → IsReady m
    → KeepsReady m (serve_call cfg call m)
serve_call-KeepsReady cfg (turn_call previous d flags tier enabled) m h =
    manage-KeepsReady cfg previous d flags tier enabled m h
serve_call-KeepsReady cfg reset_call m h = reset-KeepsReady m h

run_session-KeepsReady :
    (cfg : RoutingConfig) (calls : List HostCall) (m : Manager)
    → IsReady m
    → KeepsReady m (run_session cfg calls m)
run_session-KeepsReady cfg [] m h = (h, refl, refl)
run_session-KeepsReady cfg (call ∷ calls) m h =
    let (ready, shadow, bounded) = serve_call-KeepsReady cfg call m h in
    let (ready', shadow', bounded') =
      run_session-KeepsReady cfg calls (serve_call cfg call m) ready in
    (ready', shadow' ∙ shadow, bounded' ∙ bounded)

-- the summary that is reported, if it is
report_is : (b : Bool) (s s' : Summary) → (if b then some s' else none) ≡ some s → s' ≡ s
report_is true s s' e = ap (λ o. or_else o s') e
report_is false s s' e = ground arith

is_some-get_shadow_summary : (m : Manager) → is_some (get_shadow_summary m) ≡ m.enable_shadow
unfolding get_shadow_summary
is_some-get_shadow_summary m = elim (Bool-cases m.enable_shadow) [
  | inl e ↦ rw e refl
  | inr e ↦ rw e refl
]

get_shadow_summary-AddsUp :
    (m : Manager) (s : Summary) → IsReady m → get_shadow_summary m ≡ some s → AddsUp s
unfolding get_shadow_summary AddsUp
get_shadow_summary-AddsUp m s h e =
    subst AddsUp (report_is m.enable_shadow s _ e)
      (get_summary_adds_up m.shadow_comparator h.consistent)

-- After any turns and resets of a ready manager there is a summary exactly when the shadow table
-- was on at the start, and it adds up: agreements and disagreements make the total, the counts by
-- type make the disagreements, and the agreement rate is at most one with a denominator not zero.
pub run_session-summary :
    (cfg : RoutingConfig) (calls : List HostCall) (m : Manager)
    → IsReady m
    → let report = get_shadow_summary (run_session cfg calls m) in
      (is_some report ≡ m.enable_shadow)
      × ((s : Summary)
          → report ≡ some s
          → (s.agreements + s.disagreement_count ≡ s.total_decisions)
            × (tally s.disagreement_by_type ≡ s.disagreement_count)
            × (s.agreement_rate.0 ≤ s.agreement_rate.1)
            × (0 < s.agreement_rate.1))
unfolding AddsUp
run_session-summary cfg calls m h =
    let (ready, shadow, bounded) = run_session-KeepsReady cfg calls m h in
    (
      is_some-get_shadow_summary (run_session cfg calls m) ∙ shadow,
      λ s e. get_shadow_summary-AddsUp (run_session cfg calls m) s ready e,
    )

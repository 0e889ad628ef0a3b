-- ===== src/Semantic/Tests.antt =====
-- Facts of one group that meet, and the theorems at them.
use soul_llink.Base.{
  ap, ℕ, zero, suc, ◌-◌, ◌≡◌, refl, arith, Bool, false, ◌||◌, [], ◌∷◌, ◌++◌, String, Option, none,
  some, length, length-append, ltb, map, Distinct, string_eq, nat_eq, ◌==◌, All, ok, raise,
  value_error,
}
use soul_llink.Base.Text.{Text}
use soul_llink.Semantic.Dates.{offset, IsIsoFormat}
use soul_llink.Semantic.Fact.{TemporalFact, make_fact, to_dict, from_dict}
use soul_llink.Semantic.Fact.RoundTrip.{from_dict-to_dict}
use soul_llink.Semantic.Store.{SemanticStore, get}
use soul_llink.Semantic.Resolver.{
  ConflictResolution, resolve, resolution, active_conflicts, can_supersede,
}
use soul_llink.Semantic.Resolver.Closing.{IsKeptOrClosed, resolve-IsKeptOrClosed}

abbrev fact : String → String → ℕ → ℕ → TemporalFact
fact id object confidence valid_from = record {
  memory_id = id;
  subject = "user";
  predicate = "editor";
  object = object;
  confidence = confidence;
  valid_from = valid_from;
  valid_until = none;
  source_refs = "event:1" ∷ [];
  stability = "medium";
  namespace = "user_preference";
  conflict_group = some "g";
  supersedes = [];
  superseded_by = none;
  write_reason = "said so";
  last_verified_at = none;
}

abbrev old : TemporalFact
old = fact "old" "vim" 8000 10

abbrev candidate : TemporalFact
candidate = fact "new" "emacs" 9000 20

abbrev store : SemanticStore
store = old ∷ fact "same" "emacs" 5000 5 ∷ []

abbrev is_later : ℕ → ℕ → Bool
is_later m n = ltb n m

abbrev likes : String → String → Bool
likes text part = false

one_key : Distinct (map (λ f. f.memory_id) store)
one_key = (refl, (refl, tt))

-- a date in unary, with its offset
abbrev zeros : ℕ → Text
zeros zero = []
zeros (suc n) = 48 ∷ zeros n

length-zeros : (n : ℕ) → length (zeros n) ≡ n
length-zeros zero = refl
length-zeros (suc n) = omega (arith, length-zeros n)

zeros_unsigned : (n : ℕ) → All (λ c. (c == 43 || c == 90) ≡ false) (zeros n)
zeros_unsigned zero = tt
zeros_unsigned (suc n) = (refl, zeros_unsigned n)

abbrev unary_text : ℕ → Text
unary_text n = zeros n ++ offset

abbrev unary_date : Text → Option ℕ
unary_date text = some (length text - 6)

unary_parses : (n : ℕ) → length (unary_text n) - 6 ≡ n
unary_parses n = omega (arith, length-append (zeros n) offset, length-zeros n)

unary : IsIsoFormat unary_text unary_date
unary = record {
  local = zeros;
  ends = λ n. refl;
  unsigned = zeros_unsigned;
  parses = λ n. ap {B = Option ℕ} (λ k. some k) (unary_parses n);
}

old_made : make_fact old ≡ ok old
unfolding make_fact
old_made = refl

from_dict-to_dict_example :
    from_dict unary_text unary_date 99 (to_dict unary_text unary_date old) ≡ ok old
from_dict-to_dict_example = from_dict-to_dict unary_text unary_date unary 99 old old_made

old_there : get "old" store ≡ some old
unfolding get
old_there = refl

resolve-IsKeptOrClosed_example :
    IsKeptOrClosed candidate 30 old (resolve is_later likes 30 candidate store).1
resolve-IsKeptOrClosed_example =
    resolve-IsKeptOrClosed is_later likes 30 candidate store old one_key old_there refl

abbrev answer : ConflictResolution
answer =
    resolution is_later likes (record candidate { supersedes = "old" ∷ [] }) ("old" ∷ [])
      "candidate_superseded_conflicting_fact"

answers : (resolve is_later likes 30 candidate store).0 ≡ ok answer
unfolding resolve active_conflicts can_supersede
answers = refl

-- A call at a time before the old fact's start raises, with the candidate stored and the old fact
-- active beside it.
half_written : resolve is_later likes 5 candidate store ≡ (
  raise (value_error "valid_until cannot be earlier than valid_from"),
  store ++ answer.fact ∷ [],
)
unfolding resolve active_conflicts can_supersede
half_written = refl

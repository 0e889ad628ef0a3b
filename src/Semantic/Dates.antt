-- ===== src/Semantic/Dates.antt =====
-- The texts of dates in packages/pcltm/memory/temporal_fact.py. A date is an instant in UTC, as a
-- natural; `isoformat` and `fromisoformat` stand for the methods of Python's datetime.
use soul_llink.Base.{
  ℕ, zero, suc, ◌-◌, ◌≡◌, refl, sym, ◌∙◌, ap, false, ◌||◌, [], ◌∷◌, ◌++◌, Option, none, some, ◌==◌,
  nat_eq, arith, if◌then◌else◌, length, is_empty, All, Result, ok, raise, value_error,
}
use soul_llink.Base.Text.{Text, codes, starts_with}

-- `text.replace(old, new)`, past the rest of an occurrence
unfoldable pub replace_from : Text → Text → ℕ → Text → Text
unfolding starts_with
replace_from old new skip [] = []
replace_from old new (suc skip) (c ∷ text) = replace_from old new skip text
replace_from old new zero (c ∷ text) =
    let kept = replace_from old new zero text in
    let skipped = replace_from old new (length old - 1) text in
    if starts_with old (c ∷ text) then new ++ skipped else c ∷ kept

abbrev pub offset : Text
offset = codes "+00:00"

abbrev pub zulu : Text
zulu = codes "Z"

module _ (isoformat : ℕ → Text) (fromisoformat : Text → Option ℕ) where
  -- `datetime_to_text`
  unfoldable pub datetime_to_text : Option ℕ → Option Text
  unfolding replace_from
  datetime_to_text none = none
  datetime_to_text (some t) = some (replace_from offset zulu 0 (isoformat t))

  -- `datetime_from_text`
  unfoldable pub datetime_from_text : Option Text → Result (Option ℕ)
  unfolding replace_from
  datetime_from_text none = ok none
  datetime_from_text (some text) =
      if is_empty text then ok none else elim (fromisoformat (replace_from zulu offset 0 text)) [
        | none ↦ raise (value_error "Invalid isoformat string")
        | some t ↦ ok (some t)
      ]

-- What Python documents of the text of an instant in UTC: it ends in the offset, has no sign and no
-- letter Z before, and is read back as the instant.
pub record IsIsoFormat (isoformat : ℕ → Text) (fromisoformat : Text → Option ℕ) : Type 0 where
  pub local : ℕ → Text
  pub ends : (t : ℕ) → isoformat t ≡ local t ++ offset
  pub unsigned : (t : ℕ) → All (λ c. (c == 43 || c == 90) ≡ false) (local t)
  pub parses : (t : ℕ) → fromisoformat (isoformat t) ≡ some t

no_sign : (c : ℕ) → (c == 43 || c == 90) ≡ false → (43 == c) ≡ false
no_sign c h = ground arith

no_zulu : (c : ℕ) → (c == 43 || c == 90) ≡ false → (90 == c) ≡ false
no_zulu c h = ground arith

replace_offset :
    (local : Text)
    → All (λ c. (c == 43 || c == 90) ≡ false) local
    → replace_from offset zulu 0 (local ++ offset) ≡ local ++ zulu
unfolding replace_from
replace_offset [] h = refl
replace_offset (c ∷ local) h = rw (no_sign c h.0, replace_offset local h.1) refl

replace_zulu :
    (local : Text)
    → All (λ c. (c == 43 || c == 90) ≡ false) local
    → replace_from zulu offset 0 (local ++ zulu) ≡ local ++ offset
unfolding replace_from
replace_zulu [] h = refl
replace_zulu (c ∷ local) h = rw (no_zulu c h.0, replace_zulu local h.1) refl

is_empty-zulu : (local : Text) → is_empty (local ++ zulu) ≡ false
is_empty-zulu [] = refl
is_empty-zulu (c ∷ local) = refl

module _ (isoformat : ℕ → Text) (fromisoformat : Text → Option ℕ)
    (iso : IsIsoFormat isoformat fromisoformat) where
  datetime_to_text-some :
      (t : ℕ) → datetime_to_text isoformat fromisoformat (some t) ≡ some (iso.local t ++ zulu)
  unfolding datetime_to_text
  datetime_to_text-some t = rw (iso.ends t, replace_offset (iso.local t) (iso.unsigned t)) refl

  datetime_from_text-zulu :
      (t : ℕ)
      → datetime_from_text isoformat fromisoformat (some (iso.local t ++ zulu)) ≡ ok (some t)
  unfolding datetime_from_text
  datetime_from_text-zulu t =
      let back : fromisoformat (replace_from zulu offset 0 (iso.local t ++ zulu)) ≡ some t =
        ap {B = Option ℕ} fromisoformat
          (replace_zulu (iso.local t) (iso.unsigned t) ∙ sym (iso.ends t))
        ∙ iso.parses t in
      rw (is_empty-zulu (iso.local t), back) refl

  datetime_from_text-none :
      datetime_from_text isoformat fromisoformat (datetime_to_text isoformat fromisoformat none)
      ≡ ok none
  unfolding datetime_from_text datetime_to_text
  datetime_from_text-none = refl

  -- A date that is written is read back.
  pub datetime_from_text-to_text :
      (date : Option ℕ)
      → datetime_from_text isoformat fromisoformat (datetime_to_text isoformat fromisoformat date)
        ≡ ok date
  datetime_from_text-to_text none = datetime_from_text-none
  datetime_from_text-to_text (some t) = rw (datetime_to_text-some t) (datetime_from_text-zulu t)

-- ===== src/Config/Overrides/Kinds.antt =====
-- What one variable of `applyEnvOverrides` of internal/config/config.go does to its field, by the
-- kind of the field.
use submitter_smtp_daemon.Config.Loading.{
  override, override_bool, override_int, override_list, parse_int, or_old,
}
use submitter_smtp_daemon.Prelude.{
  Bool, List, Option, Text, [], inl, inr, none, refl, some, split, text_eq, txt, ℤ, ◌∷◌, ◌≡◌, ◌≢◌,
  ◌↔◌, ◌⊎◌,
}

-- A variable that is not empty replaces a text,
abbrev pub IsText : Text → Text → Text → Type 0
IsText v old new = (v ≡ []) × (new ≡ old) ⊎ (v ≢ []) × (new ≡ v)

-- a list by its parts between the commas,
abbrev pub IsTextList : Text → List Text → List Text → Type 0
IsTextList v old new = (v ≡ []) × (new ≡ old) ⊎ (v ≢ []) × (new ≡ split b',' v)

-- a flag by whether it is "true",
abbrev pub IsFlag : Text → Bool → Bool → Type 0
IsFlag v old new = (v ≡ []) × (new ≡ old) ⊎ (v ≢ []) × (new ≡ text_eq v (txt "true"))

-- and a number by the decimal that it is, if it is one.
abbrev pub IsNumber : Text → ℤ → ℤ → Type 0
IsNumber v old new =
    (parse_int v ≡ none) × (new ≡ old) ⊎ ((n : ℤ) × (parse_int v ≡ some n) × (new ≡ n))

pub IsText-iff : (v old new : Text) → IsText v old new ↔ (new ≡ override v old)
unfolding override
IsText-iff [] old new =
    (λ h. elim h [ inl k ↦ k.1 | inr k ↦ absurd (k.0 refl) ], λ e. inl (refl, e))
IsText-iff (c ∷ v) old new =
    (λ h. elim h [ inl k ↦ absurd (cc (k.0)) | inr k ↦ k.1 ], λ e. inr (λ q. cc q, e))

pub IsTextList-iff :
    (v : Text) (old new : List Text) → IsTextList v old new ↔ (new ≡ override_list v old)
unfolding override_list
IsTextList-iff [] old new =
    (λ h. elim h [ inl k ↦ k.1 | inr k ↦ absurd (k.0 refl) ], λ e. inl (refl, e))
IsTextList-iff (c ∷ v) old new =
    (λ h. elim h [ inl k ↦ absurd (cc (k.0)) | inr k ↦ k.1 ], λ e. inr (λ q. cc q, e))

pub IsFlag-iff : (v : Text) (old new : Bool) → IsFlag v old new ↔ (new ≡ override_bool v old)
unfolding override_bool
IsFlag-iff [] old new =
    (λ h. elim h [ inl k ↦ k.1 | inr k ↦ absurd (k.0 refl) ], λ e. inl (refl, e))
IsFlag-iff (c ∷ v) old new =
    (λ h. elim h [ inl k ↦ absurd (cc (k.0)) | inr k ↦ k.1 ], λ e. inr (λ q. cc q, e))

or_old_iff :
    (p : Option ℤ) (old new : ℤ)
    → ((p ≡ none) × (new ≡ old) ⊎ ((n : ℤ) × (p ≡ some n) × (new ≡ n))) ↔ (new ≡ or_old p old)
or_old_iff none old new =
    (λ h. elim h [ inl k ↦ k.1 | inr (n, e, q) ↦ absurd (cc e) ], λ e. inl (refl, e))
or_old_iff (some m) old new =
    (λ h. elim h [ inl k ↦ absurd (cc (k.0)) | inr (n, e, q) ↦ cc (e, q) ], λ e. inr (m, refl, e))

pub IsNumber-iff : (v : Text) (old new : ℤ) → IsNumber v old new ↔ (new ≡ override_int v old)
unfolding override_int parse_int
IsNumber-iff [] old new = or_old_iff none old new
IsNumber-iff (c ∷ v) old new = or_old_iff (parse_int (c ∷ v)) old new

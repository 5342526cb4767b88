-- ===== src/Prelude/Maps.antt =====
-- Go maps with string keys, as association lists in which the newest value of a key stands at the
-- key's first place.
use mathlib.Core.Path.{◌≡◌, refl}
use mathlib.Core.Logic.{inl, inr}
use mathlib.Core.List.{List, [], ◌∷◌}
use mathlib.Core.Option.{Option, none, some}
use submitter_smtp_daemon.Prelude.Tests.{Bool-cases, if◌then◌else◌}
use submitter_smtp_daemon.Prelude.Lists.{All}
use submitter_smtp_daemon.Prelude.Bytes.{Text, text_eq, text_eq_iff}
use native.Mathlib.Omega.{arith}

abbrev pub Map {ℓ} : Type ℓ → Type ℓ
Map A = List (Text × A)

module _ {ℓ} {A : Type ℓ} where
  unfoldable pub look_up : Text → Map A → Option A
  look_up key [] = none
  look_up key (e ∷ es) = let rest = look_up key es in if text_eq e.0 key then some e.1 else rest

  unfoldable pub set_key : Text → A → Map A → Map A
  set_key key a [] = (key, a) ∷ []
  set_key key a (e ∷ es) =
      let rest = set_key key a es in if text_eq e.0 key then (e.0, a) ∷ es else e ∷ rest

  pub look_up-set_key :
      (key j : Text) (a : A) (es : Map A)
      → look_up j (set_key key a es) ≡ (if text_eq key j then some a else look_up j es)
  unfolding look_up set_key
  look_up-set_key key j a [] = refl
  look_up-set_key key j a ((k, b) ∷ es) = elim (Bool-cases (text_eq k key)) [
    | inl same ↦ ground (arith, text_eq_iff k key, text_eq_iff key j, text_eq_iff k j)
    | inr other ↦
        ground
          (arith, text_eq_iff k key, text_eq_iff key j, text_eq_iff k j, look_up-set_key key j a es)
  ]

  pub set_key-All :
      (P : A → Type 0) (key : Text) (a : A) (es : Map A)
      → P a
      → All (λ e. P e.1) es
      → All (λ e. P e.1) (set_key key a es)
  unfolding set_key
  set_key-All P key a [] p h = (p, tt)
  set_key-All P key a (e ∷ es) p h = elim (Bool-cases (text_eq e.0 key)) [
    | inl same ↦ rw same (p, h.1)
    | inr other ↦ rw other (h.0, set_key-All P key a es p h.1)
  ]

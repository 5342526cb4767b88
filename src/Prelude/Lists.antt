-- ===== src/Prelude/Lists.antt =====
-- Lists measured and indexed by native numbers, and predicates on all or some members.
use Prim.Native.Nat.{ℕ, zero, suc, ◌+◌, ◌≤◌}
use mathlib.Core.Path.{◌≡◌, refl, ap}
use mathlib.Core.Logic.{◌⊎◌, inl, inr}
use mathlib.Core.List.{List, [], ◌∷◌, ◌++◌, map}
use mathlib.Core.Option.{Option, none, some}
use mathlib.Core.Bool.{Bool, true}
use submitter_smtp_daemon.Prelude.Tests.{Bool-cases, if◌then◌else◌}
use native.Mathlib.Omega.{arith}

module _ {ℓ} {A : Type ℓ} where
  abbrev pub length : List A → ℕ
  length [] = 0
  length (x ∷ xs) = suc (length xs)

  abbrev pub get_elem? : List A → ℕ → Option A
  get_elem? [] i = none
  get_elem? (x ∷ xs) zero = some x
  get_elem? (x ∷ xs) (suc i) = get_elem? xs i

  abbrev pub take : ℕ → List A → List A
  take zero xs = []
  take (suc n) [] = []
  take (suc n) (x ∷ xs) = x ∷ take n xs

  abbrev pub drop : ℕ → List A → List A
  drop zero xs = xs
  drop (suc n) [] = []
  drop (suc n) (x ∷ xs) = drop n xs

  pub length-append : (xs ys : List A) → length (xs ++ ys) ≡ length xs + length ys
  length-append [] ys = omega arith
  length-append (x ∷ xs) ys = omega (arith, length-append xs ys)

  pub append_assoc : (xs ys zs : List A) → xs ++ (ys ++ zs) ≡ (xs ++ ys) ++ zs
  append_assoc [] ys zs = refl
  append_assoc (x ∷ xs) ys zs = ap (λ t. x ∷ t) (append_assoc xs ys zs)

  pub append_nil : (xs : List A) → xs ++ [] ≡ xs
  append_nil [] = refl
  append_nil (x ∷ xs) = ap (λ t. x ∷ t) (append_nil xs)

-- Membership by recursion: tactics take it apart and build it.
abbrev pub Member : {A : Type 0} → A → List A → Type 0
Member a [] = ⊥
Member a (x ∷ xs) = (a ≡ x) ⊎ Member a xs

abbrev pub All {ℓ κ} : {A : Type ℓ} → (A → Type κ) → List A → Type κ
All P [] = Unit
All P (x ∷ xs) = P x × All P xs

pub All-append {ℓ κ} :
    {A : Type ℓ} (P : A → Type κ) (xs ys : List A) → All P xs → All P ys → All P (xs ++ ys)
All-append P [] ys hx hy = hy
All-append P (x ∷ xs) ys hx hy = (hx.0, All-append P xs ys hx.1 hy)

module _ {A : Type 0} (a : A) where
  pub Member-append-left : (xs ys : List A) → Member a xs → Member a (xs ++ ys)
  Member-append-left [] ys h = absurd h
  Member-append-left (x ∷ xs) ys (inl e) = inl e
  Member-append-left (x ∷ xs) ys (inr h) = inr (Member-append-left xs ys h)

  pub Member-append-right : (xs ys : List A) → Member a ys → Member a (xs ++ ys)
  Member-append-right [] ys h = h
  Member-append-right (x ∷ xs) ys h = inr (Member-append-right xs ys h)

  pub Member-append : (xs ys : List A) → Member a (xs ++ ys) → Member a xs ⊎ Member a ys
  Member-append [] ys h = inr h
  Member-append (x ∷ xs) ys (inl e) = inl (inl e)
  Member-append (x ∷ xs) ys (inr h) = elim (Member-append xs ys h) [
    | inl early ↦ inl (inr early)
    | inr late ↦ inr late
  ]

  pub Member-take : (n : ℕ) (xs : List A) → Member a (take n xs) → Member a xs
  Member-take zero xs h = absurd h
  Member-take (suc n) [] h = absurd h
  Member-take (suc n) (x ∷ xs) (inl e) = inl e
  Member-take (suc n) (x ∷ xs) (inr h) = inr (Member-take n xs h)

  pub All-member : (P : A → Type 0) (xs : List A) → All P xs → Member a xs → P a
  All-member P [] h m = absurd m
  All-member P (x ∷ xs) h (inl e) = rw e h.0
  All-member P (x ∷ xs) h (inr m) = All-member P xs h.1 m

module _ {A : Type 0} where
  pub length-take-le : (n : ℕ) (xs : List A) → length (take n xs) ≤ n
  length-take-le zero xs = omega arith
  length-take-le (suc n) [] = omega arith
  length-take-le (suc n) (x ∷ xs) = omega (arith, length-take-le n xs)

  pub Member-length : (x : A) (xs : List A) → Member x xs → 1 ≤ length xs
  Member-length x [] m = absurd m
  Member-length x (y ∷ ys) m = omega arith

  pub All-of_Member : (P : A → Type 0) (xs : List A) → ((x : A) → Member x xs → P x) → All P xs
  All-of_Member P [] h = tt
  All-of_Member P (x ∷ xs) h = (h x (inl refl), All-of_Member P xs (λ y m. h y (inr m)))

module _ {A B : Type 0} (f : A → B) where
  pub length-map : (xs : List A) → length (map f xs) ≡ length xs
  length-map [] = refl
  length-map (x ∷ xs) = omega (arith, length-map xs)

  pub Member-map : (b : B) (xs : List A) → Member b (map f xs) → (a : A) × Member a xs × (b ≡ f a)
  Member-map b [] h = absurd h
  Member-map b (x ∷ xs) (inl e) = (x, inl refl, e)
  Member-map b (x ∷ xs) (inr h) = let (a, m, e) = Member-map b xs h in (a, inr m, e)

  pub Member-map_of : (a : A) (xs : List A) → Member a xs → Member (f a) (map f xs)
  Member-map_of a [] h = absurd h
  Member-map_of a (x ∷ xs) (inl e) = inl (ap f e)
  Member-map_of a (x ∷ xs) (inr h) = inr (Member-map_of a xs h)

-- The elements that pass a test. (The library's filter takes a decision.)
unfoldable pub keep {ℓ} : {A : Type ℓ} → (A → Bool) → List A → List A
keep p [] = []
keep p (x ∷ xs) = let rest = keep p xs in if p x then x ∷ rest else rest

module _ {A : Type 0} (p : A → Bool) (a : A) where
  pub keep_sound : (xs : List A) → Member a (keep p xs) → Member a xs × (p a ≡ true)
  unfolding keep
  keep_sound [] h = absurd h
  keep_sound (x ∷ xs) h = elim (Bool-cases (p x)) [
    | inl holds ↦ ground (arith, keep_sound xs)
    | inr fails ↦ ground (arith, keep_sound xs)
  ]

  pub keep_complete : (xs : List A) → Member a xs → p a ≡ true → Member a (keep p xs)
  unfolding keep
  keep_complete [] h k = absurd h
  keep_complete (x ∷ xs) (inl e) k = let px : p x ≡ true = (rw e at k) in rw px (inl e)
  keep_complete (x ∷ xs) (inr h) k = elim (Bool-cases (p x)) [
    | inl holds ↦ rw holds (inr (keep_complete xs h k))
    | inr fails ↦ rw fails (keep_complete xs h k)
  ]

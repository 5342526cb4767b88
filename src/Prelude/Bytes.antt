-- ===== src/Prelude/Bytes.antt =====
-- Go strings are sequences of bytes.
use Prim.Native.Nat.{ℕ, zero, suc, ◌+◌}
use Prim.Native.Char.{code}
use Prim.Native.String.{String}
use mathlib.Core.Path.{◌≡◌, refl}
use mathlib.Core.Bool.{Bool, true, false, ◌&&◌, ◌||◌}
use mathlib.Core.Logic.{◌↔◌, ◌⊎◌, inl, inr}
use submitter_smtp_daemon.Prelude.Lists.{Member}
use mathlib.Core.List.{reverse, List, [], ◌∷◌, ◌++◌}
use native.Mathlib.Omega.{arith}
use submitter_smtp_daemon.Prelude.Tests.{Bool-cases, leb, ◌==◌, if◌then◌else◌}

abbrev pub Text : Type 0
Text = List ℕ

-- The bytes of an ASCII literal.
unfoldable pub txt : String → Text
txt String.[] = []
txt (String.◌∷◌ c s) = code c ∷ txt s

unfoldable pub text_eq : Text → Text → Bool
text_eq [] [] = true
text_eq (a ∷ s) (b ∷ t) = (a == b) && text_eq s t
text_eq _ _ = false

pub text_eq_iff : (s t : Text) → (text_eq s t ≡ true) ↔ (s ≡ t)
unfolding text_eq
text_eq_iff [] [] = ground arith
text_eq_iff [] (b ∷ t) = ground arith
text_eq_iff (a ∷ s) [] = ground arith
text_eq_iff (a ∷ s) (b ∷ t) = ground (arith, text_eq_iff s t)

pub text_eq_refl : (s : Text) → text_eq s s ≡ true
text_eq_refl s = (text_eq_iff s s).1 refl

pub append_cancel : (s a b : Text) → s ++ a ≡ s ++ b → a ≡ b
append_cancel [] a b e = e
append_cancel (c ∷ s) a b e = append_cancel s a b (cc)

-- `strings.Split` at one byte: there is always a first part.
abbrev pub split_push : ℕ → List Text → List Text
split_push c [] = (c ∷ []) ∷ []
split_push c (part ∷ parts) = (c ∷ part) ∷ parts

unfoldable pub split : ℕ → Text → List Text
split sep [] = [] ∷ []
split sep (c ∷ s) = let parts = split sep s in if c == sep then [] ∷ parts else split_push c parts

-- `strings.TrimSuffix` with a suffix of one byte.
unfoldable pub trim_suffix : ℕ → Text → Text
trim_suffix end [] = []
trim_suffix end (c ∷ []) = if c == end then [] else c ∷ []
trim_suffix end (c ∷ d ∷ s) = c ∷ trim_suffix end (d ∷ s)

-- A blank of one byte; of two: U+0085 and U+00A0; and of three: U+1680, U+2000 to U+200A, U+2028,
-- U+2029, U+202F, U+205F and U+3000.
abbrev pub is_space : ℕ → Bool
is_space c = c == 32 || leb 9 c && leb c 13

abbrev is_space2 : ℕ → ℕ → Bool
is_space2 a b = a == 0xc2 && (b == 0x85 || b == 0xa0)

abbrev is_space3 : ℕ → ℕ → ℕ → Bool
is_space3 a b c =
    a == 0xe1 && b == 0x9a && c == 0x80
    || a == 0xe2 && b == 0x80 && (leb 0x80 c && leb c 0x8a || c == 0xa8 || c == 0xa9 || c == 0xaf)
    || a == 0xe2 && b == 0x81 && c == 0x9f
    || a == 0xe3 && b == 0x80 && c == 0x80

-- How many bytes the blank takes with which a text starts; 0 if there is none.
unfoldable pub space_front : Text → ℕ
space_front [] = 0
space_front (a ∷ []) = if is_space a then 1 else 0
space_front (a ∷ b ∷ []) = if is_space a then 1 else if is_space2 a b then 2 else 0
space_front (a ∷ b ∷ c ∷ s) =
    if is_space a then 1 else if is_space2 a b then 2 else if is_space3 a b c then 3 else 0

-- The same of the end, for the text backwards.
unfoldable pub space_back : Text → ℕ
space_back [] = 0
space_back (a ∷ []) = if is_space a then 1 else 0
space_back (a ∷ b ∷ []) = if is_space a then 1 else if is_space2 b a then 2 else 0
space_back (a ∷ b ∷ c ∷ s) =
    if is_space a then 1 else if is_space2 b a then 2 else if is_space3 c b a then 3 else 0

-- Strips blanks, after a number of bytes that belong to the last one.
unfoldable pub strip : (Text → ℕ) → ℕ → Text → Text
strip width n [] = []
strip width (suc n) (c ∷ s) = strip width n s
strip width zero (c ∷ s) = elim (width (c ∷ s)) [ zero ↦ c ∷ s | suc n ↦ strip width n s ]

-- `strings.TrimSpace`, on the bytes of UTF-8
unfoldable pub trim_space : Text → Text
unfolding strip space_front space_back
trim_space s = reverse (strip space_back 0 (reverse (strip space_front 0 s)))

-- `strings.ToLower`, on ASCII text.
abbrev lower_byte : ℕ → ℕ
lower_byte c = if leb 65 c && leb c 90 then c + 32 else c

unfoldable pub to_lower : Text → Text
to_lower [] = []
to_lower (c ∷ s) = lower_byte c ∷ to_lower s

-- `strings.HasSuffix`
unfoldable pub has_suffix : Text → Text → Bool
has_suffix [] suffix = text_eq [] suffix
has_suffix (c ∷ s) suffix = text_eq (c ∷ s) suffix || has_suffix s suffix

pub Member-dec : (t : Text) (ts : List Text) → Member t ts ⊎ (Member t ts → ⊥)
Member-dec t [] = inr (λ h. h)
Member-dec t (u ∷ ts) = elim (Bool-cases (text_eq t u)) [
  | inl same ↦ inl (inl ((text_eq_iff t u).0 same))
  | inr other ↦ elim (Member-dec t ts) [
    | inl later ↦ inl (inr later)
    | inr never ↦ inr (λ h. elim h [ inl e ↦ ground (arith, text_eq_iff t u) | inr m ↦ never m ])
  ]
]

-- ===== src/Parser/Addresses.antt =====
-- The address lists of internal/parser/parser.go where net/mail cannot parse them.
use mathlib.Core.List.{reverse}
use submitter_smtp_daemon.Parser.{Mail, parse_address_list, trimmed_parts}
use submitter_smtp_daemon.Prelude.{
  split_push, split, All, ap, none, ◌∙◌, List, Member, Text, [], arith, inr, refl, space_front,
  space_back, strip, trim_space, ◌++◌, ◌∷◌, ◌≡◌, ◌≢◌,
}

-- An address that a list can hold: not empty, without commas and outer blanks.
abbrev pub IsPlain : Text → Type 0
IsPlain a = (a ≢ []) × (trim_space a ≡ a) × (Member b',' a → ⊥)

-- A list of addresses as it is commonly written.
abbrev pub written : List Text → Text
written [] = []
written (a ∷ []) = a
written (a ∷ b ∷ others) = a ++ b',' ∷ b' ' ∷ written (b ∷ others)

split_plain : (a : Text) → (Member b',' a → ⊥) → split b',' a ≡ a ∷ []
unfolding split
split_plain [] h = refl
split_plain (c ∷ a) h = rw (split_plain a (λ m. h (inr m))) (ground arith)

split_append : (a s : Text) → (Member b',' a → ⊥) → split b',' (a ++ b',' ∷ s) ≡ a ∷ split b',' s
unfolding split
split_append [] s h = refl
split_append (c ∷ a) s h = rw (split_append a s (λ m. h (inr m))) (ground arith)

strip-blank : (s : Text) → strip space_front 0 (b' ' ∷ s) ≡ strip space_front 0 s
unfolding strip space_front
strip-blank [] = refl
strip-blank (a ∷ []) = refl
strip-blank (a ∷ b ∷ s) = refl

trim_space-blank : (s : Text) → trim_space (b' ' ∷ s) ≡ trim_space s
unfolding trim_space
trim_space-blank s = ap (λ t. reverse (strip space_back 0 (reverse t))) (strip-blank s)

trimmed_blank : (parts : List Text) → trimmed_parts (split_push b' ' parts) ≡ trimmed_parts parts
unfolding trimmed_parts
trimmed_blank [] = refl
trimmed_blank (part ∷ parts) =
    let rest = trimmed_parts parts in
    ap (λ (t : Text). elim t [ [] ↦ rest | c ∷ addr ↦ (c ∷ addr) ∷ rest ]) (trim_space-blank part)

trimmed_plain :
    (a : Text) (parts : List Text) → IsPlain a → trimmed_parts (a ∷ parts) ≡ a ∷ trimmed_parts parts
unfolding trimmed_parts
trimmed_plain [] parts h = absurd (h.0 refl)
trimmed_plain (c ∷ a) parts h = rw (h.1, trimmed_parts) refl

fallback_lem :
    (addresses : List Text)
    → All IsPlain addresses
    → trimmed_parts (split b',' (written addresses)) ≡ addresses
unfolding split trimmed_parts
fallback_lem [] h = refl
fallback_lem (a ∷ []) h = ap trimmed_parts (split_plain a h.0.2) ∙ trimmed_plain a [] h.0
fallback_lem (a ∷ b ∷ others) h =
    ap trimmed_parts (split_append a (b' ' ∷ written (b ∷ others)) h.0.2)
    ∙ trimmed_plain a (split b',' (b' ' ∷ written (b ∷ others))) h.0
    ∙ ap (λ xs. a ∷ xs)
        (trimmed_blank (split b',' (written (b ∷ others))) ∙ fallback_lem (b ∷ others) h.1)

-- Where net/mail cannot parse a list of addresses that are not empty, without commas and outer
-- blanks, parted by a comma and a blank, parseAddressList still returns these addresses.
pub parse_address_list-written :
    {T : Type 0} (mail : Mail T) (addresses : List Text)
    → All IsPlain addresses
    → mail.parse_address_list (written addresses) ≡ none
    → parse_address_list mail (written addresses) ≡ addresses
unfolding parse_address_list
parse_address_list-written mail addresses h refused =
    rw (refused, parse_address_list) (fallback_lem addresses h)

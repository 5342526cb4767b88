-- ===== src/Auth/Keys.antt =====
-- The keys of internal/auth/redis.go and what GetUserInfo reads from them.
use submitter_smtp_daemon.Auth.{split_key, split_from}
use submitter_smtp_daemon.Prelude.{
  ◌∙◌, append_assoc, append_nil, Bool-cases, List, Member, Text, [], ap, arith, inl, inr, refl, sym,
  ◌++◌, ◌==◌, ◌∷◌, ◌≡◌, ◌≢◌,
}

-- Parts joined by colons.
abbrev pub joined : List Text → Text
joined [] = []
joined (part ∷ []) = part
joined (part ∷ q ∷ parts) = part ++ b':' ∷ joined (q ∷ parts)

-- No part has a colon, and the last is not empty.
abbrev pub ArePartsOf : List Text → Type 0
ArePartsOf [] = Unit
ArePartsOf (part ∷ []) = (part ≢ []) × (Member b':' part → ⊥)
ArePartsOf (part ∷ q ∷ parts) = (Member b':' part → ⊥) × ArePartsOf (q ∷ parts)

split_part :
    (current part key : Text)
    → (Member b':' part → ⊥)
    → split_from current (part ++ b':' ∷ key) ≡ (current ++ part) ∷ split_from [] key
unfolding split_from
split_part current [] key h = ap (λ t. t ∷ split_from [] key) (sym (append_nil current))
split_part current (c ∷ part) key h = elim (Bool-cases (c == b':')) [
  | inl bad ↦ absurd (h (inl (ground arith)))
  | inr other ↦
      rw (other, split_from)
        (split_part (current ++ c ∷ []) part key (λ m. h (inr m))
          ∙ ap (λ t. t ∷ split_from [] key) (sym (append_assoc current (c ∷ []) part)))
]

split_last :
    (current part : Text)
    → (current ++ part ≢ [])
    → (Member b':' part → ⊥)
    → split_from current part ≡ (current ++ part) ∷ []
unfolding split_from
split_last [] [] n h = absurd (n refl)
split_last (d ∷ current) [] n h = ap (λ t. t ∷ []) (sym (append_nil (d ∷ current)))
split_last current (c ∷ part) n h = elim (Bool-cases (c == b':')) [
  | inl bad ↦ absurd (h (inl (ground arith)))
  | inr other ↦
      rw (other, split_from)
        (split_last (current ++ c ∷ []) part (rw (append_assoc current (c ∷ []) part) at n)
            (λ m. h (inr m))
          ∙ ap (λ t. t ∷ []) (sym (append_assoc current (c ∷ []) part)))
]

-- Parts without colons, the last of them not empty, are what splitKey makes of their key.
pub split_key-joined : (parts : List Text) → ArePartsOf parts → split_key (joined parts) ≡ parts
unfolding split_key split_from
split_key-joined [] h = refl
split_key-joined (part ∷ []) h = split_last [] part h.0 h.1
split_key-joined (part ∷ q ∷ parts) h =
    split_part [] part (joined (q ∷ parts)) h.0
    ∙ ap (λ t. part ∷ t) (split_key-joined (q ∷ parts) h.1)

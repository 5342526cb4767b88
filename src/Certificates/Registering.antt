-- ===== src/Certificates/Registering.antt =====
-- What one file of the certificates directory does to the map of internal/tlsmgr/manager.go.
use submitter_smtp_daemon.Certificates.{
  Dir, Entry, add_entry, extract_domains, normal_name, register,
}
use submitter_smtp_daemon.Prelude.{
  Bool-cases, List, Map, Member, Option-cases, Text, [], arith, false, has_suffix, inl, inr,
  look_up, look_up-set_key, map, not, refl, set_key, some, sym, text_eq, text_eq_iff, true, txt,
  ◌||◌, ◌∙◌, ◌∷◌, ◌≡◌, ◌⊎◌,
}

module _ {C : Type 0} (dir : Dir C) where
  -- The certificate of a file that is loaded, with the names that it is valid for: a plain .pem
  -- file with a key pair and a certificate that can be parsed.
  abbrev pub Loads : Entry → C → List Text → Type 0
  Loads e cert names =
      (e.is_dir ≡ false)
      × (has_suffix e.name (txt ".pem") ≡ true)
      × (dir.key_pair e.name ≡ some cert)
      × (extract_domains dir e.name ≡ some names)

  -- A file covers a server name: one of its names is that name, up to case and outer blanks.
  abbrev pub Covers : Text → Entry → C → Type 0
  Covers sni e cert = (names : List Text) × Loads e cert names × Member sni (map normal_name names)

  pub register_ne :
      (sni : Text) (cert : C) (names : List Text) (certs : Map C)
      → Member sni (map normal_name names)
        ⊎ (look_up sni (register cert names certs) ≡ look_up sni certs)
  unfolding register
  register_ne sni cert [] certs = inr refl
  register_ne sni cert (d ∷ ds) certs = elim (Bool-cases (text_eq (normal_name d) sni)) [
    | inl same ↦ inl (inl (sym ((text_eq_iff (normal_name d) sni).0 same)))
    | inr other ↦ elim (register_ne sni cert ds (set_key (normal_name d) cert certs)) [
      | inl later ↦ inl (inr later)
      | inr kept ↦ inr (kept ∙ look_up-set_key (normal_name d) sni cert certs ∙ rw other refl)
    ]
  ]

  pub register_keeps :
      (sni : Text) (cert : C) (names : List Text) (certs : Map C)
      → look_up sni certs ≡ some cert
      → look_up sni (register cert names certs) ≡ some cert
  unfolding register
  register_keeps sni cert [] certs h = h
  register_keeps sni cert (d ∷ ds) certs h =
      register_keeps sni cert ds _ (look_up-set_key (normal_name d) sni cert certs ∙ ground arith)

  pub register_sets :
      (sni : Text) (cert : C) (names : List Text) (certs : Map C)
      → Member sni (map normal_name names)
      → look_up sni (register cert names certs) ≡ some cert
  unfolding register
  register_sets sni cert [] certs h = absurd h
  register_sets sni cert (d ∷ ds) certs (inl e) = register_keeps sni cert ds _ (
      look_up-set_key (normal_name d) sni cert certs
      ∙ rw ((text_eq_iff (normal_name d) sni).1 (sym e)) refl)
  register_sets sni cert (d ∷ ds) certs (inr h) = register_sets sni cert ds _ h

  -- A file is loaded, and all its names are registered, or it is passed over.
  pub entry_cases :
      (e : Entry)
      → ((cert : C) × (names : List Text) × Loads e cert names
          × ((certs : Map C) → add_entry dir e certs ≡ register cert names certs))
        ⊎ (((cert : C) (names : List Text) → Loads e cert names → ⊥)
            × ((certs : Map C) → add_entry dir e certs ≡ certs))
  unfolding add_entry
  entry_cases e = elim (Bool-cases (e.is_dir || not (has_suffix e.name (txt ".pem")))) [
    | inl skip ↦ inr (λ cert names h. ground arith, λ certs. rw (skip, add_entry) refl)
    | inr look ↦ elim (Option-cases (dir.key_pair e.name)) [
      | inl broken ↦ inr (λ cert names h. ground arith, λ certs. rw (look, broken, add_entry) refl)
      | inr (cert, pair) ↦ elim (Option-cases (extract_domains dir e.name)) [
        | inl broken ↦
            inr (λ cert names h. ground arith, λ certs. rw (look, pair, broken, add_entry) refl)
        | inr (names, read) ↦ inl (
          cert,
          names,
          (ground arith, ground arith, pair, read),
          λ certs. rw (look, pair, read, add_entry) refl,
        )
      ]
    ]
  ]

  pub unique-Loads :
      {e : Entry} {cert cert' : C} {names names' : List Text}
      → Loads e cert names
      → Loads e cert' names'
      → names ≡ names'
  unique-Loads h h' = cc (h.3, h'.3)

-- ===== src/Certificates/Choice.antt =====
-- Which certificate `GetCertificate` of internal/tlsmgr/manager.go hands out.
use submitter_smtp_daemon.Certificates.Registering.{
  Covers, Loads, entry_cases, register_ne, register_sets, unique-Loads,
}
use submitter_smtp_daemon.Certificates.{
  get_certificate, load_certificates, replace, fallback, add_entries, add_entry, Dir, Entry,
  normal_name, register,
}
use submitter_smtp_daemon.Prelude.{
  none, All, Member-dec, set_key-All, split, suc, zero, ℕ, ◌++◌, ap, List, Map, Member, Text, [],
  inl, inr, look_up, map, refl, some, ◌∙◌, ◌∷◌, ◌≡◌, ◌⊎◌,
}

module _ {C : Type 0} (choice : ℕ) (server_name : Text) (certs : Map C) where
  pub get_certificate_known :
      {cert : C}
      → look_up (normal_name server_name) certs ≡ some cert
      → get_certificate choice server_name certs ≡ some cert
  unfolding get_certificate
  get_certificate_known known = rw (known, get_certificate) refl

  pub get_certificate_unknown :
      look_up (normal_name server_name) certs ≡ none
      → get_certificate choice server_name certs ≡ fallback choice certs
  unfolding get_certificate
  get_certificate_unknown unknown = rw (unknown, get_certificate) refl

module _ {C : Type 0} (dir : Dir C) where
  -- No file of these covers the name.
  abbrev pub NoCover : Text → List Entry → Type 0
  NoCover sni es = (e : Entry) (cert : C) → Member e es → Covers dir sni e cert → ⊥

  -- The certificate is that of the last of these files that covers the name.
  abbrev pub LastCover : Text → List Entry → C → Type 0
  LastCover sni es cert =
      (before : List Entry) × (e : Entry) × (after : List Entry) × (es ≡ before ++ e ∷ after)
      × Covers dir sni e cert
      × NoCover sni after

  -- The certificate is that of one of the files.
  abbrev pub IsLoaded : List Entry → C → Type 0
  IsLoaded es cert = (e : Entry) × (names : List Text) × Member e es × Loads dir e cert names

  NoCover-cons :
      (sni : Text) (e : Entry) (es : List Entry)
      → ((cert : C) → Covers dir sni e cert → ⊥)
      → NoCover sni es
      → NoCover sni (e ∷ es)
  NoCover-cons sni e es here later f cert (inl same) c = here cert (rw same at c)
  NoCover-cons sni e es here later f cert (inr m) c = later f cert m c

  -- What the loop over the files leaves under a name.
  add_entries_lem :
      (sni : Text) (es : List Entry) (certs : Map C)
      → ((cert : C) × LastCover sni es cert × (look_up sni (add_entries dir es certs) ≡ some cert))
        ⊎ (NoCover sni es × (look_up sni (add_entries dir es certs) ≡ look_up sni certs))
  unfolding add_entries
  add_entries_lem sni [] certs = inr (λ e cert m c. m, refl)
  add_entries_lem sni (e ∷ es) certs = elim (add_entries_lem sni es (add_entry dir e certs)) [
    | inl (cert, (before, f, after, split, covers, rest), found) ↦
        inl (cert, (e ∷ before, f, after, ap (λ xs. e ∷ xs) split, covers, rest), found)
    | inr (none_later, kept) ↦ elim (entry_cases dir e) [
      | inr (skipped, same) ↦ inr (
        NoCover-cons sni e es (λ cert c. skipped cert c.0 c.1) none_later,
        kept ∙ ap (look_up sni) (same certs),
      )
      | inl (cert, names, loads, added) ↦ elim (Member-dec sni (map normal_name names)) [
        | inl covered ↦ inl (
          cert,
          ([], e, es, refl, (names, loads, covered), none_later),
          kept ∙ ap (look_up sni) (added certs) ∙ register_sets dir sni cert names certs covered,
        )
        | inr uncovered ↦ inr (
          NoCover-cons sni e es (λ other c. uncovered (rw (unique-Loads dir c.1 loads) at c.2))
              none_later,
          kept ∙ ap (look_up sni) (added certs) ∙ elim (register_ne dir sni cert names certs) [
            | inl covered ↦ absurd (uncovered covered)
            | inr unchanged ↦ unchanged
          ],
        )
      ]
    ]
  ]

  abbrev Holds : (C → Type 0) → Map C → Type 0
  Holds P = All (λ e. P e.1)

  register-Holds :
      (P : C → Type 0) (cert : C) (names : List Text) (certs : Map C)
      → P cert
      → Holds P certs
      → Holds P (register cert names certs)
  unfolding register
  register-Holds P cert [] certs p h = h
  register-Holds P cert (d ∷ ds) certs p h =
      register-Holds P cert ds _ p (set_key-All P (normal_name d) cert certs p h)

  add_entries-Holds :
      (P : C → Type 0) (es : List Entry) (certs : Map C)
      → ((cert : C) → IsLoaded es cert → P cert)
      → Holds P certs
      → Holds P (add_entries dir es certs)
  unfolding add_entries
  add_entries-Holds P [] certs p h = h
  add_entries-Holds P (e ∷ es) certs p h =
      add_entries-Holds P es _ (λ cert (f, names, m, loads). p cert (f, names, inr m, loads))
        (elim (entry_cases dir e) [
          | inl (cert, names, loads, added) ↦
              rw (added certs)
                (register-Holds P cert names certs (p cert (e, names, inl refl, loads)) h)
          | inr (skipped, same) ↦ rw (same certs) h
        ])

  fallback-Holds :
      (P : C → Type 0) (choice : ℕ) (e : Text × C) (certs : Map C)
      → Holds P (e ∷ certs)
      → (cert : C) × (fallback choice (e ∷ certs) ≡ some cert) × P cert
  unfolding fallback
  fallback-Holds P choice e [] h = (e.1, refl, h.0)
  fallback-Holds P zero e (f ∷ certs) h = (e.1, refl, h.0)
  fallback-Holds P (suc choice) e (f ∷ certs) h = fallback-Holds P choice f certs h.1

  -- After a load that succeeds, a server name that a file covers is answered with the certificate
  -- of the last such file, and any other name with the certificate of some file.
  pub get_certificate_lem :
      (es : List Entry) (old : Map C) (choice : ℕ) (server_name : Text)
      → dir.entries ≡ some es
      → (load_certificates dir old).0 ≡ none
      → (cert : C) × (get_certificate choice server_name (load_certificates dir old).1 ≡ some cert)
        × (LastCover (normal_name server_name) es cert
            ⊎ (NoCover (normal_name server_name) es × IsLoaded es cert))
  unfolding load_certificates look_up
  get_certificate_lem es old choice server_name given loaded =
      rw given (answer (add_entries dir es []) refl (rw given at loaded))
    where
      sni : Text
      sni = normal_name server_name

      answer :
          (certs : Map C)
          → add_entries dir es [] ≡ certs
          → (replace old certs).0 ≡ none
          → (cert : C) × (get_certificate choice server_name (replace old certs).1 ≡ some cert)
            × (LastCover sni es cert ⊎ (NoCover sni es × IsLoaded es cert))
      answer [] e h = cc h
      answer (c ∷ certs) e h = elim (add_entries_lem sni es []) [
        | inl (cert, last, found) ↦
            (cert, get_certificate_known choice server_name (c ∷ certs) (rw e at found), inl last)
        | inr (no_cover, kept) ↦
            let held = add_entries-Holds (IsLoaded es) es [] (λ cert h. h) tt in
            let (cert, answered, is_loaded) =
              fallback-Holds (IsLoaded es) choice c certs (rw e at held) in
            (
              cert,
              get_certificate_unknown choice server_name (c ∷ certs) (rw e at kept) ∙ answered,
              inr (no_cover, is_loaded),
            )
      ]

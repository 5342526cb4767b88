-- ===== src/Certificates/Reloading.antt =====
-- New and the watcher goroutine of internal/tlsmgr/manager.go, over any sequence of signals.
use mathlib.Core.Path.{subst}
use mathlib.Core.Option
use submitter_smtp_daemon.Certificates.Watching.{
  Manager, Signal, event, watcher_error, channel_closed, takes_stop, reload, close, handle,
  handle_all, new_manager, get_tls_config,
}
use submitter_smtp_daemon.Certificates.{
  Dir, add_entries, fallback, get_certificate, load_certificates, normal_name, replace,
}
use submitter_smtp_daemon.Certificates.Choice.{get_certificate_known, get_certificate_unknown}
use submitter_smtp_daemon.Prelude.{
  false, ap, none, ◌∙◌, ◌≢◌, arith, Bool, Bool-cases, List, Map, Option-cases, Text, [], has_suffix,
  inl, inr, look_up, refl, some, suc, txt, zero, ℕ, ◌&&◌, ◌||◌, ◌∷◌, ◌≡◌, ◌⊎◌,
}

module _ {C : Type 0} where
  -- Some certificate is loaded.
  abbrev pub IsServing : Map C → Type 0
  IsServing certs = (first : Text × C) × (rest : Map C) × (certs ≡ first ∷ rest)

  -- A failed load leaves the certificates, a successful one leaves some.
  load_cases :
      (dir : Dir C) (certs : Map C)
      → (((load_certificates dir certs).1 ≡ certs) × ((load_certificates dir certs).0 ≢ none))
        ⊎ IsServing (load_certificates dir certs).1
  unfolding load_certificates
  load_cases dir certs = elim (Option-cases dir.entries) [
    | inl unreadable ↦ rw unreadable (inl (refl, λ e. cc e))
    | inr (es, given) ↦ rw given (replaced (add_entries dir es []))
  ]
    where
      replaced :
          (new : Map C)
          → (((replace certs new).1 ≡ certs) × ((replace certs new).0 ≢ none))
            ⊎ IsServing (replace certs new).1
      replaced [] = inl (refl, λ e. cc e)
      replaced (c ∷ new) = inr (c, new, refl)

  load-IsServing :
      (dir : Dir C) (certs : Map C) → IsServing certs → IsServing (load_certificates dir certs).1
  load-IsServing dir certs h = elim (load_cases dir certs) [
    | inl (same, failed) ↦ rw same h
    | inr serving ↦ serving
  ]

  kept_by : {m m' : Manager C} → some m ≡ some m' → IsServing m.certs → IsServing m'.certs
  kept_by e h = subst (λ (x : Manager C). IsServing x.certs) (Option.some-injective _ _ e) h

  handle-IsServing :
      (s : Signal (Dir C)) (m m' : Manager C)
      → handle s m ≡ some m'
      → IsServing m.certs
      → IsServing m'.certs
  unfolding handle
  handle-IsServing (event is_write is_create name dir) m m' e h =
      elim (Bool-cases (m.watching && ((is_write || is_create) && has_suffix name (txt ".pem")))) [
        | inl relevant ↦ kept_by (rw relevant at e) (load-IsServing dir m.certs h)
        | inr other ↦ kept_by (rw other at e) h
      ]
  handle-IsServing watcher_error m m' e h = kept_by e h
  handle-IsServing channel_closed m m' e h = kept_by e h
  handle-IsServing takes_stop m m' e h = elim (Bool-cases m.stopped) [
    | inl stopped ↦ kept_by (rw stopped at e) h
    | inr open_still ↦ kept_by (rw open_still at e) h
  ]
  handle-IsServing (reload dir) m m' e h = kept_by e (load-IsServing dir m.certs h)
  handle-IsServing close m m' e h = elim (Bool-cases m.stopped) [
    | inl twice ↦ absurd (ground arith)
    | inr once ↦ kept_by (rw once at e) h
  ]

  handle_all-IsServing :
      (ss : List (Signal (Dir C))) (m m' : Manager C)
      → handle_all ss m ≡ some m'
      → IsServing m.certs
      → IsServing m'.certs
  unfolding handle_all
  handle_all-IsServing [] m m' e h = kept_by e h
  handle_all-IsServing (s ∷ ss) m m' e h = elim (Option-cases (handle s m)) [
    | inl panics ↦ absurd (ground arith)
    | inr (m1, e1) ↦
        let rest : handle_all ss m1 ≡ some m' = rw (e1, handle_all) at e in
        handle_all-IsServing ss m1 m' rest (handle-IsServing s m m1 e1 h)
  ]

  new_manager-IsServing :
      (no_watcher : Bool) (min_version : ℕ) (dir : Dir C) (cannot_watch : Bool) (m : Manager C)
      → new_manager no_watcher min_version dir cannot_watch ≡ some m
      → IsServing m.certs × (m.min_version ≡ min_version)
  unfolding new_manager
  new_manager-IsServing no_watcher min_version dir cannot_watch m h = elim (Bool-cases no_watcher) [
    | inl bad ↦ ground arith
    | inr fine ↦ elim (Option-cases (load_certificates dir []).0) [
      | inl loaded ↦ elim (load_cases dir []) [
        | inl (same, failed) ↦ absurd (failed loaded)
        | inr serving ↦ elim (Bool-cases cannot_watch) [
          | inl bad ↦ ground arith
          | inr can ↦
              let e : m.certs ≡ (load_certificates dir []).1 = ground arith in
              (rw e serving, ground arith)
        ]
      ]
      | inr (error, failed) ↦ ground arith
    ]
  ]

  fallback-some :
      (choice : ℕ) (first : Text × C) (rest : Map C)
      → (cert : C) × (fallback choice (first ∷ rest) ≡ some cert)
  unfolding fallback
  fallback-some choice first [] = (first.1, refl)
  fallback-some zero first (e ∷ rest) = (first.1, refl)
  fallback-some (suc choice) first (e ∷ rest) = fallback-some choice e rest

  get_certificate-some :
      (choice : ℕ) (server_name : Text) (certs : Map C)
      → IsServing certs
      → (cert : C) × (get_certificate choice server_name certs ≡ some cert)
  get_certificate-some choice server_name certs (first, rest, e) =
      elim (Option-cases (look_up (normal_name server_name) certs)) [
        | inl unknown ↦
            let (cert, found) = fallback-some choice first rest in
            (
              cert,
              get_certificate_unknown choice server_name certs unknown
                  ∙ ap (fallback choice) e
                  ∙ found,
            )
        | inr (cert, known) ↦ (cert, get_certificate_known choice server_name certs known)
      ]

  -- The TLS configuration of a manager that New returns always has a certificate to answer with, and
  -- asks for the minimum version that New was given, whatever events, errors, reloads and calls of
  -- Close come and whatever the directory holds then, as long as Close is not called twice.
  pub serving_for_ever :
      (no_watcher : Bool) (min_version : ℕ) (dir : Dir C) (cannot_watch : Bool) (m m' : Manager C)
      (signals : List (Signal (Dir C))) (choice : ℕ) (server_name : Text)
      → new_manager no_watcher min_version dir cannot_watch ≡ some m
      → handle_all signals m ≡ some m'
      → ((get_tls_config m).min_version ≡ min_version)
        × ((cert : C) × ((get_tls_config m).get_certificate choice server_name m' ≡ some cert))
  unfolding get_tls_config
  serving_for_ever no_watcher min_version dir cannot_watch m m' signals choice server_name h run =
      let (serving, version) = new_manager-IsServing no_watcher min_version dir cannot_watch m h in
      (
        version,
        get_certificate-some choice server_name m'.certs
            (handle_all-IsServing signals m m' run serving),
      )

  -- The signals that no call of Reload is among.
  abbrev pub NoReload : List (Signal (Dir C)) → Type 0
  NoReload [] = Unit {0}
  NoReload (reload dir ∷ ss) = ⊥
  NoReload (s ∷ ss) = NoReload ss

  -- What one signal does once the goroutine has returned.
  idle_step :
      (s : Signal (Dir C)) (m m' : Manager C)
      → m.watching ≡ false
      → NoReload (s ∷ [])
      → handle s m ≡ some m'
      → (m'.certs ≡ m.certs) × (m'.watching ≡ false)
  unfolding handle
  idle_step (event is_write is_create name dir) m m' off calm e = ground (arith, off)
  idle_step watcher_error m m' off calm e = ground (arith, off)
  idle_step channel_closed m m' off calm e = ground (arith, off)
  idle_step takes_stop m m' off calm e = ground (arith, off)
  idle_step (reload dir) m m' off calm e = absurd calm
  idle_step close m m' off calm e = ground (arith, off)

  NoReload-cons :
      (s : Signal (Dir C)) (ss : List (Signal (Dir C)))
      → NoReload (s ∷ ss)
      → NoReload (s ∷ []) × NoReload ss
  NoReload-cons (event is_write is_create name dir) ss h = (tt, h)
  NoReload-cons watcher_error ss h = (tt, h)
  NoReload-cons channel_closed ss h = (tt, h)
  NoReload-cons takes_stop ss h = (tt, h)
  NoReload-cons (reload dir) ss h = absurd h
  NoReload-cons close ss h = (tt, h)

  -- Once the goroutine has returned, the certificates stay as they are, whatever happens to the
  -- directory, until Reload is called.
  pub closed_keeps_certificates :
      (ss : List (Signal (Dir C))) (m m' : Manager C)
      → m.watching ≡ false
      → NoReload ss
      → handle_all ss m ≡ some m'
      → (m'.certs ≡ m.certs) × (m'.watching ≡ false)
  unfolding handle_all
  closed_keeps_certificates [] m m' off calm run = ground (arith, off)
  closed_keeps_certificates (s ∷ ss) m m' off calm run = elim (Option-cases (handle s m)) [
    | inl panics ↦ absurd (ground arith)
    | inr (m1, e1) ↦
        let (now, later) = NoReload-cons s ss calm in
        let rest : handle_all ss m1 ≡ some m' = rw (e1, handle_all) at run in
        let (same1, off1) = idle_step s m m1 off now e1 in
        let (same2, off2) = closed_keeps_certificates ss m1 m' off1 later rest in
        (same2 ∙ same1, off2)
  ]

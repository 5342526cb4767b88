-- ===== src/Certificates/Watching.antt =====
-- The manager of internal/tlsmgr/manager.go with its goroutine `watchCertificates`. What fsnotify
-- reports is an argument.
use submitter_smtp_daemon.Certificates.{Dir, get_certificate, load_certificates}
use submitter_smtp_daemon.Prelude.{
  Bool, List, Map, Option, Text, [], false, has_suffix, if◌then◌else◌, none, some, true, txt, ℕ,
  ◌&&◌, ◌||◌, ◌∷◌,
}

-- `watching` stands for the goroutine, `stopped` for the closed channel `stopCh`.
pub record Manager (C : Type 0) : Type 0 where
  pub certs : Map C
  pub min_version : ℕ
  pub watching : Bool
  pub stopped : Bool

-- What happens to a manager: fsnotify reports a change of a file, with the operations of the event
-- and the directory as it is then, or an error; a channel of the watcher is closed; the goroutine
-- takes the closed stop channel; or `Reload` or `Close` is called.
pub data Signal (D : Type 0) : Type 0 where
  event : Bool → Bool → Text → D → Signal D
  watcher_error : Signal D
  channel_closed : Signal D
  takes_stop : Signal D
  reload : D → Signal D
  close : Signal D

module _ {C : Type 0} where
  abbrev load : Dir C → Manager C → Manager C
  load dir m = record m { certs = (load_certificates dir m.certs).1 }

  -- `none` is the panic of closing a closed channel
  unfoldable pub handle : Signal (Dir C) → Manager C → Option (Manager C)
  unfolding load_certificates has_suffix
  handle (event is_write is_create name dir) m = some (
      if m.watching && ((is_write || is_create) && has_suffix name (txt ".pem"))
      then load dir m
      else m)
  handle watcher_error m = some m
  handle channel_closed m = some (record m { watching = false })
  handle takes_stop m = some (if m.stopped then record m { watching = false } else m)
  handle (reload dir) m = some (load dir m)
  handle close m = if m.stopped then none else some (record m { stopped = true })

  unfoldable pub handle_all : List (Signal (Dir C)) → Manager C → Option (Manager C)
  unfolding handle
  handle_all [] m = some m
  handle_all (s ∷ ss) m = elim (handle s m) [ none ↦ none | some m' ↦ handle_all ss m' ]

-- What `tls.Config` is given; the callback reads the certificates when it is called.
pub record TlsConfig (C : Type 0) : Type 0 where
  pub min_version : ℕ
  pub get_certificate : ℕ → Text → Manager C → Option C
  pub prefer_server_cipher_suites : Bool

unfoldable pub get_tls_config : {C : Type 0} → Manager C → TlsConfig C
unfolding get_certificate
get_tls_config m = record {
  min_version = m.min_version;
  get_certificate = λ choice server_name now. get_certificate choice server_name now.certs;
  prefer_server_cipher_suites = true;
}

-- `New`, where the watcher can be made and can watch the directory
unfoldable pub new_manager : {C : Type 0} → Bool → ℕ → Dir C → Bool → Option (Manager C)
unfolding load_certificates
new_manager no_watcher min_version dir cannot_watch =
    if no_watcher
    then none
    else (let (err, certs) = load_certificates dir [] in
        elim err [
          | some e ↦ none
          | none ↦
              if cannot_watch
              then none
              else some (record {
                certs = certs;
                min_version = min_version;
                watching = true;
                stopped = false;
              })
        ])

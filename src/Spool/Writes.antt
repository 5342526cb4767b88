-- ===== src/Spool/Writes.antt =====
-- `Write` of internal/spool/spool.go.
use submitter_smtp_daemon.Spool.{
  clean_up, Error, WriteFaults, cross_device, move, plain_file, stage_path, temp_path, write,
}
use submitter_smtp_daemon.Spool.Moves.{move_lem, move_others, move_refused, Holds}
use submitter_smtp_daemon.Files.{File, FilePath, Fs, Stage, find, incoming, put, rename, tmp}
use submitter_smtp_daemon.Files.Laws.{find-remove, find-put, find-rename, path_eq_refl, path_ne}
use submitter_smtp_daemon.Prelude.{
  Option-cases, inl, inr, take, ◌∙◌, List, Option, Text, ap, arith, length, length-append, none,
  some, sym, txt, ℕ, ◌++◌, ◌≡◌, ◌≢◌, ◌⊎◌,
}

pub temp_path_ne : (s : Stage) (id : Text) → temp_path id ≢ stage_path s id
unfolding temp_path stage_path txt
temp_path_ne s id e =
    omega
      (arith, ap (λ (p : FilePath). length p.name) e, length-append (id ++ txt ".eml") (txt ".tmp"))

tmp≢incoming : tmp ≢ incoming
tmp≢incoming e = cc

module _ (msg_id : Text) (bytes : List ℕ) (w : WriteFaults) (now : ℕ) (fs : Fs) where
  abbrev run_write : Option Error × Fs
  run_write = write msg_id bytes w now fs

  abbrev temp : FilePath
  temp = temp_path msg_id

  abbrev staged : FilePath
  staged = stage_path tmp msg_id

  abbrev target : FilePath
  target = stage_path incoming msg_id

  -- the files when the temporary one has its final name in tmp
  abbrev named : Fs
  named = rename temp staged (plain_file bytes now) (put temp (plain_file bytes now) fs)

  abbrev last_move : Option Error × Fs
  last_move = move msg_id tmp incoming w.move now named

  find_other-named : (r : FilePath) → temp ≢ r → staged ≢ r → find r named ≡ find r fs
  find_other-named r tr sr = ground (
    arith,
    find-rename temp staged r (plain_file bytes now) (put temp (plain_file bytes now) fs),
    find-put temp r (plain_file bytes now) fs,
    path_ne temp r tr,
    path_ne staged r sr,
  )

  find-temp-named : find temp named ≡ none
  find-temp-named = ground (
    arith,
    find-rename temp staged temp (plain_file bytes now) (put temp (plain_file bytes now) fs),
    path_eq_refl temp,
    path_ne staged temp (λ e. temp_path_ne tmp msg_id (sym e)),
  )

  find-staged-named : find staged named ≡ some (plain_file bytes now)
  find-staged-named = ground (
    arith,
    find-rename temp staged staged (plain_file bytes now) (put temp (plain_file bytes now) fs),
    path_eq_refl staged,
  )

  -- A Write that succeeds went through every step.
  steps : run_write.0 ≡ none → (last_move.0 ≡ none) × (run_write.1 ≡ last_move.1)
  unfolding write
  steps h = elim (Option-cases w.write_stops) [
    | inl whole ↦ ground arith
    | inr (n, cut) ↦ absurd (ground arith)
  ]

  -- A Write that reports success leaves the whole message in incoming and nothing of it in tmp,
  -- neither under its name nor under the temporary one; every other file is as before.
  pub write_lem :
      run_write.0 ≡ none
      → Holds target bytes run_write.1
        × (find staged run_write.1 ≡ none)
        × (find temp run_write.1 ≡ none)
        × ((r : FilePath) → temp ≢ r → staged ≢ r → target ≢ r → find r run_write.1 ≡ find r fs)
  write_lem h =
      let (ok, e) = steps h in
      let (f, found, gone, there, others) =
        move_lem msg_id tmp incoming tmp≢incoming w.move now named ok in
      let same : f.content ≡ bytes = ground (arith, find-staged-named) in
      rw e (
        (there.0, there.1, there.2 ∙ same),
        gone,
        others temp (λ q. temp_path_ne tmp msg_id (sym q))
              (λ q. temp_path_ne incoming msg_id (sym q))
            ∙ find-temp-named,
        λ r tr sr target_r. others r sr target_r ∙ find_other-named r tr sr,
      )

  find_other-cleaned :
      (r : FilePath)
      → temp ≢ r
      → (f : File) → find r (clean_up w msg_id (put temp f fs)) ≡ find r fs
  find_other-cleaned r tr f =
      ground (arith, find-remove temp r (put temp f fs), find-put temp r f fs, path_ne temp r tr)

  find_other-last_move :
      (r : FilePath)
      → temp ≢ r
      → staged ≢ r
      → (target ≢ r) ⊎ (w.move.renaming ≢ cross_device)
      → (e : Error) → last_move.0 ≡ some e
      → find r last_move.1 ≡ find r fs
  find_other-last_move r tr sr (inl other) e h =
      move_others msg_id tmp incoming tmp≢incoming w.move now named r sr other
      ∙ find_other-named r tr sr
  find_other-last_move r tr sr (inr same_device) e h =
      ap (find r) (move_refused msg_id tmp incoming tmp≢incoming w.move now named e h same_device)
      ∙ find_other-named r tr sr

  -- A Write that reports an error touches, outside the two names of the message in tmp, at most the
  -- message in incoming, and that only where the last rename failed as a cross-device link. So with
  -- tmp and incoming on one device a failed Write shows nothing of the message in incoming.
  pub write_error :
      (e : Error)
      → run_write.0 ≡ some e
      → (r : FilePath) → temp ≢ r
      → staged ≢ r
      → (target ≢ r) ⊎ (w.move.renaming ≢ cross_device)
      → find r run_write.1 ≡ find r fs
  unfolding write
  write_error e h r tr sr apart = elim (Option-cases w.write_stops) [
    | inl whole ↦ elim (Option-cases last_move.0) [
      | inl fine ↦ ground (arith, find_other-cleaned r tr (plain_file bytes now))
      | inr (e', broken) ↦ ground (
        arith,
        find_other-cleaned r tr (plain_file bytes now),
        find_other-last_move r tr sr apart e' broken,
      )
    ]
    | inr (n, cut) ↦ ground (arith, find_other-cleaned r tr (plain_file (take n bytes) now))
  ]

-- ===== src/Spool/Moves.antt =====
-- `Move` and the copy that it falls back to, in internal/spool/spool.go.
use submitter_smtp_daemon.Spool.{
  move, Error, stage_path, CopyFaults, plain_file, Renaming, copy_file, cross_device, refused,
  renamed, MoveFaults, move_found,
}
use submitter_smtp_daemon.Files.{Stage, rename, File, FilePath, Fs, find}
use submitter_smtp_daemon.Files.Laws.{find-remove, path_eq_refl, path_ne, find-put, find-rename}
use submitter_smtp_daemon.Prelude.{
  Option, Text, ap, Option-cases, Bool-cases, false, inl, inr, refl, sym, take, arith, List, none,
  some, ℕ, ◌≡◌, ◌≢◌, ◌⊎◌,
}

-- A file with the given content lies at a path.
abbrev pub Holds : FilePath → List ℕ → Fs → Type 0
Holds p bytes fs = (f : File) × (find p fs ≡ some f) × (f.content ≡ bytes)

module _ (q : FilePath) (f : File) (now : ℕ) (fs : Fs) (c : CopyFaults) where
  find-copy_file_ne : (r : FilePath) → q ≢ r → find r (copy_file q f c now fs).1 ≡ find r fs
  unfolding copy_file
  find-copy_file_ne r ne = elim (Option-cases c.copy_stops) [
    | inl whole ↦ ground (arith, path_ne q r ne, find-put q r (plain_file f.content now) fs)
    | inr (n, cut) ↦
        ground (arith, path_ne q r ne, find-put q r (plain_file (take n f.content) now) fs)
  ]

  find-copy_file_self :
      (copy_file q f c now fs).0 ≡ false
      → find q (copy_file q f c now fs).1 ≡ some (plain_file f.content now)
  unfolding copy_file
  find-copy_file_self h = ground (arith, path_eq_refl q, find-put q q (plain_file f.content now) fs)

module _ (p q : FilePath) (ne : p ≢ q) (f : File) (now : ℕ) (fs : Fs) where
  q≢p : q ≢ p
  q≢p e = ne (sym e)

  find_source-rename : find p (rename p q f fs) ≡ none
  find_source-rename = rw find-rename (rw (path_ne q p q≢p, path_eq_refl p))

  find_target-rename : find q (rename p q f fs) ≡ some f
  find_target-rename = rw find-rename (rw (path_eq_refl q))

  abbrev copied : MoveFaults → Fs
  copied m = (copy_file q f m.copy now fs).1

  pub move_found-done :
      (how : Renaming) (m : MoveFaults)
      → (move_found how p q f m now fs).0 ≡ none
      → (find p (move_found how p q f m now fs).1 ≡ none)
        × Holds q f.content (move_found how p q f m now fs).1
  unfolding move_found
  move_found-done renamed m h = (find_source-rename, (f, find_target-rename, refl))
  move_found-done refused m h = cc
  move_found-done cross_device m h = (
    ground (arith, find-remove p p (copied m), path_eq_refl p),
    (
      plain_file f.content now,
      ground (
        arith,
        find-remove p q (copied m),
        path_ne p q ne,
        find-copy_file_self q f now fs m.copy,
      ),
      refl,
    ),
  )

  pub move_found-kept :
      (how : Renaming) (m : MoveFaults)
      → find p fs ≡ some f
      → Holds p f.content (move_found how p q f m now fs).1
        ⊎ Holds q f.content (move_found how p q f m now fs).1
  unfolding move_found
  move_found-kept renamed m h = inr (f, find_target-rename, refl)
  move_found-kept refused m h = inl (f, h, refl)
  move_found-kept cross_device m h = elim (Bool-cases (copy_file q f m.copy now fs).0) [
    | inl broken ↦ inl (f, ground (arith, find-copy_file_ne q f now fs m.copy p q≢p), refl)
    | inr whole ↦ elim (Bool-cases m.remove_fails) [
      | inl stuck ↦ inl (f, ground (arith, find-copy_file_ne q f now fs m.copy p q≢p), refl)
      | inr gone ↦ inr (
        plain_file f.content now,
        ground (
          arith,
          find-remove p q (copied m),
          path_ne p q ne,
          find-copy_file_self q f now fs m.copy whole,
        ),
        refl,
      )
    ]
  ]

  pub move_found-others :
      (how : Renaming) (m : MoveFaults) (r : FilePath)
      → p ≢ r
      → q ≢ r
      → find r (move_found how p q f m now fs).1 ≡ find r fs
  unfolding move_found
  move_found-others renamed m r pr qr = rw find-rename (rw (path_ne q r qr, path_ne p r pr))
  move_found-others refused m r pr qr = refl
  move_found-others cross_device m r pr qr =
      ground (
        arith,
        find-copy_file_ne q f now fs m.copy r qr,
        find-remove p r (copied m),
        path_ne p r pr,
      )

pub stage_path_ne : (s t : Stage) (id : Text) → s ≢ t → stage_path s id ≢ stage_path t id
unfolding stage_path
stage_path_ne s t id ne e = ne (ap (λ (p : FilePath). p.dir) e)

module _ (msg_id : Text) (from to : Stage) (ne : from ≢ to) (m : MoveFaults) (now : ℕ)
    (fs : Fs) where
  abbrev run_move : Option Error × Fs
  run_move = move msg_id from to m now fs

  abbrev src : FilePath
  src = stage_path from msg_id

  abbrev dst : FilePath
  dst = stage_path to msg_id

  pub move_others : (r : FilePath) → src ≢ r → dst ≢ r → find r run_move.1 ≡ find r fs
  unfolding move
  move_others r pr qr = elim (Option-cases (find src fs)) [
    | inl lost ↦ ground arith
    | inr (f, found) ↦ ground (
      arith,
      move_found-others src dst (stage_path_ne from to msg_id ne) f now fs m.renaming m r pr qr,
    )
  ]

  pub move_refused : (e : Error) → run_move.0 ≡ some e → m.renaming ≢ cross_device → run_move.1 ≡ fs
  unfolding move move_found
  move_refused e h k = ground arith

  -- A Move between two stages that reports success found the message in the first stage; after it
  -- the message is gone from there and lies in the second stage with the same content, and every
  -- other file is as before.
  pub move_lem :
      run_move.0 ≡ none
      → (f : File) × (find src fs ≡ some f)
        × (find src run_move.1 ≡ none)
        × Holds dst f.content run_move.1
        × ((r : FilePath) → src ≢ r → dst ≢ r → find r run_move.1 ≡ find r fs)
  unfolding move
  move_lem h = elim (Bool-cases m.stat_fails) [
    | inl unseen ↦ absurd (cc (rw unseen at h))
    | inr seen ↦ elim (Option-cases (find src fs)) [
      | inl lost ↦ absurd (cc (rw (seen, lost) at h))
      | inr (f, found) ↦
          let apart = stage_path_ne from to msg_id ne in
          let (gone, there) =
            move_found-done src dst apart f now fs m.renaming m (rw (seen, found) at h) in
          rw (seen, found)
            (
              f,
              refl,
              gone,
              there,
              λ r pr qr. move_found-others src dst apart f now fs m.renaming m r pr qr,
            )
    ]
  ]

  -- Whichever system calls fail, a message that lies in the first stage is not lost by a Move to
  -- another stage: its content is still in the first stage or has arrived in the second.
  pub move_lossless :
      (f : File)
      → find src fs ≡ some f
      → Holds src f.content run_move.1 ⊎ Holds dst f.content run_move.1
  unfolding move
  move_lossless f h = elim (Bool-cases m.stat_fails) [
    | inl unseen ↦ rw unseen (inl (f, h, refl))
    | inr seen ↦
        rw (seen, h)
          (move_found-kept src dst (stage_path_ne from to msg_id ne) f now fs m.renaming m h)
  ]

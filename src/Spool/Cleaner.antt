-- ===== src/Spool/Cleaner.antt =====
-- `StartCleanupWorker` of internal/spool/spool.go beside the other users of the spool. main gives it an
-- interval of one hour.
use submitter_smtp_daemon.Spool.Retention.Laws.{cleanup_only, cleanup-IsKeyed}
use mathlib.Core.Option
use submitter_smtp_daemon.Spool.Retention.{CleanupFaults, cleanup}
use submitter_smtp_daemon.Files.Laws.{IsKeyed}
use submitter_smtp_daemon.Files.{File, FilePath, Fs, Stage, find}
use submitter_smtp_daemon.Prelude.{
  Bool, List, Member, [], ap, arith, false, if◌then◌else◌, inl, inr, pos, some, sym, true, ℕ, ℤ,
  ◌+◌, ◌∙◌, ◌∷◌, ◌≡◌, ◌≤◌,
}

-- What others do to the spool, a tick of the worker with the time and the calls that fail, or its
-- stop.
pub data Event : Type 0 where
  changes : (Fs → Fs) → Event
  ticks : CleanupFaults → ℕ → Event
  stops : Event

unfoldable pub run : Bool → List (Stage × ℤ) → List Event → Fs → Fs
unfolding cleanup
run working policy [] fs = fs
run working policy (changes g ∷ es) fs = run working policy es (g fs)
run working policy (ticks c now ∷ es) fs =
    run working policy es (if working then cleanup c now policy fs else fs)
run working policy (stops ∷ es) fs = run false policy es fs

module _ (policy : List (Stage × ℤ)) (p : FilePath) (f : File) where
  -- The others leave the path alone and keep the paths keys.
  abbrev pub SparesPath : (Fs → Fs) → Type 0
  SparesPath g = ((fs : Fs) → find p (g fs) ≡ find p fs) × ((fs : Fs) → IsKeyed fs → IsKeyed (g fs))

  -- No retention of the stage has passed for the file.
  abbrev pub IsYoung : ℕ → Type 0
  IsYoung now = (r : ℕ) → Member (p.dir, pos r) policy → now ≤ f.mtime + r

  abbrev pub AllSpare : List Event → Type 0
  AllSpare [] = Unit {0}
  AllSpare (changes g ∷ es) = SparesPath g × AllSpare es
  AllSpare (ticks c now ∷ es) = IsYoung now × AllSpare es
  AllSpare (stops ∷ es) = AllSpare es

  -- A file that the others leave alone and that is not older than the retentions of its stage at
  -- any tick is still there, unchanged, after any run of the worker, whatever else the others do to
  -- the spool and whatever calls fail.
  pub young_files_stay :
      (working : Bool) (es : List Event) (fs : Fs)
      → AllSpare es
      → IsKeyed fs
      → find p fs ≡ some f
      → find p (run working policy es fs) ≡ some f
  unfolding run
  young_files_stay working [] fs spare keyed held = held
  young_files_stay working (changes g ∷ es) fs spare keyed held =
      young_files_stay working es (g fs) spare.1 (spare.0.1 fs keyed) (spare.0.0 fs ∙ held)
  young_files_stay true (ticks c now ∷ es) fs spare keyed held =
      young_files_stay true es (cleanup c now policy fs) spare.1
        (cleanup-IsKeyed c now policy fs keyed)
        (elim (cleanup_only c now policy fs p keyed) [
          | inl same ↦ same ∙ held
          | inr (gone, (g, r, found, d, positive, m, old)) ↦
              let same : f ≡ g = Option.some-injective _ _ (sym held ∙ found) in
              let le = spare.0 r m in
              absurd (omega (arith, old, le, ap (λ (x : File). x.mtime) same))
        ])
  young_files_stay false (ticks c now ∷ es) fs spare keyed held =
      young_files_stay false es fs spare.1 keyed held
  young_files_stay working (stops ∷ es) fs spare keyed held =
      young_files_stay false es fs spare keyed held

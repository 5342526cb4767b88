-- ===== src/Spool/Retention/Complete.antt =====
-- That Cleanup of internal/spool/spool.go is complete where no system call fails.
use submitter_smtp_daemon.Spool.Retention.Laws.{
  cleanup_only, clean_stage-IsKeyed, clean_entries-Only, clean_stage-Only, Only-weaken, Expired,
}
use mathlib.Core.Path.{subst}
use submitter_smtp_daemon.Spool.Retention.{
  cleanup, clean_stage, read_dir, clean_entries, CleanupFaults, clean_entry,
}
use submitter_smtp_daemon.Files.{stage_eq, File, FilePath, Fs, Stage, find}
use submitter_smtp_daemon.Files.Laws.{Member-find, path_eq_refl, stage_eq_iff, IsKeyed, find-remove}
use submitter_smtp_daemon.Prelude.{
  keep_complete, leb_ℤ, ◌∙◌, [], arith, inl, inr, refl, ◌∷◌, List, Member, false, none, pos, some,
  ℕ, ℤ, ◌+◌, ◌<◌, ◌≡◌,
}

abbrev pub no_faults : CleanupFaults
no_faults = record {
  read_dir_fails = λ s. false;
  info_fails = λ p. false;
  remove_fails = λ p. false;
}

module _ (now : ℕ) where
  gone_after_entries :
      (r : ℕ) (es fs : Fs) (p : FilePath)
      → find p fs ≡ none
      → find p (clean_entries no_faults now r es fs) ≡ none
  gone_after_entries r es fs p h =
      elim (Only-weaken no_faults now p fs _ (clean_entries-Only no_faults now r es fs p)) [
        | inl e ↦ e ∙ h
        | inr n ↦ n
      ]

  clean_entry-removes :
      (r : ℕ) (p : FilePath) (f : File) (fs : Fs)
      → f.is_dir ≡ false
      → f.mtime + r < now
      → find p (clean_entry no_faults now r p f fs) ≡ none
  unfolding clean_entry
  clean_entry-removes r p f fs d x = ground (arith, find-remove p p fs, path_eq_refl p)

  clean_entries_complete :
      (r : ℕ) (es fs : Fs) (p : FilePath) (f : File)
      → Member (p, f) es
      → f.is_dir ≡ false
      → f.mtime + r < now
      → find p (clean_entries no_faults now r es fs) ≡ none
  unfolding clean_entries clean_entry
  clean_entries_complete r [] fs p f m d x = absurd m
  clean_entries_complete r ((q, g) ∷ es) fs p f (inl e) d x =
      gone_after_entries r es (clean_entry no_faults now r q g fs) p (
        subst (λ (y : FilePath × File). find p (clean_entry no_faults now r y.0 y.1 fs) ≡ none) e
          (clean_entry-removes r p f fs d x))
  clean_entries_complete r ((q, g) ∷ es) fs p f (inr m) d x =
      clean_entries_complete r es (clean_entry no_faults now r q g fs) p f m d x

  clean_stage_complete :
      (n : ℕ) (fs : Fs) (p : FilePath) (f : File)
      → find p fs ≡ some f
      → f.is_dir ≡ false
      → 0 < n
      → f.mtime + n < now
      → find p (clean_stage no_faults now p.dir (pos n) fs) ≡ none
  unfolding clean_stage
  clean_stage_complete n fs p f found d positive x =
      let go : leb_ℤ (pos n) (pos 0) ≡ false = ground arith in
      rw go (
        clean_entries_complete n (read_dir p.dir fs) fs p f
          (keep_complete (λ e. stage_eq e.0.dir p.dir) (p, f) fs (Member-find p f fs found)
            ((stage_eq_iff p.dir p.dir).1 refl))
          d x)

  gone_after_cleanup :
      (policy : List (Stage × ℤ)) (fs : Fs) (p : FilePath)
      → IsKeyed fs
      → find p fs ≡ none
      → find p (cleanup no_faults now policy fs) ≡ none
  gone_after_cleanup policy fs p keyed h =
      elim (Only-weaken no_faults now p fs _ (cleanup_only no_faults now policy fs p keyed)) [
        | inl e ↦ e ∙ h
        | inr n ↦ n
      ]

  -- A Cleanup in which no system call fails deletes every plain file that is older than a positive
  -- retention which the policy gives for its stage.
  pub cleanup_complete :
      (policy : List (Stage × ℤ)) (fs : Fs) (p : FilePath)
      → IsKeyed fs
      → Expired now policy p fs
      → find p (cleanup no_faults now policy fs) ≡ none
  unfolding cleanup
  cleanup_complete [] fs p keyed (f, n, found, d, positive, m, x) = absurd m
  cleanup_complete ((s, r) ∷ rest) fs p keyed (f, n, found, d, positive, inl e, x) =
      gone_after_cleanup rest (clean_stage no_faults now s r fs) p
        (clean_stage-IsKeyed no_faults now s r fs keyed)
        (subst (λ (y : Stage × ℤ). find p (clean_stage no_faults now y.0 y.1 fs) ≡ none) e
          (clean_stage_complete n fs p f found d positive x))
  cleanup_complete ((s, r) ∷ rest) fs p keyed (f, n, found, d, positive, inr m, x) =
      let keyed' = clean_stage-IsKeyed no_faults now s r fs keyed in
      elim (Only-weaken no_faults now p fs _ (clean_stage-Only no_faults now s r fs p keyed)) [
        | inl same ↦
            cleanup_complete rest (clean_stage no_faults now s r fs) p keyed'
              (f, n, same ∙ found, d, positive, m, x)
        | inr gone ↦ gone_after_cleanup rest (clean_stage no_faults now s r fs) p keyed' gone
      ]

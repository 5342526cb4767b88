-- ===== src/Spool/Retention.antt =====
-- `Cleanup` of internal/spool/spool.go. The retention map is a list of its entries, in the order in
-- which the loop meets them. Which system calls fail is given for each stage and path.
pub mod Laws
pub mod Complete
use submitter_smtp_daemon.Files.{File, FilePath, Fs, Stage, remove, stage_eq}
use submitter_smtp_daemon.Prelude.{
  keep, Bool, List, [], if◌then◌else◌, leb_ℤ, ltb, not, pos, pos_part, ℕ, ℤ, ◌&&◌, ◌+◌, ◌||◌, ◌∷◌,
}

pub record CleanupFaults : Type 0 where
  pub read_dir_fails : Stage → Bool
  pub info_fails : FilePath → Bool
  pub remove_fails : FilePath → Bool

-- `now.Sub(info.ModTime()) > retention`, for a retention above 0
abbrev pub is_expired : ℕ → ℕ → File → Bool
is_expired now retention f = ltb (f.mtime + retention) now

-- the entries of one directory
abbrev pub read_dir : Stage → Fs → Fs
read_dir stage fs = keep (λ e. stage_eq e.0.dir stage) fs

-- one round of the loop over the entries
unfoldable pub clean_entry : CleanupFaults → ℕ → ℕ → FilePath → File → Fs → Fs
clean_entry c now retention p f fs =
    if f.is_dir || c.info_fails p
    then fs
    else if is_expired now retention f && not (c.remove_fails p)
    then remove p fs
    else fs

unfoldable pub clean_entries : CleanupFaults → ℕ → ℕ → Fs → Fs → Fs
clean_entries c now retention [] fs = fs
clean_entries c now retention ((p, f) ∷ entries) fs =
    clean_entries c now retention entries (clean_entry c now retention p f fs)

-- one round of the loop over the retention map; a retention of 0 or less keeps everything
unfoldable pub clean_stage : CleanupFaults → ℕ → Stage → ℤ → Fs → Fs
clean_stage c now stage retention fs =
    if leb_ℤ retention (pos 0) || c.read_dir_fails stage
    then fs
    else clean_entries c now (pos_part retention) (read_dir stage fs) fs

unfoldable pub cleanup : CleanupFaults → ℕ → List (Stage × ℤ) → Fs → Fs
cleanup c now [] fs = fs
cleanup c now ((stage, retention) ∷ rest) fs =
    cleanup c now rest (clean_stage c now stage retention fs)

-- ===== src/Files.antt =====
-- The file system as internal/spool uses it. All files of the spool lie in stage directories, so a
-- path is a stage and a file name. Times are in nanoseconds since Go's zero Time.
pub mod Laws
use submitter_smtp_daemon.Prelude.{
  Bool, List, Option, Text, [], false, if◌then◌else◌, none, some, text_eq, true, ℕ, ◌&&◌, ◌∷◌,
}

pub data Stage : Type 0 where
  tmp incoming parsed filtered modified signed delivering done failed : Stage

abbrev pub stage_eq : Stage → Stage → Bool
stage_eq tmp tmp = true
stage_eq incoming incoming = true
stage_eq parsed parsed = true
stage_eq filtered filtered = true
stage_eq modified modified = true
stage_eq signed signed = true
stage_eq delivering delivering = true
stage_eq done done = true
stage_eq failed failed = true
stage_eq _ _ = false

pub record FilePath : Type 0 where
  pub dir : Stage
  pub name : Text

unfoldable pub path_eq : FilePath → FilePath → Bool
path_eq p q = stage_eq p.dir q.dir && text_eq p.name q.name

pub record File : Type 0 where
  pub content : List ℕ
  pub mtime : ℕ
  pub is_dir : Bool

abbrev pub Fs : Type 0
Fs = List (FilePath × File)

unfoldable pub find : FilePath → Fs → Option File
find p [] = none
find p ((q, f) ∷ fs) = if path_eq q p then some f else find p fs

unfoldable pub remove : FilePath → Fs → Fs
remove p [] = []
remove p ((q, f) ∷ fs) = let rest = remove p fs in if path_eq q p then rest else (q, f) ∷ rest

unfoldable pub put : FilePath → File → Fs → Fs
put p f fs = (p, f) ∷ remove p fs

-- `os.Rename` of a file that exists: the target is replaced
unfoldable pub rename : FilePath → FilePath → File → Fs → Fs
rename p q f fs = put q f (remove p fs)

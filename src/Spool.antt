-- ===== src/Spool.antt =====
-- internal/spool/spool.go. Every system call can fail; how the calls of one operation end is an
-- argument, so that a theorem holds for all of them. A message id is one path element.
pub mod Moves
pub mod Writes
pub mod Initial
pub mod Listing
pub mod Retention
pub mod Cleaner
use submitter_smtp_daemon.Files.{
  File, FilePath, Fs, Stage, delivering, done, failed, filtered, find, incoming, modified, parsed,
  put, remove, rename, signed, tmp,
}
use submitter_smtp_daemon.Prelude.{
  Bool, List, Option, Text, [], false, if◌then◌else◌, none, not, some, take, true, txt, ℕ, ◌&&◌,
  ◌++◌, ◌||◌, ◌∷◌,
}

abbrev pub all_stages : List Stage
all_stages =
    tmp ∷ incoming ∷ parsed ∷ filtered ∷ modified ∷ signed ∷ delivering ∷ done ∷ failed ∷ []

unfoldable pub stage_path : Stage → Text → FilePath
stage_path stage msg_id = record { dir = stage; name = msg_id ++ txt ".eml" }

-- `tmpPath + ".tmp"`
unfoldable pub temp_path : Text → FilePath
temp_path msg_id = record { dir = tmp; name = (msg_id ++ txt ".eml") ++ txt ".tmp" }

pub data Error : Type 0 where
  creating_temp writing_data syncing_file renaming_file : Error
  source_not_found checking_source copying_file removing_source moving_file : Error
  moving_to_incoming not_found reading_message deleting_message reading_directory : Error

abbrev pub plain_file : List ℕ → ℕ → File
plain_file content mtime = record { content = content; mtime = mtime; is_dir = false }

-- How `os.Rename` ends: it works, it fails with "invalid cross-device link", or it fails.
pub data Renaming : Type 0 where
  renamed cross_device refused : Renaming

pub record CopyFaults : Type 0 where
  pub open_source_fails : Bool
  pub open_target_fails : Bool
  pub copy_stops : Option ℕ  -- after so many bytes
  pub sync_fails : Bool

pub record MoveFaults : Type 0 where
  pub stat_fails : Bool
  pub renaming : Renaming
  pub copy : CopyFaults
  pub remove_fails : Bool

-- `copyFile`: whether it failed, and the files after it. The target is truncated when it is opened.
unfoldable pub copy_file : FilePath → File → CopyFaults → ℕ → Fs → Bool × Fs
copy_file dst f c now fs =
    if c.open_source_fails || c.open_target_fails then (true, fs) else elim c.copy_stops [
      | some n ↦ (true, put dst (plain_file (take n f.content) now) fs)
      | none ↦ (c.sync_fails, put dst (plain_file f.content now) fs)
    ]

-- `Move` after the source was found
unfoldable pub move_found :
    Renaming → FilePath → FilePath → File → MoveFaults → ℕ → Fs → Option Error × Fs
move_found renamed src dst f m now fs = (none, rename src dst f fs)
move_found refused src dst f m now fs = (some moving_file, fs)
move_found cross_device src dst f m now fs =
    let (copy_failed, copied) = copy_file dst f m.copy now fs in
    if copy_failed
    then (some copying_file, copied)
    else if m.remove_fails
    then (some removing_source, copied)
    else (none, remove src copied)

unfoldable pub move : Text → Stage → Stage → MoveFaults → ℕ → Fs → Option Error × Fs
move msg_id from to m now fs =
    if m.stat_fails then (some checking_source, fs) else elim (find (stage_path from msg_id) fs) [
      | none ↦ (some source_not_found, fs)
      | some f ↦ move_found m.renaming (stage_path from msg_id) (stage_path to msg_id) f m now fs
    ]

pub record WriteFaults : Type 0 where
  pub open_fails : Bool
  pub write_stops : Option ℕ  -- after so many bytes
  pub sync_fails : Bool
  pub rename_fails : Bool
  pub remove_fails : Bool  -- of the temporary file, after an error
  pub move : MoveFaults

abbrev pub is_found {ℓ} : {A : Type ℓ} → Option A → Bool
is_found none = false
is_found (some a) = true

-- `os.Remove(tmpFile)` on the error paths; its own error is dropped
abbrev clean_up : WriteFaults → Text → Fs → Fs
clean_up w msg_id fs = if w.remove_fails then fs else remove (temp_path msg_id) fs

abbrev wrap_move : Option Error × Fs → Option Error × Fs
wrap_move (none, fs) = (none, fs)
wrap_move (some e, fs) = (some moving_to_incoming, fs)

unfoldable pub write : Text → List ℕ → WriteFaults → ℕ → Fs → Option Error × Fs
write msg_id bytes w now fs =
    if w.open_fails || is_found (find (temp_path msg_id) fs)
    then (some creating_temp, fs)
    else elim w.write_stops [
      | some n ↦ (
        some writing_data,
        clean_up w msg_id (put (temp_path msg_id) (plain_file (take n bytes) now) fs),
      )
      | none ↦
          let written = put (temp_path msg_id) (plain_file bytes now) fs in
          if w.sync_fails
          then (some syncing_file, clean_up w msg_id written)
          else if w.rename_fails
          then (some renaming_file, clean_up w msg_id written)
          else wrap_move (
              move msg_id tmp incoming w.move now
                (rename (temp_path msg_id) (stage_path tmp msg_id) (plain_file bytes now) written))
    ]

-- `Read`; `fault` is true where `os.ReadFile` fails on a file that exists
unfoldable pub read : Bool → Stage → Text → Fs → Option Error × List ℕ
read fault stage msg_id fs = elim (find (stage_path stage msg_id) fs) [
  | none ↦ (some not_found, [])
  | some f ↦ if fault || f.is_dir then (some reading_message, []) else (none, f.content)
]

unfoldable pub exists : Bool → Stage → Text → Fs → Bool
exists stat_fails stage msg_id fs = not stat_fails && is_found (find (stage_path stage msg_id) fs)

unfoldable pub delete : Bool → Stage → Text → Fs → Option Error × Fs
delete fault stage msg_id fs = elim (find (stage_path stage msg_id) fs) [
  | none ↦ (none, fs)
  | some f ↦
      if fault then (some deleting_message, fs) else (none, remove (stage_path stage msg_id) fs)
]

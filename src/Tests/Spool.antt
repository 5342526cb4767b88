-- ===== src/Tests/Spool.antt =====
-- internal/spool/spool.go at concrete files.
use mathlib.Core.Path.{subst}
use submitter_smtp_daemon.Spool.Moves.{Holds, move_lem, move_lossless}
use submitter_smtp_daemon.Spool.{
  CopyFaults, MoveFaults, WriteFaults, copy_file, cross_device, move, move_found, plain_file,
  stage_path, write,
}
use submitter_smtp_daemon.Files.Laws.{IsKeyed}
use submitter_smtp_daemon.Files.{Stage, File, FilePath, Fs, find, parsed, path_eq, signed}
use submitter_smtp_daemon.Spool.Listing.{count, list, list_lem}
use submitter_smtp_daemon.Spool.Retention.Laws.{Expired, cleanup_only}
use submitter_smtp_daemon.Spool.Retention.Complete.{cleanup_complete, no_faults}
use submitter_smtp_daemon.Spool.Cleaner
use submitter_smtp_daemon.Spool.Cleaner.{AllSpare, Event, changes, ticks, stops, young_files_stay}
use submitter_smtp_daemon.Prelude.{
  true, List, Member, arith, length, pos, sym, text_eq, ℤ, ◌↔◌, [], false, inl, inr, none, refl,
  some, txt, ◌∷◌, ◌≡◌, ◌≢◌, ◌⊎◌,
}
use submitter_smtp_daemon.Spool.Retention.{cleanup}

abbrev letter : File
letter = plain_file (1 ∷ 2 ∷ 3 ∷ []) 10

abbrev files : Fs
files = (stage_path parsed (txt "m"), letter) ∷ []

abbrev no_copy_faults : CopyFaults
no_copy_faults = record {
  open_source_fails = false;
  open_target_fails = false;
  copy_stops = none;
  sync_fails = false;
}

-- The stages lie on two devices.
abbrev across : MoveFaults
across = record {
  stat_fails = false;
  renaming = cross_device;
  copy = no_copy_faults;
  remove_fails = false;
}

-- As before, and the copy stops after one byte.
abbrev broken_off : MoveFaults
broken_off = record across { copy = record no_copy_faults { copy_stops = some 1 } }

parsed≢signed : parsed ≢ signed
parsed≢signed e = cc

abbrev moved : MoveFaults → Fs
moved m = (move (txt "m") parsed signed m 20 files).1

move_lem_example :
    (f : File) × (find (stage_path parsed (txt "m")) files ≡ some f)
    × (find (stage_path parsed (txt "m")) (moved across) ≡ none)
    × Holds (stage_path signed (txt "m")) f.content (moved across)
    × ((r : FilePath)
        → stage_path parsed (txt "m") ≢ r
        → stage_path signed (txt "m") ≢ r
        → find r (moved across) ≡ find r files)
unfolding move move_found copy_file find stage_path path_eq text_eq txt
move_lem_example = move_lem (txt "m") parsed signed parsed≢signed across 20 files refl

move_lossless_example :
    Holds (stage_path parsed (txt "m")) (1 ∷ 2 ∷ 3 ∷ []) (moved broken_off)
    ⊎ Holds (stage_path signed (txt "m")) (1 ∷ 2 ∷ 3 ∷ []) (moved broken_off)
unfolding find stage_path path_eq text_eq txt
move_lossless_example =
    move_lossless (txt "m") parsed signed parsed≢signed broken_off 20 files letter refl

abbrev plain_write : WriteFaults
plain_write = record {
  open_fails = false;
  write_stops = none;
  sync_fails = false;
  rename_fails = false;
  remove_fails = false;
  move = across;
}

abbrev disk_full : WriteFaults
disk_full = record plain_write { write_stops = some 1 }

abbrev after_write : WriteFaults → Fs
after_write w = (write (txt "n") (7 ∷ 8 ∷ []) w 30 files).1

files-IsKeyed : IsKeyed files
unfolding find path_eq text_eq txt stage_path
files-IsKeyed p f (inl e) = subst (λ (y : FilePath × File). find y.0 files ≡ some y.1) (sym e) refl
files-IsKeyed p f (inr h) = absurd h

list_lem_example :
    (Member (txt "m") (list false parsed files).1 ↔ (
      (txt "m" ≢ [])
      × ((f : File) × (find (stage_path parsed (txt "m")) files ≡ some f) × (f.is_dir ≡ false))))
    × (count false parsed files ≡ (none, length (list false parsed files).1))
list_lem_example = list_lem parsed files (txt "m") files-IsKeyed

abbrev policy : List (Stage × ℤ)
policy = (parsed, pos 5) ∷ (signed, pos 0) ∷ []

cleanup_only_example :
    (find (stage_path parsed (txt "m")) (cleanup no_faults 100 policy files)
      ≡ find (stage_path parsed (txt "m")) files)
    ⊎ ((find (stage_path parsed (txt "m")) (cleanup no_faults 100 policy files) ≡ none)
        × Expired 100 policy (stage_path parsed (txt "m")) files)
cleanup_only_example =
    cleanup_only no_faults 100 policy files (stage_path parsed (txt "m")) files-IsKeyed

letter-Expired : Expired 100 policy (stage_path parsed (txt "m")) files
unfolding find stage_path path_eq text_eq txt
letter-Expired = (letter, 5, refl, refl, omega arith, inl refl, omega arith)

cleanup_complete_example :
    find (stage_path parsed (txt "m")) (cleanup no_faults 100 policy files) ≡ none
cleanup_complete_example =
    cleanup_complete 100 policy files (stage_path parsed (txt "m")) files-IsKeyed letter-Expired

-- A tick while the letter is young, a change that does nothing, and the stop.
abbrev cleaner_run : List Event
cleaner_run = ticks no_faults 4 ∷ changes (λ fs. fs) ∷ stops ∷ []

letter_is_spared : AllSpare policy (stage_path parsed (txt "m")) letter cleaner_run
unfolding stage_path
letter_is_spared = (λ r m. omega arith, (((λ fs. refl), λ fs k. k), tt))

young_files_stay_example :
    find (stage_path parsed (txt "m")) (Cleaner.run true policy cleaner_run files) ≡ some letter
unfolding find stage_path path_eq text_eq txt
young_files_stay_example =
    young_files_stay policy (stage_path parsed (txt "m")) letter true cleaner_run files
      letter_is_spared files-IsKeyed refl

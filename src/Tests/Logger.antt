-- ===== src/Tests/Logger.antt =====
-- internal/logger/logger.go over a concrete logging library.
use submitter_smtp_daemon.Logger.{Level, Zerolog, Config, new, error_level}
use submitter_smtp_daemon.Logger.Settings.{IsWriter, Names}
use submitter_smtp_daemon.Logger.Lines.{
  IsZerolog, With, stage, several, severity, write, derive_all, new_lem, all_added,
}
use submitter_smtp_daemon.Prelude.{
  List, Text, [], arith, false, if◌then◌else◌, leb, le→leb, refl, some, txt, ℕ, ◌++◌, ◌+◌, ◌∷◌, ◌≡◌,
}

abbrev Logger : Type 0
Logger = ℕ × List (Text × Text)

abbrev library : Zerolog ℕ Logger
library = record {
  stdout = 1;
  console_writer = λ w. w + 100;
  fresh = λ w. (w, []);
  timestamp = λ l. l;
  caller = λ l. l;
  str = λ k v l. (l.0, l.1 ++ (k, v) ∷ []);
  err = λ e l. (l.0, l.1 ++ (txt "error", e) ∷ []);
  fields = λ fs l. (l.0, l.1 ++ fs);
  msg = λ g level message l.
      if leb (severity g) (severity level)
      then record { writer = l.0; level = level; context = l.1; message = message } ∷ []
      else [];
}

library-IsZerolog : IsZerolog library
library-IsZerolog = record {
  writer = λ l. l.0;
  context = λ l. l.1;
  writer-fresh = λ w. refl;
  context-fresh = λ w. refl;
  writer-str = λ k v l. refl;
  context-str = λ k v l. refl;
  writer-err = λ e l. refl;
  context-err = λ e l. refl;
  writer-fields = λ fs l. refl;
  context-fields = λ fs l. refl;
  msg-written = λ g level message l le. rw (le→leb (severity g) (severity level) le) refl;
  msg-dropped = λ g level message l lt.
      (let high : leb (severity g) (severity level) ≡ false = ground arith in rw high refl);
}

abbrev config : Config ℕ
config = record { level = txt "warn"; format = txt "console"; output = some 7 }

abbrev chain : List With
chain = stage (txt "s") ∷ several ((txt "k", txt "v") ∷ []) ∷ []

new_lem_example :
    (threshold : Level) × Names config.level threshold
    × (writer : ℕ) × IsWriter library config writer
    × (write library error_level
          (new library config).1
          (txt "m")
          (derive_all library chain (new library config).0)
        ≡ (if leb (severity threshold) 3
            then record {
              writer = writer;
              level = error_level;
              context = all_added chain;
              message = txt "m";
            }
              ∷ []
            else []))
new_lem_example = new_lem library library-IsZerolog config chain error_level (txt "m")

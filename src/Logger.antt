-- ===== src/Logger.antt =====
-- internal/logger/logger.go: the wrapper of zerolog. The library is not part of the repository: its
-- loggers and writers are types, and what the wrapper calls of it is a record. What a logger writes
-- is a list of lines. The formatting of fmt is an argument, too.
pub mod Settings
pub mod Lines
use submitter_smtp_daemon.Prelude.{List, Option, Text, if◌then◌else◌, none, some, text_eq, txt}

pub data Level : Type 0 where
  debug_level info_level warn_level error_level fatal_level : Level

-- A line of the log: where it goes, its level, the fields beside the timestamp and the caller in
-- order, its message.
pub record Line (W : Type 0) : Type 0 where
  pub writer : W
  pub level : Level
  pub context : List (Text × Text)
  pub message : Text

-- What the wrapper calls of zerolog.
pub record Zerolog (W L : Type 0) : Type 0 where
  pub stdout : W
  -- `ConsoleWriter` around a writer
  pub console_writer : W → W
  -- `New` and the two calls on its context
  pub fresh : W → L
  pub timestamp : L → L
  pub caller : L → L
  -- `With()`, a call on the context, `Logger()`
  pub str : Text → Text → L → L
  pub err : Text → L → L
  pub fields : List (Text × Text) → L → L
  -- an event of a level with `Msg`, under a global level
  pub msg : Level → Level → Text → L → List (Line W)

pub record Config (W : Type 0) : Type 0 where
  pub level : Text
  pub format : Text
  pub output : Option W

-- The global state of zerolog that `New` sets.
pub record Global (L : Type 0) : Type 0 where
  pub level : Level
  pub logger : L

unfoldable pub parse_level : Text → Level
parse_level level =
    if text_eq level (txt "debug")
    then debug_level
    else if text_eq level (txt "info")
    then info_level
    else if text_eq level (txt "warn")
    then warn_level
    else if text_eq level (txt "error")
    then error_level
    else info_level

module _ {W L : Type 0} (z : Zerolog W L) where
  unfoldable pub output_of : Config W → W
  output_of cfg =
      let output : W = elim cfg.output [ some w ↦ w | none ↦ z.stdout ] in
      if text_eq cfg.format (txt "console") then z.console_writer output else output

  -- `New`: the logger, and the global state that it leaves
  unfoldable pub new : Config W → L × Global L
  unfolding output_of parse_level
  new cfg =
      let logger = z.caller (z.timestamp (z.fresh (output_of cfg))) in
      (logger, record { level = parse_level cfg.level; logger = logger })

  unfoldable pub with_request_id : Text → L → L
  with_request_id = z.str (txt "request_id")

  unfoldable pub with_session_id : Text → L → L
  with_session_id = z.str (txt "session_id")

  unfoldable pub with_message_id : Text → L → L
  with_message_id = z.str (txt "msg_id")

  unfoldable pub with_user : Text → L → L
  with_user = z.str (txt "user")

  unfoldable pub with_client_ip : Text → L → L
  with_client_ip = z.str (txt "client_ip")

  unfoldable pub with_component : Text → L → L
  with_component = z.str (txt "component")

  unfoldable pub with_stage : Text → L → L
  with_stage = z.str (txt "stage")

  unfoldable pub with_recipient : Text → L → L
  with_recipient = z.str (txt "recipient")

  unfoldable pub with_error : Text → L → L
  with_error = z.err

  unfoldable pub with_fields : List (Text × Text) → L → L
  with_fields = z.fields

  unfoldable pub global : Global L → L
  global g = g.logger

  unfoldable pub debug : Global L → Text → L → List (Line W)
  debug g = z.msg g.level debug_level

  unfoldable pub info : Global L → Text → L → List (Line W)
  info g = z.msg g.level info_level

  unfoldable pub warn : Global L → Text → L → List (Line W)
  warn g = z.msg g.level warn_level

  unfoldable pub error : Global L → Text → L → List (Line W)
  error g = z.msg g.level error_level

  -- the process exits when the line is written
  unfoldable pub fatal : Global L → Text → L → List (Line W)
  fatal g = z.msg g.level fatal_level

  module _ {A : Type 0} (sprintf : Text → List A → Text) where
    unfoldable pub debugf : Global L → Text → List A → L → List (Line W)
    unfolding debug
    debugf g format args = debug g (sprintf format args)

    unfoldable pub infof : Global L → Text → List A → L → List (Line W)
    unfolding info
    infof g format args = info g (sprintf format args)

    unfoldable pub warnf : Global L → Text → List A → L → List (Line W)
    unfolding warn
    warnf g format args = warn g (sprintf format args)

    unfoldable pub errorf : Global L → Text → List A → L → List (Line W)
    unfolding error
    errorf g format args = error g (sprintf format args)

    unfoldable pub fatalf : Global L → Text → List A → L → List (Line W)
    unfolding fatal
    fatalf g format args = fatal g (sprintf format args)

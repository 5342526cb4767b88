-- ===== src/Tests/Session.antt =====
-- internal/ratelimit, internal/auth and internal/smtpserver with a concrete Redis.
use submitter_smtp_daemon.Ratelimit.Cleaner.{Event, asks, ticks, stops, cleaner_invisible}
use submitter_smtp_daemon.Ratelimit.Cleaner
use submitter_smtp_daemon.Session.Accepting.{data_lem, data_error}
use submitter_smtp_daemon.Session.Commands.{
  IsProper, auth_response, mail_from, rcpt_to, run, run-IsProper,
}
use submitter_smtp_daemon.Session.Logins.{log_in_lem}
use submitter_smtp_daemon.Session.Sasl.{auth, is_trusted, log_in}
use submitter_smtp_daemon.Session.{
  accept, read_limited, Backend, Session, Shared, SmtpError, data_, extract_ip, new_session,
  trim_left, trim_right,
}
use submitter_smtp_daemon.Ratelimit.Window.{calls_of, local_window, min, passed}
use submitter_smtp_daemon.Ratelimit.{
  check_user_recipients, recipients_so_far, Buckets, Limiter, Redis, check_ip_connection,
  check_ip_failed_auth, check_limit, check_redis_limit, conclude, find_bucket,
}
use submitter_smtp_daemon.Auth.Passwords.{IsStore, authenticate-set_password}
use submitter_smtp_daemon.Auth.{
  Store, Reply, value, missing, broken, authenticate, set_password, password_key,
}
use submitter_smtp_daemon.Spool.{move, move_found, stage_path, temp_path, WriteFaults, renamed}
use submitter_smtp_daemon.Spool
use submitter_smtp_daemon.Spool.Moves.{Holds}
use submitter_smtp_daemon.Files.{path_eq, put, remove, rename, FilePath, find, incoming, tmp}
use submitter_smtp_daemon.Prelude.{
  wrap_int64, max_int64, negsuc, length, ◌+ℤ◌, List, Option, Text, [], arith, false, if◌then◌else◌,
  inl, inr, none, pos, refl, some, split, text_eq, text_eq_iff, text_eq_refl, true, txt, ℕ, ℤ, ◌+◌,
  ◌↔◌, ◌∷◌, ◌≡◌, ◌≢◌, ◌≤ℤ◌, ◌⊎◌,
}

-- The users are an association list; counters are never full, and GET of a counter fails.
abbrev pub Users : Type 0
Users = List (Text × Text)

look_up : Text → Users → Reply
look_up key [] = missing
look_up key ((k, v) ∷ us) = if text_eq k key then value v else look_up key us

abbrev pub store : Store Users
unfolding look_up
store = record {
  get = look_up;
  set = λ key v us. (false, (key, v) ∷ us);
  exists = λ key us. elim (look_up key us) [ value v ↦ some 1 | missing ↦ some 0 | broken ↦ none ];
  keys = λ pattern us. none;
  del = λ keys us. (true, us);
}

store-IsStore : IsStore store
unfolding look_up store
store-IsStore = record {
  get_set = λ key v s works. ground (arith, text_eq_refl key);
  get_set_other = λ key j v s ne. ground (arith, text_eq_iff key j);
}

authenticate-set_password_example :
    ((given : Text)
      → ((authenticate store (txt "u") given 5 (set_password store (txt "u") (txt "p") []).1 []).0
          ≡ none)
        ↔ (given ≡ txt "p"))
    × ((other given : Text)
        → txt "u" ≢ other
        → authenticate store other given 5 (set_password store (txt "u") (txt "p") []).1 []
          ≡ authenticate store other given 5 [] [])
unfolding set_password store look_up
authenticate-set_password_example =
    authenticate-set_password store store-IsStore (txt "u") (txt "p") [] 5 [] refl

abbrev pub redis : Redis Users
redis = record {
  incr_expire = λ key window s. (some (pos 1), s);
  get = λ key s. none;
  incr_by_expire = λ key n window s. (true, s);
  scan_int = λ text. pos 0;
}

abbrev pub limiter : Limiter Users
limiter = record {
  user_messages_per_hour = pos 10;
  user_recipients_per_hour = pos 10;
  ip_connections_per_minute = pos 10;
  ip_failed_auth_per_hour = pos 10;
  global_messages_per_second = pos 10;
  global_concurrent_conns = pos 10;
  local_buckets = [];
  current_connections = pos 0;
  metrics = [];
  server = (password_key (txt "u"), txt "p") ∷ [];
}

abbrev two : Text → ℤ
two key = pos 2

abbrev a_minute : Text → ℕ
a_minute key = 60

local_window_example :
    passed two a_minute
      (1 ∷ [])
      ((1 ∷ [], 100) ∷ (1 ∷ [], 120) ∷ (2 ∷ [], 130) ∷ (1 ∷ [], 160) ∷ [])
      []
    ≡ min
        (1 + calls_of two a_minute (1 ∷ []) ((1 ∷ [], 120) ∷ (2 ∷ [], 130) ∷ (1 ∷ [], 160) ∷ []))
        2
unfolding find_bucket
local_window_example =
    local_window two a_minute (1 ∷ []) 100 [] ((1 ∷ [], 120) ∷ (2 ∷ [], 130) ∷ (1 ∷ [], 160) ∷ [])
      (inl refl) (omega arith, (omega arith, (omega arith, tt)))

abbrev one_bucket : Buckets
one_bucket = (1 ∷ [], record { count = 2; reset_time = 50 }) ∷ []

-- A call at the limit, a tick that deletes the bucket, and a call in a new window.
abbrev asked : List Event
asked =
    asks (1 ∷ []) (pos 2) 60 50
    ∷ ticks 400_000_000_000
    ∷ asks (1 ∷ []) (pos 2) 60 400_000_000_000
    ∷ stops
    ∷ []

cleaner_invisible_example : Cleaner.run true asked one_bucket ≡ Cleaner.run false asked one_bucket
cleaner_invisible_example = cleaner_invisible asked 50 one_bucket (tt, tt) (omega arith)

-- No allowlist; addresses and networks are texts.
abbrev pub backend : Backend Users Text Text
backend = record {
  settings = record { port = txt "587"; max_recipients = pos 2; max_message_size = pos 4 };
  redis = redis;
  users = store;
  net = record {
    parse_ip = λ s. some s;
    parse_cidr = λ s. some s;
    contains = λ c ip. text_eq c ip;
    trim_space = λ s. s;
  };
  ip_auth = none;
}

abbrev pub shared : Shared Users
shared = record { limiter = limiter; spool = [] }

abbrev fresh : Session
fresh = record {
  session_id = txt "s";
  client_ip = txt "1.2.3.4";
  auth_user = [];
  authenticated = false;
  mail_from = [];
  rcpt_to = [];
  start_time = 7;
}

run-IsProper_example :
    IsProper backend
      (run backend
        (auth_response (auth (txt "PLAIN")) (0 ∷ b'u' ∷ 0 ∷ b'p' ∷ []) 8 1
          ∷ mail_from (txt "u@b") 9 10
          ∷ rcpt_to (txt "a@b")
          ∷ rcpt_to (txt "c@b")
          ∷ rcpt_to (txt "d@b")
          ∷ [])
        (fresh, shared)).0
unfolding new_session extract_ip trim_left trim_right split check_ip_connection check_limit
    check_redis_limit conclude txt
run-IsProper_example =
    run-IsProper backend (txt "s") (txt "1.2.3.4:9") false 6 7 shared fresh refl
      (auth_response (auth (txt "PLAIN")) (0 ∷ b'u' ∷ 0 ∷ b'p' ∷ []) 8 1
        ∷ mail_from (txt "u@b") 9 10
        ∷ rcpt_to (txt "a@b")
        ∷ rcpt_to (txt "c@b")
        ∷ rcpt_to (txt "d@b")
        ∷ [])
      shared

abbrev logged_in : Session
logged_in = (log_in backend (txt "u") (txt "p") 8 1 fresh shared).1

log_in_lem_example :
    (logged_in.auth_user ≡ txt "u")
    × ((is_trusted backend (txt "1.2.3.4") ≡ true)
        ⊎ ((check_ip_failed_auth redis (txt "1.2.3.4") 8 limiter).0 ≡ none)
          × (look_up
                (password_key (txt "u"))
                (check_ip_failed_auth redis (txt "1.2.3.4") 8 limiter).1.server
              ≡ value (txt "p")))
unfolding log_in is_trusted check_ip_failed_auth check_limit check_redis_limit conclude authenticate
    store look_up txt password_key text_eq
log_in_lem_example = log_in_lem backend (txt "u") (txt "p") 8 1 fresh shared refl refl

abbrev pub addressed : Session
addressed = record fresh {
  auth_user = txt "u";
  authenticated = true;
  mail_from = txt "u@b";
  rcpt_to = txt "a@b" ∷ [];
}

abbrev pub no_faults : WriteFaults
no_faults = record {
  open_fails = false;
  write_stops = none;
  sync_fails = false;
  rename_fails = false;
  remove_fails = false;
  move = record {
    stat_fails = false;
    renaming = renamed;
    copy = record {
      open_source_fails = false;
      open_target_fails = false;
      copy_stops = none;
      sync_fails = false;
    };
    remove_fails = false;
  };
}

abbrev pub sent : List ℕ → Option SmtpError × Shared Users
sent content = data_ backend content false (txt "m") no_faults 20 addressed shared

data_lem_example :
    (length addressed.rcpt_to ≢ 0)
    × (pos 4 ≤ℤ pos 4)
    × (false ≡ false)
    × Holds (stage_path incoming (txt "m")) (1 ∷ 2 ∷ 3 ∷ 4 ∷ []) (sent (1 ∷ 2 ∷ 3 ∷ 4 ∷ [])).1.spool
    × (find (stage_path tmp (txt "m")) (sent (1 ∷ 2 ∷ 3 ∷ 4 ∷ [])).1.spool ≡ none)
    × (find (temp_path (txt "m")) (sent (1 ∷ 2 ∷ 3 ∷ 4 ∷ [])).1.spool ≡ none)
    × ((r : FilePath)
        → temp_path (txt "m") ≢ r
        → stage_path tmp (txt "m") ≢ r
        → stage_path incoming (txt "m") ≢ r
        → find r (sent (1 ∷ 2 ∷ 3 ∷ 4 ∷ [])).1.spool ≡ find r [])
unfolding data_ accept check_user_recipients ◌+ℤ◌ read_limited Spool.write move move_found find
    stage_path temp_path path_eq txt text_eq put remove rename recipients_so_far
data_lem_example =
    data_lem backend (1 ∷ 2 ∷ 3 ∷ 4 ∷ []) false (txt "m") no_faults 20 addressed shared
      (omega arith) refl

abbrev too_large : SmtpError
too_large = record { code = 552; message = txt "Message too large" }

data_error_example :
    find (stage_path incoming (txt "m")) (sent (1 ∷ 2 ∷ 3 ∷ 4 ∷ 5 ∷ [])).1.spool
    ≡ find (stage_path incoming (txt "m")) []
unfolding data_ check_user_recipients ◌+ℤ◌ stage_path temp_path txt
data_error_example =
    data_error backend (1 ∷ 2 ∷ 3 ∷ 4 ∷ 5 ∷ []) false (txt "m") no_faults 20 addressed shared
      too_large refl (stage_path incoming (txt "m")) (λ e. cc) (λ e. cc) (inr (λ e. cc))

-- The sum of the largest int64 and 1 is the smallest.
sum_wraps : wrap_int64 (pos max_int64 +ℤ pos 1) ≡ negsuc max_int64
unfolding wrap_int64 ◌+ℤ◌
sum_wraps = refl

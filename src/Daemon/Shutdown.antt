-- ===== src/Daemon/Shutdown.antt =====
-- The end of `main` of cmd/outbound/main.go, from the signal on, and what it gives the logger at the
-- start.
use submitter_smtp_daemon.Daemon.{Server, Running}
use submitter_smtp_daemon.Config.Types
use submitter_smtp_daemon.Logger
use submitter_smtp_daemon.Prelude.{
  Bool, List, Member, Option, Text, [], false, inl, inr, none, refl, some, true, txt, ◌++◌, ◌∷◌,
  ◌≡◌,
}

-- The `logger.Config` of `main`: no output is given.
unfoldable pub log_config : {W : Type 0} → Types.Config → Logger.Config W
log_config cfg = record {
  level = cfg.observability.log_level;
  format = cfg.observability.log_format;
  output = none;
}

-- What runs beside the SMTP servers: the three workers that wait for their stop channels, the
-- health server, the connection to Redis.
pub record Process : Type 0 where
  pub tls_watched : Bool
  pub spool_cleaned : Bool
  pub buckets_cleaned : Bool
  pub health_served : Bool
  pub redis_connected : Bool
  pub servers : List Server

-- `main` when the signal comes.
unfoldable pub serving : {C : Type 0} → Running C → Process
serving r = record {
  tls_watched = true;
  spool_cleaned = true;
  buckets_cleaned = true;
  health_served = true;
  redis_connected = true;
  servers = r.servers;
}

abbrev pub complaint : Text → Option Text → List Text
complaint what none = []
complaint what (some e) = (what ++ e) ∷ []

-- The shutdown: the errors of the health server and of Redis are only logged. The first component
-- is what is logged.
unfoldable pub shutdown : Text → Option Text → Option Text → Process → List Text × Process
shutdown signal health_error redis_error p = (
  (txt "Received signal " ++ (signal ++ txt ", shutting down gracefully..."))
        ∷ complaint (txt "Health server shutdown error: ") health_error
      ++ complaint (txt "Redis close error: ") redis_error
      ++ txt "Shutdown complete" ∷ [],
  record p {
    tls_watched = false;
    spool_cleaned = false;
    buckets_cleaned = false;
    health_served = false;
    redis_connected = false;
  },
)

-- Whatever the health server and Redis answer, the shutdown gets to its end and stops everything but
-- the SMTP servers: every listener is served until the process ends.
pub shutdown_lem :
    {C : Type 0} (signal : Text) (health_error redis_error : Option Text) (r : Running C)
    → let (lines, p) = shutdown signal health_error redis_error (serving r) in
      Member (txt "Shutdown complete") lines
      × (p.redis_connected ≡ false)
      × (p.spool_cleaned ≡ false)
      × (p.servers ≡ r.servers)
unfolding shutdown serving
shutdown_lem signal none none r = (inr (inl refl), refl, refl, refl)
shutdown_lem signal none (some f) r = (inr (inr (inl refl)), refl, refl, refl)
shutdown_lem signal (some e) none r = (inr (inr (inl refl)), refl, refl, refl)
shutdown_lem signal (some e) (some f) r = (inr (inr (inr (inl refl))), refl, refl, refl)

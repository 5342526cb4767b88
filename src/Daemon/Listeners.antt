-- ===== src/Daemon/Listeners.antt =====
-- How cmd/outbound/main.go serves the listeners of a configuration that config.Load returns.
use mathlib.Core.Path.{subst}
use submitter_smtp_daemon.Daemon.{
  Running, listen_and_serve, new_ip_auth, running, start, start_components, Server,
  listen_and_serve_tls, not_served, serve,
}
use submitter_smtp_daemon.Auth.{Net}
use submitter_smtp_daemon.Session.{Settings}
use submitter_smtp_daemon.Session.Server.{settings_of}
use submitter_smtp_daemon.Config.Types.{Config, ListenerConfig}
use submitter_smtp_daemon.Config.Requirements.{IsServable}
use submitter_smtp_daemon.Config.Validity.{load_lem, IsLoaded}
use submitter_smtp_daemon.Config.Loading.{
  Environment, Loaded, invalid, load, loaded, undecodable, unreadable,
}
use submitter_smtp_daemon.Prelude.{
  pos, some, ℤ, ◌<ℤ◌, ap, All, Bool, List, Option, Option-cases, Text, [], inl, inr, map, refl, sym,
  text_eq, true, ℕ, ◌∙◌, ◌∷◌, ◌⊎◌, arith, false, txt, ◌↔◌, ◌≡◌, ◌≢◌,
}

-- The server speaks the mode of its listener, and has certificates unless that is plaintext.
pub record IsServedAs (l : ListenerConfig) (s : Server) : Type 0 where
  pub same_ip : s.ip ≡ l.ip
  pub same_port : s.port ≡ l.port
  pub implicit : (l.mode ≡ txt "implicit_tls") ↔ (s.serving ≡ listen_and_serve_tls)
  pub is_served : s.serving ≢ not_served
  pub secured : (s.has_tls ≡ false) ↔ (l.mode ≡ txt "plaintext")

-- What the switch makes of each mode.
serve_cases :
    (l : ListenerConfig)
    → IsServable l
    → (l.mode ≡ txt "starttls")
        × ((serve l).serving ≡ listen_and_serve)
        × ((serve l).has_tls ≡ true)
      ⊎ ((l.mode ≡ txt "implicit_tls")
            × ((serve l).serving ≡ listen_and_serve_tls)
            × ((serve l).has_tls ≡ true)
          ⊎ (l.mode ≡ txt "plaintext")
            × ((serve l).serving ≡ listen_and_serve)
            × ((serve l).has_tls ≡ false))
unfolding serve text_eq txt
serve_cases l (low, high, inl e) = inl (e, rw (e, serve) refl, rw (e, serve) refl)
serve_cases l (low, high, inr (inl e)) = inr (inl (e, rw (e, serve) refl, rw (e, serve) refl))
serve_cases l (low, high, inr (inr e)) = inr (inr (e, rw (e, serve) refl, rw (e, serve) refl))

different :
    (txt "starttls" ≢ txt "implicit_tls")
    × (txt "starttls" ≢ txt "plaintext")
    × (txt "implicit_tls" ≢ txt "plaintext")
unfolding txt
different = (λ e. cc e, λ e. cc e, λ e. cc e)

serve-IsServedAs : (l : ListenerConfig) → IsServable l → IsServedAs l (serve l)
unfolding serve
serve-IsServedAs l h = elim (serve_cases l h) [
  | inl (m, how, tls) ↦ record {
    same_ip = ground arith;
    same_port = ground arith;
    implicit = (λ e. absurd (different.0 (sym m ∙ e)), λ e. cc (how, e));
    is_served = λ e. cc (how, e);
    secured = (λ e. cc (tls, e), λ e. absurd (different.1 (sym m ∙ e)));
  }
  | inr (inl (m, how, tls)) ↦ record {
    same_ip = ground arith;
    same_port = ground arith;
    implicit = (λ e. how, λ e. m);
    is_served = λ e. cc (how, e);
    secured = (λ e. cc (tls, e), λ e. absurd (different.2 (sym m ∙ e)));
  }
  | inr (inr (m, how, tls)) ↦ record {
    same_ip = ground arith;
    same_port = ground arith;
    implicit = (λ e. absurd (different.2 (sym e ∙ m)), λ e. cc (how, e));
    is_served = λ e. cc (how, e);
    secured = (λ e. m, λ e. tls);
  }
]

-- Each server is that of its listener, in order.
abbrev pub AreServedAs : List ListenerConfig → List Server → Type 0
AreServedAs [] [] = Unit
AreServedAs [] (s ∷ servers) = ⊥
AreServedAs (l ∷ ls) [] = ⊥
AreServedAs (l ∷ ls) (s ∷ servers) = IsServedAs l s × AreServedAs ls servers

serve_each : (ls : List ListenerConfig) → All IsServable ls → AreServedAs ls (map serve ls)
serve_each [] h = tt
serve_each (l ∷ ls) h = (serve-IsServedAs l h.0, serve_each ls h.1)

list_cases : {A : Type 0} (xs : List A) → (xs ≡ []) ⊎ ((x : A) × (rest : List A) × (xs ≡ x ∷ rest))
list_cases [] = inl refl
list_cases (x ∷ xs) = inr (x, xs, refl)

running_config :
    {I C : Type 0} (net : Net I C) (tls_fails spool_fails : Bool) (cfg : Config) (address : Text)
    (r : Running C)
    → start_components net tls_fails spool_fails cfg address ≡ running r
    → (r.servers ≡ map serve cfg.smtp.listeners) × (tls_fails ≡ false) × (r.config ≡ cfg)
unfolding start_components
running_config net tls_fails spool_fails cfg address r h =
    elim (Option-cases (new_ip_auth net cfg).0) [
      | inl fine ↦ (ground arith, ground arith, ground arith)
      | inr (e, refused) ↦ ground arith
    ]

started :
    {I C : Type 0} (net : Net I C) (tls_fails spool_fails : Bool) (answer : Loaded) (r : Running C)
    → start net tls_fails spool_fails answer ≡ running r
    → (answer ≡ loaded r.config)
      × (tls_fails ≡ false)
      × (r.servers ≡ map serve r.config.smtp.listeners)
unfolding start
started net tls_fails spool_fails unreadable r k = cc k
started net tls_fails spool_fails undecodable r k = cc k
started net tls_fails spool_fails (invalid p) r k = cc k
started net tls_fails spool_fails (loaded cfg) r k = elim (list_cases cfg.redis.addresses) [
  | inl unnamed ↦ cc (rw (unnamed, start) at k)
  | inr (address, more, named) ↦
      let (servers, tls, same) =
        running_config net tls_fails spool_fails cfg address r (rw (named, start) at k) in
      (
        ap loaded (sym same),
        tls,
        servers ∙ ap (λ (c : Config). map serve c.smtp.listeners) (sym same),
      )
]

-- If the daemon gets as far as serving, with what config.Load returns, then its configuration meets
-- all the requirements of Validate, the TLS manager works, and every listener of the configuration
-- is served in its mode, with certificates unless that is plaintext.
pub running_lem :
    {I C : Type 0} (net : Net I C) (tls_fails spool_fails : Bool)
    (unmarshal : List ℕ → Config → Option Config) (env : Environment) (file : Option (List ℕ))
    (path : Text) (r : Running C)
    → start net tls_fails spool_fails (load unmarshal env file path) ≡ running r
    → IsLoaded unmarshal env file path r.config
      × (tls_fails ≡ false)
      × AreServedAs r.config.smtp.listeners r.servers
running_lem net tls_fails spool_fails unmarshal env file path r h =
    let (answer, tls, servers) =
      started net tls_fails spool_fails (load unmarshal env file path) r h in
    let from_load = (load_lem unmarshal env file path r.config).0.0 answer in
    (
      from_load,
      tls,
      subst (AreServedAs r.config.smtp.listeners) (sym servers)
          (serve_each r.config.smtp.listeners from_load.3.servable),
    )

-- What the sessions read of a configuration that config.Load returns is there, the port of the first
-- listener too, and their maximum for a message is positive.
has_settings :
    (unmarshal : List ℕ → Config → Option Config) (env : Environment) (file : Option (List ℕ))
    (path : Text) (decimal : ℤ → Text) (cfg : Config)
    → IsLoaded unmarshal env file path cfg
    → (s : Settings) × (settings_of decimal cfg ≡ some s) × (pos 0 <ℤ s.max_message_size)
unfolding settings_of
has_settings unmarshal env file path decimal cfg from_load = elim (list_cases cfg.smtp.listeners) [
  | inl unheard ↦ absurd (from_load.3.listens unheard)
  | inr (l, ls, heard) ↦ (
    record {
      port = decimal l.port;
      max_recipients = cfg.smtp.max_recipients;
      max_message_size = cfg.smtp.max_message_size;
    },
    rw (heard, settings_of) refl,
    from_load.3.takes_messages,
  )
]

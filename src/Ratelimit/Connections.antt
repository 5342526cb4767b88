-- ===== src/Ratelimit/Connections.antt =====
-- The connection counter of internal/ratelimit/ratelimit.go under concurrent sessions: NewSession of
-- internal/smtpserver/session.go asks CheckIPConnection and calls IncrementConnection later, Logout
-- calls DecrementConnection.
use mathlib.Core.Path.{subst}
use submitter_smtp_daemon.Ratelimit.{
  global_connection_limit, connection_rate_limit, minute, Error, Limiter, Redis,
  check_ip_connection, check_limit, check_redis_limit, conclude, decrement_connection,
  increment_connection,
}
use submitter_smtp_daemon.Prelude.{
  Bool, Option-cases, refl, true, txt, ℤ, ◌++◌, ◌+ℤ◌, ◌-ℤ◌, ◌∙◌, Bool-cases, Option, Text, arith,
  false, inl, inr, leb_ℤ, none, pos, some, suc, ℕ, ◌+◌, ◌-◌, ◌≡◌, ◌≤◌,
}

pub record Clients (S : Type 0) : Type 0 where
  pub limiter : Limiter S
  -- connections that have passed the check and are not counted yet
  pub admitted : ℕ
  -- sessions
  pub open_sessions : ℕ

module _ {S : Type 0} (redis : Redis S) where
  pub data Step : Clients S → Clients S → Type 0 where
    refuses :
        (ip : Text) (now : ℕ) (c : Clients S) (e : Error) (l : Limiter S)
        → check_ip_connection redis ip now c.limiter ≡ (some e, l)
        → Step c (record c { limiter = l })
    admits :
        (ip : Text) (now : ℕ) (c : Clients S) (l : Limiter S)
        → check_ip_connection redis ip now c.limiter ≡ (none, l)
        → Step c (record c { limiter = l; admitted = suc c.admitted })
    counts :
        (n : ℕ) (c : Clients S)
        → c.admitted ≡ suc n
        → Step c (record {
          limiter = increment_connection redis c.limiter;
          admitted = n;
          open_sessions = suc c.open_sessions;
        })
    leaves :
        (n : ℕ) (c : Clients S)
        → c.open_sessions ≡ suc n
        → Step c (record c { limiter = decrement_connection redis c.limiter; open_sessions = n })

  -- The states that are reached while at most `most` connections are between check and count.
  pub data Reachable (most : ℕ) (start : Clients S) : Clients S → Type 0 where
    started : Reachable most start start
    next :
        {c c' : Clients S}
        → Reachable most start c
        → Step c c'
        → c'.admitted ≤ most
        → Reachable most start c'

  -- The limit and the counter are the same.
  abbrev Keeps : Limiter S → Limiter S → Type 0
  Keeps l l' =
      (l'.global_concurrent_conns ≡ l.global_concurrent_conns)
      × (l'.current_connections ≡ l.current_connections)

  conclude-Keeps :
      (type identifier : Text) (e : Error) (v : Bool) (l : Limiter S)
      → Keeps l (conclude redis type identifier e (v, l)).1
  unfolding conclude
  conclude-Keeps type identifier e true l = (refl, refl)
  conclude-Keeps type identifier e false l = (refl, refl)

  check_limit-Keeps :
      (key : Text) (limit : ℤ) (window now : ℕ) (l : Limiter S)
      → Keeps l (check_limit redis key limit window now l).1
  unfolding check_limit
  check_limit-Keeps key limit window now l =
      elim (Option-cases (check_redis_limit redis key limit window l.server).0) [
        | inl failed ↦ (ground arith, ground arith)
        | inr (verdict, answered) ↦ (ground arith, ground arith)
      ]

  check-Keeps :
      (ip : Text) (now : ℕ) (l : Limiter S) → Keeps l (check_ip_connection redis ip now l).1
  unfolding check_ip_connection
  check-Keeps ip now l = elim (Bool-cases (leb_ℤ l.global_concurrent_conns l.current_connections)) [
    | inl full ↦ rw full (
        conclude-Keeps (txt "global") (txt "concurrent_connections") global_connection_limit false
          l)
    | inr room ↦ rw room (
        let r =
          check_limit redis (txt "ratelimit:ip:conn:" ++ ip) l.ip_connections_per_minute minute now
            l in
        let (a, b) =
          check_limit-Keeps (txt "ratelimit:ip:conn:" ++ ip) l.ip_connections_per_minute minute now
            l in
        let (c, d) = conclude-Keeps (txt "ip") ip (connection_rate_limit ip) r.0 r.1 in
        (c ∙ a, d ∙ b))
  ]

  check_admits :
      (ip : Text) (now : ℕ) (l l' : Limiter S)
      → check_ip_connection redis ip now l ≡ (none, l')
      → leb_ℤ l.global_concurrent_conns l.current_connections ≡ false
  unfolding check_ip_connection conclude
  check_admits ip now l l' h =
      elim (Bool-cases (leb_ℤ l.global_concurrent_conns l.current_connections)) [
        | inl full ↦ ground arith
        | inr room ↦ room
      ]

  module _ (limit most : ℕ) where
    -- The counter shows the sessions, which are within the bound.
    abbrev pub IsBounded : Clients S → Type 0
    IsBounded c =
        (c.limiter.global_concurrent_conns ≡ pos limit)
        × (c.limiter.current_connections ≡ pos c.open_sessions)
        × (c.open_sessions + c.admitted ≤ limit + (most - 1))

    checked :
        (ip : Text) (now : ℕ) (c : Clients S) (answer : Option Error) (l : Limiter S)
        → check_ip_connection redis ip now c.limiter ≡ (answer, l)
        → Keeps c.limiter l
    checked ip now c answer l h =
        subst (λ (r : Option Error × Limiter S). Keeps c.limiter r.1) h
          (check-Keeps ip now c.limiter)

    step-IsBounded :
        (c c' : Clients S) → Step c c' → c'.admitted ≤ most → IsBounded c → IsBounded c'
    unfolding ◌+ℤ◌ ◌-ℤ◌ increment_connection decrement_connection
    step-IsBounded c c' (refuses ip now d e l h) few (same, shown, bound) =
        let (k, j) = checked ip now d (some e) l h in (k ∙ same, j ∙ shown, bound)
    step-IsBounded c c' (admits ip now d l h) few (same, shown, bound) =
        let (k, j) = checked ip now d none l h in
        let room : leb_ℤ (pos limit) (pos d.open_sessions) ≡ false =
          rw (same, shown) at (check_admits ip now d.limiter l h) in
        let below : suc d.open_sessions ≤ limit = ground arith in
        (k ∙ same, j ∙ shown, omega (arith, below, few))
    step-IsBounded c c' (counts n d held) few (same, shown, bound) =
        (same, rw shown (ground arith), omega (arith, held, bound))
    step-IsBounded c c' (leaves n d held) few (same, shown, bound) =
        (same, rw (shown, held) (ground arith), omega (arith, held, bound))

    reachable-IsBounded :
        (start c : Clients S) → Reachable most start c → IsBounded start → IsBounded c
    reachable-IsBounded start c started h = h
    reachable-IsBounded start c (next before step few) h =
        step-IsBounded _ c step few (reachable-IsBounded start _ before h)

    -- From a limiter with a limit on connections, a counter of 0 and no connection, while at most
    -- `most` connections at a time are between the check and the count: the counter is always the
    -- number of sessions, and there are never more of them than the limit and `most` less one. So
    -- the limit is kept exactly where sessions are opened one after the other.
    pub connections_lem :
        (start c : Clients S)
        → Reachable most start c
        → start.limiter.global_concurrent_conns ≡ pos limit
        → start.limiter.current_connections ≡ pos 0
        → start.admitted ≡ 0
        → start.open_sessions ≡ 0
        → (c.limiter.current_connections ≡ pos c.open_sessions)
          × (c.open_sessions ≤ limit + (most - 1))
    connections_lem start c reached given zero_count none_admitted none_open =
        let (same, shown, bound) =
          reachable-IsBounded start c reached
            (given, rw none_open zero_count, omega (arith, none_admitted, none_open)) in
        (shown, omega (arith, bound))

-- ===== src/Tests/Users.antt =====
-- DeleteUser of internal/auth/redis.go, and the connection counter of internal/ratelimit.
use submitter_smtp_daemon.Auth.Passwords.{append_cancel_right}
use submitter_smtp_daemon.Auth.{
  authenticate, delete_user, user_pattern, Reply, Store, missing, value,
}
use submitter_smtp_daemon.Auth.Deletion.{HasKeys, HasPrefix, delete_user_lem}
use submitter_smtp_daemon.Ratelimit.Connections.{
  next, started, admits, counts, Clients, Reachable, connections_lem,
}
use submitter_smtp_daemon.Ratelimit.{
  Limiter, check_ip_connection, check_limit, check_redis_limit, conclude, increment_connection,
}
use submitter_smtp_daemon.Tests.Session.{Users, redis, limiter}
use submitter_smtp_daemon.Metrics.{Metrics}
use submitter_smtp_daemon.Prelude.{
  ap, pos, ℕ, ◌+◌, ◌-◌, ◌∙◌, ◌≢◌, ◌≤◌, Bool, Bool-cases, List, Member, Option, Text, [], arith,
  false, if◌then◌else◌, inl, inr, none, refl, some, sym, text_eq, text_eq_iff, true, txt, ◌++◌,
  ◌||◌, ◌∷◌, ◌≡◌,
}

-- A server with one key, which may hold a password.
abbrev the_key : Text
the_key = txt "users:u:password"

abbrev held : Option Text → Reply
held none = missing
held (some v) = value v

abbrev is_listed : List Text → Bool
is_listed [] = false
is_listed (key ∷ keys) = text_eq key the_key || is_listed keys

abbrev listed : Option Text → List Text
listed none = []
listed (some v) = the_key ∷ []

-- KEYS is answered for one pattern only.
abbrev one_user : Store (Option Text)
one_user = record {
  get = λ key s. if text_eq key the_key then held s else missing;
  set = λ key v s. (false, if text_eq key the_key then some v else s);
  exists = λ key s. none;
  keys = λ pattern s. if text_eq pattern (txt "users:u:*") then some (listed s) else none;
  del = λ keys s. (false, if is_listed keys then none else s);
}

is_listed-Member :
    (key : Text) (keys : List Text)
    → text_eq key the_key ≡ true
    → Member key keys
    → is_listed keys ≡ true
is_listed-Member key (k ∷ keys) own (inl e) = rw (sym e) (rw own refl)
is_listed-Member key (k ∷ keys) own (inr m) = ground (arith, is_listed-Member key keys own m)
is_listed-Member key [] own m = absurd m

Member-is_listed : (keys : List Text) → is_listed keys ≡ true → Member the_key keys
Member-is_listed [] h = cc h
Member-is_listed (k ∷ keys) h = elim (Bool-cases (text_eq k the_key)) [
  | inl same ↦ inl (sym ((text_eq_iff k the_key).0 same))
  | inr other ↦ inr (Member-is_listed keys (ground arith))
]

prefix_is :
    (prefix : Text) (keys : List Text) (s : Option Text)
    → one_user.keys (prefix ++ txt "*") s ≡ some keys
    → (prefix ≡ txt "users:u:") × (keys ≡ listed s)
unfolding txt
prefix_is prefix keys s h = elim (Bool-cases (text_eq (prefix ++ txt "*") (txt "users:u:*"))) [
  | inl same ↦ (
    append_cancel_right prefix (txt "users:u:") (txt "*")
        ((text_eq_iff (prefix ++ txt "*") (txt "users:u:*")).0 same),
    ground arith,
  )
  | inr other ↦ ground arith
]

listed-the_key : (key : Text) (s : Option Text) → Member key (listed s) → key ≡ the_key
listed-the_key key none m = absurd m
listed-the_key key (some v) (inl e) = e
listed-the_key key (some v) (inr m) = absurd m

the_key-listed : (v : Text) (s : Option Text) → held s ≡ value v → Member the_key (listed s)
the_key-listed v none h = cc h
the_key-listed v (some w) h = inl refl

only_key :
    (key v : Text) (s : Option Text)
    → one_user.get key s ≡ value v
    → (key ≡ the_key) × (held s ≡ value v)
only_key key v s h = elim (Bool-cases (text_eq key the_key)) [
  | inl own ↦ ((text_eq_iff key the_key).0 own, ground arith)
  | inr other ↦ ground arith
]

one_user-HasKeys : HasKeys one_user
unfolding txt
one_user-HasKeys = record {
  keys_start = λ prefix key keys s literal h m.
      let (p, k) = prefix_is prefix keys s h in
      (txt "password", listed-the_key key s (rw k at m) ∙ ap (λ t. t ++ txt "password") (sym p));
  keys_all = λ prefix key v keys s literal h starts holds.
      let (p, k) = prefix_is prefix keys s h in
      let (own, v_there) = only_key key v s holds in rw (own, k) (the_key-listed v s v_there);
  get_del = λ key keys s works m. elim (Bool-cases (text_eq key the_key)) [
    | inl own ↦ let l = is_listed-Member key keys own m in ground arith
    | inr other ↦ ground arith
  ];
  get_del_other = λ key keys s n. elim (Bool-cases (text_eq key the_key)) [
    | inr other ↦ ground arith
    | inl own ↦ elim (Bool-cases (is_listed keys)) [
      | inl l ↦ absurd (n (rw ((text_eq_iff key the_key).0 own) (Member-is_listed keys l)))
      | inr out ↦ ground arith
    ]
  ];
}

abbrev registered : Option Text
registered = some (txt "p")

delete_user_lem_example :
    ((password : Text) (duration : ℕ) (m : Metrics)
      → (authenticate one_user (txt "u") password duration none m).0 ≢ none)
    × ((v password : Text) (duration : ℕ) (m : Metrics)
        → v ≢ txt "u"
        → (HasPrefix (txt "u" ++ txt ":") v → ⊥)
        → authenticate one_user v password duration none m
          ≡ authenticate one_user v password duration registered m)
unfolding delete_user user_pattern text_eq txt
delete_user_lem_example =
    delete_user_lem one_user one_user-HasKeys (txt "u") registered none
      (((λ e. ground arith), (λ e. ground arith), (λ e. ground arith), (λ e. ground arith)), tt)
      refl

-- A connection passes the check and is then counted.
abbrev nobody : Clients Users
nobody = record { limiter = limiter; admitted = 0; open_sessions = 0 }

abbrev checked : Limiter Users
checked = (check_ip_connection redis (txt "a") 0 limiter).1

abbrev one_admitted : Clients Users
one_admitted = record { limiter = checked; admitted = 1; open_sessions = 0 }

abbrev one_open : Clients Users
one_open = record { limiter = increment_connection redis checked; admitted = 0; open_sessions = 1 }

one_reached : Reachable redis 1 nobody one_open
unfolding check_ip_connection check_limit check_redis_limit conclude
one_reached =
    next (next started (admits (txt "a") 0 nobody checked refl) (omega arith))
      (counts 0 one_admitted refl) (omega arith)

connections_lem_example : (one_open.limiter.current_connections ≡ pos 1) × (1 ≤ 10 + (1 - 1))
connections_lem_example = connections_lem redis 10 1 nobody one_open one_reached refl refl refl refl

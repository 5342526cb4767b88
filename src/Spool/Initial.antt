-- ===== src/Spool/Initial.antt =====
-- `New` and `initialize` of internal/spool/spool.go: the stage directories that are made. Which call
-- of os.MkdirAll fails is an argument.
use submitter_smtp_daemon.Spool.{all_stages}
use submitter_smtp_daemon.Files.{
  Stage, tmp, incoming, parsed, filtered, modified, signed, delivering, done, failed,
}
use submitter_smtp_daemon.Prelude.{
  Bool, Bool-cases, List, Member, Member-append-left, Member-append-right, Option, [], arith,
  if◌then◌else◌, inl, inr, none, some, ◌++◌, ◌∷◌, ◌≡◌, ◌⊎◌,
}

-- the loop of `initialize`, with the directories that are made: the stage that fails, if one does
unfoldable pub initialize : (Stage → Bool) → List Stage → List Stage → Option Stage × List Stage
initialize mkdir_fails [] made = (none, made)
initialize mkdir_fails (stage ∷ stages) made =
    let rest = initialize mkdir_fails stages (made ++ stage ∷ []) in
    if mkdir_fails stage then (some stage, made) else rest

-- `New`: the directories that it leaves, and why it fails
unfoldable pub new_spool : (Stage → Bool) → Option Stage × List Stage
unfolding initialize all_stages
new_spool mkdir_fails = initialize mkdir_fails all_stages []

module _ (mkdir_fails : Stage → Bool) where
  initialize_lem :
      (stages made : List Stage) (stage : Stage)
      → (initialize mkdir_fails stages made).0 ≡ none
      → Member stage stages ⊎ Member stage made
      → Member stage (initialize mkdir_fails stages made).1
  unfolding initialize
  initialize_lem [] made stage h (inl m) = absurd m
  initialize_lem [] made stage h (inr m) = m
  initialize_lem (s ∷ stages) made stage h m = elim (Bool-cases (mkdir_fails s)) [
    | inl bad ↦ cc (rw bad at h)
    | inr works ↦ rw works (
        initialize_lem stages (made ++ s ∷ []) stage (rw works at h) (elim m [
          | inl (inl e) ↦ inr (Member-append-right stage made (s ∷ []) (inl e))
          | inl (inr later) ↦ inl later
          | inr old ↦ inr (Member-append-left stage made (s ∷ []) old)
        ]))
  ]

  listed : (stage : Stage) → Member stage all_stages
  unfolding all_stages
  listed tmp = ground arith
  listed incoming = ground arith
  listed parsed = ground arith
  listed filtered = ground arith
  listed modified = ground arith
  listed signed = ground arith
  listed delivering = ground arith
  listed done = ground arith
  listed failed = ground arith

  -- A New that succeeds has made the directory of every stage.
  pub new_spool_lem :
      (stage : Stage) → (new_spool mkdir_fails).0 ≡ none → Member stage (new_spool mkdir_fails).1
  unfolding new_spool
  new_spool_lem stage h = initialize_lem all_stages [] stage h (inl (listed stage))

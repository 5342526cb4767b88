-- ===== src/Tests/Events.antt =====
-- internal/clickhouse/client.go and internal/metrics/metrics.go at concrete runs.
use submitter_smtp_daemon.ClickHouse.Lifecycle.{
  Action, Lifecycle, act, act_all, closes, does, handed, open_client, stops,
}
use submitter_smtp_daemon.ClickHouse.Draining.{IsDrained, close_logs_all, rest_of}
use submitter_smtp_daemon.ClickHouse.Late.{IsQuiet, never_logged}
use submitter_smtp_daemon.ClickHouse.Conservation.{count_if, conservation, held}
use submitter_smtp_daemon.Prelude.{false, refl, some, ◌++◌, List, [], arith, true, ◌∷◌, ◌≡◌}
use submitter_smtp_daemon.ClickHouse.Events.{zero_event}
use submitter_smtp_daemon.ClickHouse.{Step, call, emit, new, run, started, tick}

-- Two events, with a flush that starts between them.
abbrev turns : List Step
turns = call zero_event ∷ started ∷ call zero_event ∷ emit 0 ∷ tick ∷ emit 0 ∷ []

conservation_example : held (λ e. true) (run (new 1 []) turns) ≡ 2
conservation_example = conservation (λ e. true) 1 [] turns

-- An event waits in the buffer when Close is called.
abbrev closing : List Action
closing = does (call zero_event) ∷ closes ∷ []

abbrev closed_client : Lifecycle
closed_client = record {
  client = run (new 10 []) (call zero_event ∷ []);
  closed = true;
  working = true;
}

closing_reached : act_all closing (open_client 10 []) ≡ some closed_client
unfolding act_all act open_client run
closing_reached = refl

close_logs_all_example :
    (l' : Lifecycle) × (act stops closed_client ≡ some l')
    × (l'.working ≡ false)
    × (let c = run l'.client (rest_of 0 l'.client.batches) in
        IsDrained c × (count_if (λ e. true) c.logged ≡ count_if (λ e. true) (handed closing)))
close_logs_all_example =
    close_logs_all (λ e. true) 10 [] closing closed_client closing_reached refl refl

-- The client after that, and one more event.
abbrev gone : Lifecycle
gone = record { client = new 10 []; closed = true; working = false }

abbrev late : Lifecycle
late = record { client = run (new 10 []) (call zero_event ∷ []); closed = true; working = false }

late_reached : act_all (does (call zero_event) ∷ does tick ∷ stops ∷ []) gone ≡ some late
unfolding act_all act run new
late_reached = refl

gone-IsQuiet : IsQuiet gone
unfolding new
gone-IsQuiet = record { gone = refl; idle = refl; empty = tt }

never_logged_example :
    (late.client.logged ≡ gone.client.logged)
    × (late.client.buffer ≡ gone.client.buffer ++ zero_event ∷ [])
unfolding new
never_logged_example =
    never_logged (does (call zero_event) ∷ does tick ∷ stops ∷ []) gone late gone-IsQuiet
      (omega arith) late_reached

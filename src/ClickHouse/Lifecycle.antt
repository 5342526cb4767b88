-- ===== src/ClickHouse/Lifecycle.antt =====
-- `New`, `flushWorker` and `Close` of internal/clickhouse/client.go, beside the callers of LogEvent and
-- the flushes that run.
use submitter_smtp_daemon.ClickHouse.Events.{Event}
use submitter_smtp_daemon.ClickHouse.{
  Client, Step, flush_take, new, step, call, started, tick, emit,
}
use submitter_smtp_daemon.Metrics.{Metrics}
use submitter_smtp_daemon.ClickHouse.Conservation.{calls}
use submitter_smtp_daemon.Prelude.{
  Bool, List, Option, [], false, if◌then◌else◌, none, some, true, ℕ, ◌&&◌, ◌++◌, ◌∷◌,
}

-- `closed` stands for the channel `stopChan`, `working` for the goroutine `flushWorker`.
pub record Lifecycle : Type 0 where
  pub client : Client
  pub closed : Bool
  pub working : Bool

-- `New`, of a buffer size that is not negative and a positive flush interval, without which `make` and
-- `time.NewTicker` panic. It starts the flush worker.
unfoldable pub open_client : ℕ → Metrics → Lifecycle
unfolding new
open_client buffer_size metrics = record {
  client = new buffer_size metrics;
  closed = false;
  working = true;
}

-- A step of the client, a call of `Close`, or the flush worker takes the closed channel.
pub data Action : Type 0 where
  does : Step → Action
  closes stops : Action

-- A tick is taken by the flush worker alone; `none` is the panic of closing a closed channel.
unfoldable pub act : Action → Lifecycle → Option Lifecycle
unfolding step flush_take
act (does (call e)) l = some (record l { client = step l.client (call e) })
act (does started) l = some (record l { client = step l.client started })
act (does tick) l = some (if l.working then record l { client = flush_take l.client } else l)
act (does (emit i)) l = some (record l { client = step l.client (emit i) })
act closes l = if l.closed then none else some (record l { closed = true })
act stops l = some (
    if l.closed && l.working then record l { client = flush_take l.client; working = false } else l)

unfoldable pub act_all : List Action → Lifecycle → Option Lifecycle
act_all [] l = some l
act_all (a ∷ more) l = elim (act a l) [ none ↦ none | some l' ↦ act_all more l' ]

-- The events that actions hand to `LogEvent`.
abbrev pub handed : List Action → List Event
handed [] = []
handed (does s ∷ more) = calls (s ∷ []) ++ handed more
handed (closes ∷ more) = handed more
handed (stops ∷ more) = handed more

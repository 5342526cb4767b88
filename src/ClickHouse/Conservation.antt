-- ===== src/ClickHouse/Conservation.antt =====
-- What becomes of the events that are handed to the client of internal/clickhouse/client.go.
use submitter_smtp_daemon.Prelude.{
  Option-cases, inl, inr, length, length-append, ◌-◌, ◌<◌, ◌≤◌, some, ℕ, zero, suc, ◌+◌, ◌≡◌, Bool,
  List, [], ◌∷◌, ◌++◌, arith, if◌then◌else◌,
}
use submitter_smtp_daemon.Metrics.{Metrics}
use submitter_smtp_daemon.ClickHouse.Events.{Event}
use submitter_smtp_daemon.ClickHouse.{
  new, run, Client, Step, call, started, tick, emit, log_event, flush_take, pop_batch, flush_log,
  step,
}

-- How many events of a list pass a test.
abbrev pub count_if : (Event → Bool) → List Event → ℕ
count_if p [] = 0
count_if p (e ∷ es) = (if p e then 1 else 0) + count_if p es

abbrev pub count_batches : (Event → Bool) → List (List Event) → ℕ
count_batches p [] = 0
count_batches p (b ∷ bs) = count_if p b + count_batches p bs

-- The events that a run hands to `LogEvent`.
abbrev pub calls : List Step → List Event
calls [] = []
calls (call e ∷ ss) = e ∷ calls ss
calls (started ∷ ss) = calls ss
calls (tick ∷ ss) = calls ss
calls (emit i ∷ ss) = calls ss

-- Where an event can be: waiting, in a running flush, or logged.
abbrev pub held : (Event → Bool) → Client → ℕ
held p c = count_if p c.buffer + count_batches p c.batches + count_if p c.logged

module _ (p : Event → Bool) where
  pub count-append : (xs ys : List Event) → count_if p (xs ++ ys) ≡ count_if p xs + count_if p ys
  count-append [] ys = omega arith
  count-append (x ∷ xs) ys = omega (arith, count-append xs ys)

  batches-append :
      (xs : List (List Event)) (b : List Event)
      → count_batches p (xs ++ b ∷ []) ≡ count_batches p xs + count_if p b
  batches-append [] b = omega arith
  batches-append (x ∷ xs) b = omega (arith, batches-append xs b)

  pop_batch-held :
      (bs : List (List Event)) (i : ℕ) (e : Event) (rest : List (List Event))
      → pop_batch bs i ≡ some (e, rest)
      → count_batches p bs ≡ (if p e then 1 else 0) + count_batches p rest
  unfolding pop_batch
  pop_batch-held [] i e rest h = cc
  pop_batch-held ([] ∷ bs) zero e rest h = cc
  pop_batch-held ((x ∷ es) ∷ bs) zero e rest h = ground arith
  pop_batch-held (b ∷ bs) (suc i) e rest h = elim (Option-cases (pop_batch bs i)) [
    | inl q ↦ ground arith
    | inr (r, q) ↦ ground (arith, pop_batch-held bs i r.0 r.1 q)
  ]

  pub flush_take-held : (c : Client) → held p (flush_take c) ≡ held p c
  unfolding flush_take
  flush_take-held c = ground (arith, batches-append c.batches c.buffer)

  pub step-held :
      (c : Client) (s : Step) → held p (step c s) ≡ held p c + count_if p (calls (s ∷ []))
  unfolding step log_event flush_log
  step-held c (call e) = ground (arith, count-append c.buffer (e ∷ []))
  step-held c started = ground (arith, flush_take-held (record c { flushing = c.flushing - 1 }))
  step-held c tick = omega (arith, flush_take-held c)
  step-held c (emit i) = elim (Option-cases (pop_batch c.batches i)) [
    | inl q ↦ ground arith
    | inr (r, q) ↦
        ground (arith, pop_batch-held c.batches i r.0 r.1 q, count-append c.logged (r.0 ∷ []))
  ]

  calls-cons :
      (s : Step) (ss : List Step)
      → count_if p (calls (s ∷ ss)) ≡ count_if p (calls (s ∷ [])) + count_if p (calls ss)
  calls-cons (call e) ss = omega arith
  calls-cons started ss = omega arith
  calls-cons tick ss = omega arith
  calls-cons (emit i) ss = omega arith

  pub run-held :
      (c : Client) (ss : List Step) → held p (run c ss) ≡ held p c + count_if p (calls ss)
  unfolding run
  run-held c [] = omega arith
  run-held c (s ∷ ss) = omega (arith, run-held (step c s) ss, step-held c s, calls-cons s ss)

-- From a new client, whatever the order in which calls of LogEvent, the flush goroutines that they
-- start, the flush worker and the loops of running flushes take their turns, every event that was
-- handed over is in the buffer, in a running flush or logged, exactly as often as it was handed
-- over: for each test on events, the numbers agree.
pub conservation :
    (p : Event → Bool) (size : ℕ) (m : Metrics) (ss : List Step)
    → held p (run (new size m) ss) ≡ count_if p (calls ss)
unfolding new
conservation p size m ss = omega (arith, run-held p (new size m) ss)

-- A buffer that has reached its size has a flush goroutine on its way.
abbrev pub IsFlushed : Client → Type 0
IsFlushed c = c.buffer_size ≤ length c.buffer → 0 < c.flushing

flush_take-IsFlushed :
    (c : Client) (n : ℕ) → 0 < c.buffer_size → IsFlushed (flush_take (record c { flushing = n }))
unfolding flush_take
flush_take-IsFlushed c n h = ground arith

step-IsFlushed :
    (c : Client) (s : Step)
    → 0 < c.buffer_size
    → IsFlushed c
    → IsFlushed (step c s) × ((step c s).buffer_size ≡ c.buffer_size)
unfolding step log_event flush_log flush_take
step-IsFlushed c (call e) h k = ground (arith, length-append c.buffer (e ∷ []))
step-IsFlushed c started h k = ground arith
step-IsFlushed c tick h k = ground arith
step-IsFlushed c (emit i) h k = ground arith

run-IsFlushed :
    (c : Client) (ss : List Step) → 0 < c.buffer_size → IsFlushed c → IsFlushed (run c ss)
unfolding run
run-IsFlushed c [] h k = k
run-IsFlushed c (s ∷ ss) h k =
    let next = step-IsFlushed c s h k in run-IsFlushed (step c s) ss (omega (arith, next.1)) next.0

-- With a positive buffer size, in every state that a new client reaches, a buffer that holds as
-- many events as its size has a flush goroutine that LogEvent started and that still has to run.
pub full_buffer-IsFlushed :
    (size : ℕ) (m : Metrics) (ss : List Step) → 0 < size → IsFlushed (run (new size m) ss)
unfolding new
full_buffer-IsFlushed size m ss h = run-IsFlushed (new size m) ss h (λ k. omega arith)

-- ===== src/ClickHouse/Draining.antt =====
-- The last flush of `flushWorker` of internal/clickhouse/client.go.
use submitter_smtp_daemon.ClickHouse.Lifecycle.{
  open_client, Lifecycle, Action, does, closes, stops, act, act_all, handed,
}
use mathlib.Core.Path.{subst}
use submitter_smtp_daemon.ClickHouse.Events.{Event}
use submitter_smtp_daemon.ClickHouse.{
  flush_log, Client, Step, flush_take, new, pop_batch, run, step, call, started, tick, emit,
}
use submitter_smtp_daemon.Metrics.{record_click_house_event, Metrics}
use submitter_smtp_daemon.ClickHouse.Conservation.{
  count-append, calls, count_batches, count_if, flush_take-held, held, run-held, step-held,
}
use submitter_smtp_daemon.Prelude.{
  Option-cases, inl, inr, ◌+◌, ap, append_assoc, append_nil, arith, length-append, sym, txt, ◌∙◌,
  Bool, List, [], false, length, refl, some, suc, true, zero, ℕ, ◌++◌, ◌∷◌, ◌≡◌,
}

-- The rounds that the running flushes have left, flush by flush.
unfoldable pub rounds : ℕ → ℕ → List Step
rounds i zero = []
rounds i (suc n) = emit i ∷ rounds i n

unfoldable pub rest_of : ℕ → List (List Event) → List Step
unfolding rounds
rest_of i [] = []
rest_of i (b ∷ bs) = rounds i (length b) ++ rest_of (suc i) bs

abbrev pub AllEmpty : List (List Event) → Type 0
AllEmpty [] = Unit {0}
AllEmpty (b ∷ bs) = (b ≡ []) × AllEmpty bs

-- Nothing waits for a log line and no flush is on its way.
abbrev pub IsDrained : Client → Type 0
IsDrained c = (c.buffer ≡ []) × AllEmpty c.batches

run-append : (c : Client) (ss ts : List Step) → run c (ss ++ ts) ≡ run (run c ss) ts
unfolding run
run-append c [] ts = refl
run-append c (s ∷ ss) ts = run-append (step c s) ss ts

-- Popping behind finished flushes.
pop_behind :
    (done : List (List Event)) (e : Event) (es : List Event) (bs : List (List Event))
    → pop_batch (done ++ (e ∷ es) ∷ bs) (length done) ≡ some (e, done ++ es ∷ bs)
unfolding pop_batch
pop_behind [] e es bs = refl
pop_behind ([] ∷ ds) e es bs = rw (pop_behind ds e es bs) refl
pop_behind ((x ∷ xs) ∷ ds) e es bs = rw (pop_behind ds e es bs) refl

-- A flush that holds the batch after `done` logs all of it.
rounds_lem :
    (done : List (List Event)) (b : List Event) (bs : List (List Event)) (c : Client)
    → c.batches ≡ done ++ b ∷ bs
    → let c' = run c (rounds (length done) (length b)) in
      (c'.batches ≡ done ++ [] ∷ bs) × (c'.buffer ≡ c.buffer)
unfolding rounds run step flush_log
rounds_lem done [] bs c e = (e, refl)
rounds_lem done (x ∷ xs) bs c e =
    let pops = ap (λ t. pop_batch t (length done)) e ∙ pop_behind done x xs bs in
    let same : flush_log (length done) c ≡ record c {
      batches = done ++ xs ∷ bs;
      logged = c.logged ++ x ∷ [];
      metrics = record_click_house_event (txt "success") c.metrics;
    } =
      rw (pops, flush_log) refl in
    subst
      (λ d.
        let c' = run d (rounds (length done) (length xs)) in
        (c'.batches ≡ done ++ [] ∷ bs) × (c'.buffer ≡ c.buffer))
      (sym same) (rounds_lem done xs bs _ refl)

AllEmpty-snoc : (done : List (List Event)) → AllEmpty done → AllEmpty (done ++ [] ∷ [])
AllEmpty-snoc [] h = (refl, tt)
AllEmpty-snoc (d ∷ ds) h = (h.0, AllEmpty-snoc ds h.1)

-- The flushes after `done` log all of their batches.
rest_lem :
    (done bs : List (List Event)) (i : ℕ) (c : Client)
    → i ≡ length done
    → c.batches ≡ done ++ bs
    → AllEmpty done
    → let c' = run c (rest_of i bs) in AllEmpty c'.batches × (c'.buffer ≡ c.buffer)
unfolding rest_of run
rest_lem done [] i c at e h = (rw e (rw (append_nil done) h), refl)
rest_lem done (b ∷ bs) i c at e h =
    let c1 = run c (rounds i (length b)) in
    let (e1, same1) =
      subst
        (λ j.
          let c' = run c (rounds j (length b)) in
          (c'.batches ≡ done ++ [] ∷ bs) × (c'.buffer ≡ c.buffer))
        (sym at) (rounds_lem done b bs c e) in
    let (h2, same2) =
      rest_lem (done ++ [] ∷ []) bs (suc i) c1 (omega (arith, at, length-append done ([] ∷ [])))
        (e1 ∙ append_assoc done ([] ∷ []) bs) (AllEmpty-snoc done h) in
    rw (run-append c (rounds i (length b)) (rest_of (suc i) bs)) (h2, same2 ∙ same1)

flush_take-buffer : (c : Client) → (flush_take c).buffer ≡ []
unfolding flush_take
flush_take-buffer c = ground arith

module _ (p : Event → Bool) where
  rounds-calls : (i n : ℕ) (ss : List Step) → calls (rounds i n ++ ss) ≡ calls ss
  unfolding rounds
  rounds-calls i zero ss = refl
  rounds-calls i (suc n) ss = rounds-calls i n ss

  rest_of-calls : (i : ℕ) (bs : List (List Event)) → calls (rest_of i bs) ≡ []
  unfolding rest_of
  rest_of-calls i [] = refl
  rest_of-calls i (b ∷ bs) =
      rounds-calls i (length b) (rest_of (suc i) bs) ∙ rest_of-calls (suc i) bs

  -- Where every batch is empty nothing of a test is in them.
  AllEmpty-count : (bs : List (List Event)) → AllEmpty bs → count_batches p bs ≡ 0
  AllEmpty-count [] h = refl
  AllEmpty-count (b ∷ bs) h = omega (arith, ap (count_if p) h.0, AllEmpty-count bs h.1)

  act-held :
      (a : Action) (l l' : Lifecycle)
      → act a l ≡ some l'
      → held p l'.client ≡ held p l.client + count_if p (handed (a ∷ []))
  unfolding act
  act-held (does (call e)) l l' h = ground (arith, step-held p l.client (call e))
  act-held (does started) l l' h = ground (arith, step-held p l.client started)
  act-held (does tick) l l' h = ground (arith, flush_take-held p l.client)
  act-held (does (emit i)) l l' h = ground (arith, step-held p l.client (emit i))
  act-held closes l l' h = ground arith
  act-held stops l l' h = ground (arith, flush_take-held p l.client)

  handed-cons :
      (a : Action) (more : List Action)
      → count_if p (handed (a ∷ more)) ≡ count_if p (handed (a ∷ [])) + count_if p (handed more)
  handed-cons (does s) more =
      omega
        (arith, count-append p (calls (s ∷ [])) (handed more), count-append p (calls (s ∷ [])) [])
  handed-cons closes more = omega arith
  handed-cons stops more = omega arith

  act_all-held :
      (more : List Action) (l l' : Lifecycle)
      → act_all more l ≡ some l'
      → held p l'.client ≡ held p l.client + count_if p (handed more)
  unfolding act_all
  act_all-held [] l l' h = ground arith
  act_all-held (a ∷ more) l l' h = elim (Option-cases (act a l)) [
    | inl panics ↦ ground arith
    | inr (m, e) ↦
        omega (arith, act-held a l m e, act_all-held more m l' (ground arith), handed-cons a more)
  ]

-- Once the channel is closed, the flush worker, which is then still there, takes it with a last
-- flush and is gone. If every flush that then runs makes its rounds and LogEvent is not called
-- again, nothing is left in the buffer or in a flush, and every event that was handed over since
-- New is logged exactly as often, for each test on events, whatever came before in whatever order.
pub close_logs_all :
    (p : Event → Bool) (size : ℕ) (m : Metrics) (before : List Action) (l : Lifecycle)
    → act_all before (open_client size m) ≡ some l
    → l.closed ≡ true
    → l.working ≡ true
    → (l' : Lifecycle) × (act stops l ≡ some l')
      × (l'.working ≡ false)
      × (let c = run l'.client (rest_of 0 l'.client.batches) in
          IsDrained c × (count_if p c.logged ≡ count_if p (handed before)))
unfolding act open_client new
close_logs_all p size m before l reached closed working =
    let c0 = flush_take l.client in
    let c = run c0 (rest_of 0 c0.batches) in
    let (empty, same) = rest_lem [] c0.batches 0 c0 refl refl tt in
    let no_buffer : c.buffer ≡ [] = same ∙ flush_take-buffer l.client in
    (
      record { client = c0; closed = l.closed; working = false },
      rw (closed, working) refl,
      refl,
      (
        (no_buffer, empty),
        omega (
          arith,
          run-held p c0 (rest_of 0 c0.batches),
          flush_take-held p l.client,
          act_all-held p before (open_client size m) l reached,
          ap (count_if p) (rest_of-calls p 0 c0.batches),
          ap (count_if p) no_buffer,
          AllEmpty-count p c.batches empty,
        ),
      ),
    )

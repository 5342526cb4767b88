-- ===== src/ClickHouse/Late.antt =====
-- Calls of LogEvent of internal/clickhouse/client.go after `Close`.
use submitter_smtp_daemon.ClickHouse.Draining.{AllEmpty}
use submitter_smtp_daemon.ClickHouse.Lifecycle.{
  Lifecycle, Action, does, closes, stops, act, act_all, handed,
}
use mathlib.Core.Path.{subst}
use mathlib.Core.Option
use submitter_smtp_daemon.ClickHouse.Events.{Event}
use submitter_smtp_daemon.ClickHouse.{
  log_event, flush_log, Client, pop_batch, step, call, started, tick, emit,
}
use submitter_smtp_daemon.Prelude.{
  leb, ◌<◌, Option-cases, inl, inr, ◌+◌, ap, append_assoc, append_nil, arith, length-append, sym,
  ◌∙◌, List, [], false, length, none, refl, some, suc, zero, ℕ, ◌++◌, ◌∷◌, ◌≡◌,
}

-- The flush worker is gone and no flush runs or is on its way.
pub record IsQuiet (l : Lifecycle) : Type 0 where
  pub gone : l.working ≡ false
  pub idle : l.client.flushing ≡ 0
  pub empty : AllEmpty l.client.batches

pop_batch-AllEmpty : (bs : List (List Event)) (i : ℕ) → AllEmpty bs → pop_batch bs i ≡ none
unfolding pop_batch
pop_batch-AllEmpty [] i h = refl
pop_batch-AllEmpty (b ∷ bs) zero h = rw (h.0) refl
pop_batch-AllEmpty ([] ∷ bs) (suc i) h = rw (pop_batch-AllEmpty bs i h.1, pop_batch) refl
pop_batch-AllEmpty ((e ∷ es) ∷ bs) (suc i) h = cc (h.0)

-- What one action does then, while the buffer stays below its size.
Keeps : Lifecycle → List Event → Lifecycle → Type 0
Keeps l es l' =
    IsQuiet l'
    × (l'.client.buffer_size ≡ l.client.buffer_size)
    × (l'.client.logged ≡ l.client.logged)
    × (l'.client.buffer ≡ l.client.buffer ++ es)

kept : (l l' : Lifecycle) → IsQuiet l → l'.client ≡ l.client → l'.working ≡ false → Keeps l [] l'
unfolding Keeps
kept l l' q e gone = (
  record {
    gone = gone;
    idle = ap (λ (c : Client). c.flushing) e ∙ q.idle;
    empty = subst (λ (c : Client). AllEmpty c.batches) (sym e) q.empty;
  },
  ap (λ (c : Client). c.buffer_size) e,
  ap (λ (c : Client). c.logged) e,
  ap (λ (c : Client). c.buffer) e ∙ sym (append_nil l.client.buffer),
)

call-Keeps :
    (e : Event) (l : Lifecycle)
    → IsQuiet l
    → length l.client.buffer + 1 < l.client.buffer_size
    → Keeps l (e ∷ []) (record l { client = log_event e l.client })
unfolding Keeps log_event
call-Keeps e l q small =
    let len = length-append l.client.buffer (e ∷ []) in
    let below : leb l.client.buffer_size (length (l.client.buffer ++ e ∷ [])) ≡ false =
      ground (arith, len) in
    rw below (record { gone = q.gone; idle = q.idle; empty = q.empty }, refl, refl, refl)

act-Keeps :
    (a : Action) (l : Lifecycle)
    → IsQuiet l
    → length l.client.buffer + length (handed (a ∷ [])) < l.client.buffer_size
    → (l' : Lifecycle) → act a l ≡ some l'
    → Keeps l (handed (a ∷ [])) l'
unfolding act step
act-Keeps (does (call e)) l q small l' h =
    subst (Keeps l (e ∷ [])) (Option.some-injective _ _ h) (call-Keeps e l q small)
act-Keeps (does started) l q small l' h =
    subst (Keeps l []) (Option.some-injective _ _ h) (kept l _ q (ground (arith, q.idle)) q.gone)
act-Keeps (does tick) l q small l' h = kept l l' q (ground (arith, q.gone)) (ground (arith, q.gone))
act-Keeps (does (emit i)) l q small l' h =
    subst (Keeps l []) (Option.some-injective _ _ h)
      (kept l _ q (rw (pop_batch-AllEmpty l.client.batches i q.empty, flush_log) refl) q.gone)
act-Keeps closes l q small l' h = kept l l' q (ground arith) (ground (arith, q.gone))
act-Keeps stops l q small l' h = kept l l' q (ground (arith, q.gone)) (ground (arith, q.gone))

handed-parts :
    (a : Action) (more : List Action) → handed (a ∷ more) ≡ handed (a ∷ []) ++ handed more
handed-parts (does (call e)) more = refl
handed-parts (does started) more = refl
handed-parts (does tick) more = refl
handed-parts (does (emit i)) more = refl
handed-parts closes more = refl
handed-parts stops more = refl

-- Once the flush worker is gone, no flush runs or is on its way, and as long as the buffer stays
-- below its size, no event is logged any more: what LogEvent is given from then on stays in the
-- buffer, whatever else happens.
pub never_logged :
    (more : List Action) (l l' : Lifecycle)
    → IsQuiet l
    → length l.client.buffer + length (handed more) < l.client.buffer_size
    → act_all more l ≡ some l'
    → (l'.client.logged ≡ l.client.logged) × (l'.client.buffer ≡ l.client.buffer ++ handed more)
unfolding Keeps act_all
never_logged [] l l' q small h =
    subst
      (λ (x : Lifecycle).
        (x.client.logged ≡ l.client.logged) × (x.client.buffer ≡ l.client.buffer ++ []))
      (Option.some-injective _ _ h) (refl, sym (append_nil l.client.buffer))
never_logged (a ∷ more) l l' q small h = elim (Option-cases (act a l)) [
  | inl panics ↦ absurd (ground arith)
  | inr (m, e) ↦
      let parts = handed-parts a more in
      let sizes : length (handed (a ∷ more)) ≡ length (handed (a ∷ [])) + length (handed more) =
        ap length parts ∙ length-append (handed (a ∷ [])) (handed more) in
      let (quiet, same_size, logged, buffer) = act-Keeps a l q (omega (arith, small, sizes)) m e in
      let rest : act_all more m ≡ some l' = rw (e, act_all) at h in
      let (logged2, buffer2) =
        never_logged more m l' quiet
          (omega (
            arith,
            small,
            sizes,
            same_size,
            ap length buffer ∙ length-append l.client.buffer (handed (a ∷ [])),
          ))
          rest in
      (
        logged2 ∙ logged,
        buffer2
            ∙ ap (λ b. b ++ handed more) buffer
            ∙ sym (append_assoc l.client.buffer (handed (a ∷ [])) (handed more))
            ∙ ap (λ es. l.client.buffer ++ es) (sym parts),
      )
]

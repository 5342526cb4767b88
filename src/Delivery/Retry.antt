-- ===== src/Delivery/Retry.antt =====
-- `calculateNextRetry` and `updateDeliveryTempFail` of internal/delivery/worker.go.
use submitter_smtp_daemon.Delivery.{calculate_next_retry}
use submitter_smtp_daemon.Prelude.{
  false, ◌-◌, ◌==◌, Bool-cases, List, [], arith, get_elem?, inl, inr, length, ltb, none, refl, some,
  suc, zero, ℕ, ◌+◌, ◌<◌, ◌∷◌, ◌≡◌, ◌≤◌,
}

-- The delay that applies after `attempts` attempts: the schedule's entry, or its last one.
unfoldable pub delay_after : ℕ → ℕ → List ℕ → ℕ
delay_after attempts first [] = first
delay_after zero first (d ∷ ds) = first
delay_after (suc n) first (d ∷ ds) = delay_after n d ds

in_range :
    (attempts first : ℕ) (ds : List ℕ)
    → attempts < length (first ∷ ds)
    → get_elem? (first ∷ ds) attempts ≡ some (delay_after attempts first ds)
unfolding delay_after
in_range zero first [] h = refl
in_range (suc n) first [] h = absurd (omega arith)
in_range zero first (d ∷ ds) h = refl
in_range (suc n) first (d ∷ ds) h = in_range n d ds (omega arith)

last_entry :
    (attempts first : ℕ) (ds : List ℕ)
    → length (first ∷ ds) ≤ attempts
    → get_elem? (first ∷ ds) (length ds) ≡ some (delay_after attempts first ds)
unfolding delay_after
last_entry attempts first [] h = ground arith
last_entry zero first (d ∷ ds) h = absurd (omega arith)
last_entry (suc n) first (d ∷ ds) h = last_entry n d ds (omega arith)

-- With a schedule that is not empty, the next attempt is set to the current time plus the entry of
-- the schedule at the number of attempts made, and plus its last entry from there on. With an empty
-- schedule the index is out of range, whatever the attempts.
pub calculate_next_retry_lem :
    (now attempts first : ℕ) (ds : List ℕ)
    → (calculate_next_retry now attempts (first ∷ ds) ≡ some (now + delay_after attempts first ds))
      × (calculate_next_retry now attempts [] ≡ none)
unfolding calculate_next_retry
calculate_next_retry_lem now attempts first ds =
    let not_empty : (length (first ∷ ds) == 0) ≡ false = ground arith in
    let last : length (first ∷ ds) - 1 ≡ length ds = omega arith in
    elim (Bool-cases (ltb attempts (length (first ∷ ds)))) [
      | inl inside ↦ (rw inside (rw (in_range attempts first ds (ground arith))), ground arith)
      | inr outside ↦ (
        rw outside (rw not_empty (rw last (rw (last_entry attempts first ds (ground arith))))),
        ground arith,
      )
    ]

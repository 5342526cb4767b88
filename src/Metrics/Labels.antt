-- ===== src/Metrics/Labels.antt =====
-- The label values that the recorders of internal/metrics/metrics.go pass.
use submitter_smtp_daemon.Prelude.{ℕ, ◌≡◌, refl, Bool, true, false, List, Text, length, All}
use submitter_smtp_daemon.Metrics.{
  Collector, Call, Metrics, inc, dec, add, set, observe, labels_of, record_connection,
  record_connection_close, record_auth_attempt, record_message_accepted, record_message_rejected,
  record_stage, record_dedup_check, record_dkim_signing, record_delivery, record_s3_upload,
  record_click_house_event, record_rate_limit_hit, record_error, set_delivery_queue_size,
  set_click_house_buffer_size,
}

-- As many label values as the collector declares: otherwise `WithLabelValues` panics.
abbrev Fits : Collector → List Text → Type 0
Fits c ls = length ls ≡ length (labels_of c)

abbrev pub IsLabelled : Call → Type 0
IsLabelled (inc c ls) = Fits c ls
IsLabelled (dec c ls) = Fits c ls
IsLabelled (add c ls n) = Fits c ls
IsLabelled (set c ls n) = Fits c ls
IsLabelled (observe c ls n) = Fits c ls

record_dedup_check-IsLabelled :
    (b : Bool) (m : Metrics) → All IsLabelled m → All IsLabelled (record_dedup_check b m)
unfolding record_dedup_check labels_of
record_dedup_check-IsLabelled true m h = (refl, (refl, h))
record_dedup_check-IsLabelled false m h = (refl, h)

-- Every recorder passes to every collector that it touches exactly as many label values as the
-- collector declares, so that none of them makes the Prometheus client panic.
pub recorders-IsLabelled :
    (m : Metrics) (s t : Text) (n : ℕ) (b : Bool)
    → All IsLabelled m
    → All IsLabelled (record_connection s t m)
      × All IsLabelled (record_connection_close s n m)
      × All IsLabelled (record_auth_attempt s t n m)
      × All IsLabelled (record_message_accepted s n m)
      × All IsLabelled (record_message_rejected s m)
      × All IsLabelled (record_stage s n m)
      × All IsLabelled (record_dedup_check b m)
      × All IsLabelled (record_dkim_signing s t n m)
      × All IsLabelled (record_delivery s t n m)
      × All IsLabelled (record_s3_upload s n m)
      × All IsLabelled (record_click_house_event s m)
      × All IsLabelled (record_rate_limit_hit s t m)
      × All IsLabelled (record_error s t m)
      × All IsLabelled (set_delivery_queue_size n m)
      × All IsLabelled (set_click_house_buffer_size n m)
unfolding record_connection record_connection_close record_auth_attempt record_message_accepted
    record_message_rejected record_stage record_dkim_signing record_delivery record_s3_upload
    record_click_house_event record_rate_limit_hit record_error set_delivery_queue_size
    set_click_house_buffer_size labels_of
recorders-IsLabelled m s t n b h = (
  (refl, (refl, h)),
  (refl, (refl, h)),
  (refl, (refl, h)),
  (refl, (refl, (refl, h))),
  (refl, h),
  (refl, (refl, h)),
  record_dedup_check-IsLabelled b m h,
  (refl, (refl, h)),
  (refl, (refl, h)),
  (refl, (refl, h)),
  (refl, h),
  (refl, h),
  (refl, h),
  (refl, h),
  (refl, h),
)

-- ===== src/Daemon/Cleaning.antt =====
-- The cleanup worker with the retention that cmd/outbound/main.go gives it.
use submitter_smtp_daemon.Daemon.{retention_policy}
use submitter_smtp_daemon.Config.Types.{Config}
use submitter_smtp_daemon.Files.{
  Stage, delivering, done, failed, filtered, incoming, modified, parsed, signed, FilePath, Fs, find,
  tmp,
}
use submitter_smtp_daemon.Files.Laws.{IsKeyed}
use submitter_smtp_daemon.Spool.Retention.{CleanupFaults, cleanup}
use submitter_smtp_daemon.Spool.Retention.Laws.{cleanup_only}
use submitter_smtp_daemon.Prelude.{Member-map_of, [], arith, pos, ◌∷◌, Member, inl, inr, ℕ, ℤ, ◌≡◌}

unlisted :
    Member tmp (incoming ∷ parsed ∷ filtered ∷ modified ∷ signed ∷ delivering ∷ done ∷ failed ∷ [])
    → ⊥
unlisted m = ground arith

policy-tmp : (cfg : Config) (r : ℤ) → Member (tmp, r) (retention_policy cfg) → ⊥
unfolding retention_policy
policy-tmp cfg r m =
    unlisted (Member-map_of (λ (e : Stage × ℤ). e.0) (tmp, r) (retention_policy cfg) m)

-- Whatever the configuration and whatever fails, the cleanup that main starts leaves every file in
-- tmp, however old, so that what a failed write leaves there stays.
pub cleanup_leaves_tmp :
    (cfg : Config) (c : CleanupFaults) (now : ℕ) (fs : Fs) (p : FilePath)
    → IsKeyed fs
    → p.dir ≡ tmp
    → find p (cleanup c now (retention_policy cfg) fs) ≡ find p fs
cleanup_leaves_tmp cfg c now fs p keyed in_tmp =
    elim (cleanup_only c now (retention_policy cfg) fs p keyed) [
      | inl same ↦ same
      | inr (gone, (f, r, found, plain, positive, listed, old)) ↦
          absurd (policy-tmp cfg (pos r) (rw in_tmp at listed))
    ]

-- ===== src/Spool/Retention/Laws.antt =====
-- What `Cleanup` of internal/spool/spool.go deletes and what it keeps.
use submitter_smtp_daemon.Spool.Retention.{
  cleanup, clean_stage, read_dir, clean_entries, is_expired, CleanupFaults, clean_entry,
}
use submitter_smtp_daemon.Files.{stage_eq, path_eq, File, FilePath, Fs, Stage, find}
use submitter_smtp_daemon.Files.Laws.{
  stage_eq_iff, IsKeyed, find-remove, path_eq_iff, remove-IsKeyed,
}
use submitter_smtp_daemon.Prelude.{
  keep_sound, leb_ℤ, negsuc, pos_part, ap, sym, ◌∙◌, Bool-cases, [], arith, inl, inr, not, refl,
  ◌&&◌, ◌||◌, ◌∷◌, List, Member, false, none, pos, some, ℕ, ℤ, ◌+◌, ◌<◌, ◌≡◌, ◌⊎◌,
}

-- `fs'` has at most lost the file at `p`, and that only for a reason.
abbrev pub Only : Type 0 → FilePath → Fs → Fs → Type 0
Only Reason p fs fs' = (find p fs' ≡ find p fs) ⊎ ((find p fs' ≡ none) × Reason)

Only-trans :
    {R S T : Type 0} (p : FilePath) (fs fs' fs'' : Fs)
    → (R → T)
    → (S → T)
    → Only R p fs fs'
    → Only S p fs' fs''
    → Only T p fs fs''
Only-trans p fs fs' fs'' rt st (inl e) (inl e') = inl (e' ∙ e)
Only-trans p fs fs' fs'' rt st (inl e) (inr (n, s)) = inr (n, st s)
Only-trans p fs fs' fs'' rt st (inr (n, r)) (inl e') = inr (e' ∙ n, rt r)
Only-trans p fs fs' fs'' rt st (inr (n, r)) (inr (n', s)) = inr (n', st s)

-- why the policy allows that a file is deleted
abbrev pub Expired : ℕ → List (Stage × ℤ) → FilePath → Fs → Type 0
Expired now policy p fs =
    (f : File) × (r : ℕ) × (find p fs ≡ some f)
    × (f.is_dir ≡ false)
    × (0 < r)
    × Member (p.dir, pos r) policy
    × (f.mtime + r < now)

module _ (c : CleanupFaults) (now : ℕ) where
  clean_entry-Only :
      (r : ℕ) (q : FilePath) (g : File) (fs : Fs) (p : FilePath)
      → Only ((q ≡ p) × (g.is_dir ≡ false) × (g.mtime + r < now)) p fs (clean_entry c now r q g fs)
  unfolding clean_entry
  clean_entry-Only r q g fs p = elim (Bool-cases (path_eq q p)) [
    | inl same ↦ ground (arith, find-remove q p fs, path_eq_iff q p)
    | inr other ↦ ground (arith, find-remove q p fs)
  ]

  clean_entry-IsKeyed :
      (r : ℕ) (q : FilePath) (g : File) (fs : Fs)
      → IsKeyed fs
      → IsKeyed (clean_entry c now r q g fs)
  unfolding clean_entry
  clean_entry-IsKeyed r q g fs keyed = elim (Bool-cases (g.is_dir || c.info_fails q)) [
    | inl skip ↦ rw skip keyed
    | inr go ↦ elim (Bool-cases (is_expired now r g && not (c.remove_fails q))) [
      | inl old ↦ rw (go, old) (remove-IsKeyed q fs keyed)
      | inr young ↦ rw (go, young) keyed
    ]
  ]

  clean_entries-IsKeyed : (r : ℕ) (es fs : Fs) → IsKeyed fs → IsKeyed (clean_entries c now r es fs)
  unfolding clean_entries
  clean_entries-IsKeyed r [] fs keyed = keyed
  clean_entries-IsKeyed r ((q, g) ∷ es) fs keyed =
      clean_entries-IsKeyed r es (clean_entry c now r q g fs) (clean_entry-IsKeyed r q g fs keyed)

  pub clean_entries-Only :
      (r : ℕ) (es fs : Fs) (p : FilePath)
      → Only
          ((g : File) × Member (p, g) es × (g.is_dir ≡ false) × (g.mtime + r < now))
          p
          fs
          (clean_entries c now r es fs)
  unfolding clean_entries
  clean_entries-Only r [] fs p = inl refl
  clean_entries-Only r ((q, g) ∷ es) fs p =
      Only-trans p fs (clean_entry c now r q g fs) _
        (λ (k, d, x). (g, inl (ap (λ y. (y, g)) (sym k)), d, x))
        (λ (g', m, d, x). (g', inr m, d, x)) (clean_entry-Only r q g fs p)
        (clean_entries-Only r es (clean_entry c now r q g fs) p)

  pub clean_stage-IsKeyed :
      (s : Stage) (r : ℤ) (fs : Fs) → IsKeyed fs → IsKeyed (clean_stage c now s r fs)
  unfolding clean_stage
  clean_stage-IsKeyed s r fs keyed = elim (Bool-cases (leb_ℤ r (pos 0) || c.read_dir_fails s)) [
    | inl skip ↦ rw skip keyed
    | inr go ↦ rw go (clean_entries-IsKeyed (pos_part r) (read_dir s fs) fs keyed)
  ]

  pub clean_stage-Only :
      (s : Stage) (r : ℤ) (fs : Fs) (p : FilePath)
      → IsKeyed fs
      → Only (Expired now ((s, r) ∷ []) p fs) p fs (clean_stage c now s r fs)
  unfolding clean_stage
  clean_stage-Only s (negsuc n) fs p keyed = inl (ground arith)
  clean_stage-Only s (pos n) fs p keyed =
      elim (Bool-cases (leb_ℤ (pos n) (pos 0) || c.read_dir_fails s)) [
        | inl skip ↦ inl (rw skip)
        | inr go ↦ rw go (elim (clean_entries-Only n (read_dir s fs) fs p) [
          | inl e ↦ inl e
          | inr (gone, (g, m, d, x)) ↦
              let (held, here) = keep_sound (λ e. stage_eq e.0.dir s) (p, g) fs m in
              let same : p.dir ≡ s = (stage_eq_iff p.dir s).0 here in
              inr (
                gone,
                (
                  g,
                  n,
                  keyed p g held,
                  d,
                  ground arith,
                  inl (ap (λ (y : Stage). (y, pos n)) same),
                  x,
                ),
              )
        ])
      ]

  Expired-back :
      (policy rest : List (Stage × ℤ)) (fs fs' : Fs) (p : FilePath)
      → ((x : Stage × ℤ) → Member x rest → Member x policy)
      → ((find p fs' ≡ find p fs) ⊎ (find p fs' ≡ none))
      → Expired now rest p fs'
      → Expired now policy p fs
  Expired-back policy rest fs fs' p more (inl e) (f, r, found, d, positive, m, x) =
      (f, r, sym e ∙ found, d, positive, more _ m, x)
  Expired-back policy rest fs fs' p more (inr n) (f, r, found, d, positive, m, x) = absurd (cc)

  pub Only-weaken :
      {R : Type 0} (p : FilePath) (fs fs' : Fs)
      → Only R p fs fs'
      → (find p fs' ≡ find p fs) ⊎ (find p fs' ≡ none)
  Only-weaken p fs fs' (inl e) = inl e
  Only-weaken p fs fs' (inr h) = inr h.0

  -- Whatever fails, Cleanup leaves every path of a spool whose paths are keys either as it was or
  -- without its file, and that only if a plain file lay there that was older than a positive
  -- retention which the policy gives for the stage of the path.
  pub cleanup_only :
      (policy : List (Stage × ℤ)) (fs : Fs) (p : FilePath)
      → IsKeyed fs
      → (find p (cleanup c now policy fs) ≡ find p fs)
        ⊎ ((find p (cleanup c now policy fs) ≡ none) × Expired now policy p fs)
  unfolding cleanup
  cleanup_only [] fs p keyed = inl refl
  cleanup_only ((s, r) ∷ rest) fs p keyed =
      let first = clean_stage-Only s r fs p keyed in
      Only-trans p fs (clean_stage c now s r fs) _
        (Expired-back ((s, r) ∷ rest) ((s, r) ∷ []) fs fs p (λ x m. once x m) (inl refl))
        (Expired-back ((s, r) ∷ rest) rest fs (clean_stage c now s r fs) p (λ x m. inr m)
          (Only-weaken p fs _ first))
        first (cleanup_only rest (clean_stage c now s r fs) p (clean_stage-IsKeyed s r fs keyed))
    where
      once : (x : Stage × ℤ) → Member x ((s, r) ∷ []) → Member x ((s, r) ∷ rest)
      once x (inl e) = inl e
      once x (inr none_left) = absurd none_left

-- No system call of a Cleanup fails.

pub cleanup-IsKeyed :
    (c : CleanupFaults) (now : ℕ) (policy : List (Stage × ℤ)) (fs : Fs)
    → IsKeyed fs
    → IsKeyed (cleanup c now policy fs)
unfolding cleanup
cleanup-IsKeyed c now [] fs keyed = keyed
cleanup-IsKeyed c now ((s, r) ∷ rest) fs keyed =
    cleanup-IsKeyed c now rest (clean_stage c now s r fs) (clean_stage-IsKeyed c now s r fs keyed)

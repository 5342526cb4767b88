-- ===== src/Files/Laws.antt =====
-- Lookups after a write or a removal.
use mathlib.Core.Path.{ap₂}
use submitter_smtp_daemon.Files.{
  File, FilePath, Fs, Stage, find, path_eq, put, remove, rename, stage_eq,
}
use submitter_smtp_daemon.Prelude.{
  ap, ◌∙◌, ◌⊎◌, Member, sym, Bool-cases, false, inl, inr, refl, ◌≢◌, [], arith, if◌then◌else◌, none,
  some, text_eq_iff, true, ◌↔◌, ◌∷◌, ◌≡◌,
}

pub stage_eq_iff : (s t : Stage) → (stage_eq s t ≡ true) ↔ (s ≡ t)
stage_eq_iff s t = ground arith

pub path_eq_iff : (p q : FilePath) → (path_eq p q ≡ true) ↔ (p ≡ q)
unfolding path_eq
path_eq_iff p q = ground (arith, stage_eq_iff p.dir q.dir, text_eq_iff p.name q.name)

pub path_ne : (p q : FilePath) → p ≢ q → path_eq p q ≡ false
path_ne p q ne = elim (Bool-cases (path_eq p q)) [
  | inl same ↦ absurd (ne ((path_eq_iff p q).0 same))
  | inr other ↦ other
]

pub path_eq_refl : (p : FilePath) → path_eq p p ≡ true
path_eq_refl p = (path_eq_iff p p).1 refl

pub find-remove :
    (p q : FilePath) (fs : Fs) → find q (remove p fs) ≡ (if path_eq p q then none else find q fs)
unfolding find remove
find-remove p q [] = ground arith
find-remove p q ((r, f) ∷ fs) =
    ground (arith, find-remove p q fs, path_eq_iff r p, path_eq_iff r q, path_eq_iff p q)

pub find-put :
    (p q : FilePath) (f : File) (fs : Fs)
    → find q (put p f fs) ≡ (if path_eq p q then some f else find q fs)
unfolding find put
find-put p q f fs = ground (arith, find-remove p q fs)

pub find-rename :
    (p q r : FilePath) (f : File) (fs : Fs)
    → find r (rename p q f fs)
      ≡ (if path_eq q r then some f else if path_eq p r then none else find r fs)
unfolding rename
find-rename p q r f fs = simp (find-put, find-remove)

pub ruleset file_laws = (find-put, find-remove, find-rename)

-- Every entry is the one that its path finds.
abbrev pub IsKeyed : Fs → Type 0
IsKeyed fs = (p : FilePath) (f : File) → Member (p, f) fs → find p fs ≡ some f

pub Member-find : (p : FilePath) (f : File) (fs : Fs) → find p fs ≡ some f → Member (p, f) fs
unfolding find
Member-find p f [] h = cc
Member-find p f ((q, g) ∷ fs) h = elim (Bool-cases (path_eq q p)) [
  | inl same ↦
      inl
        (ap₂ {C = FilePath × File} (λ x y. (x, y)) (sym ((path_eq_iff q p).0 same)) (ground arith))
  | inr other ↦ inr (Member-find p f fs (ground arith))
]

Member-remove :
    (q p : FilePath) (f : File) (fs : Fs) → Member (p, f) (remove q fs) → Member (p, f) fs × (q ≢ p)
unfolding remove
Member-remove q p f [] h = absurd h
Member-remove q p f ((r, g) ∷ fs) h = elim (Bool-cases (path_eq r q)) [
  | inl same ↦ let (m, ne) = Member-remove q p f fs (rw same at h) in (inr m, ne)
  | inr other ↦
      let h' : (◌≡◌ {A = FilePath × File} (p, f) (r, g))
          ⊎ Member {A = FilePath × File} (p, f) (remove q fs) =
        (rw other at h) in
      elim h' [
        | inl e ↦ (
          inl e,
          λ k. cc (other, (path_eq_iff r q).1 (sym (k ∙ ap (λ (x : FilePath × File). x.0) e))),
        )
        | inr m ↦ (inr (Member-remove q p f fs m).0, (Member-remove q p f fs m).1)
      ]
]

pub remove-IsKeyed : (q : FilePath) (fs : Fs) → IsKeyed fs → IsKeyed (remove q fs)
remove-IsKeyed q fs keyed p f m =
    let (old, ne) = Member-remove q p f fs m in rw find-remove (rw (path_ne q p ne) (keyed p f old))

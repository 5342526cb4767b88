-- ===== src/Spool/Listing.antt =====
-- `List` and `Count` of internal/spool/spool.go. The order in which a directory is read is that of
-- the entries in the model; no code of the repository depends on it.
use mathlib.Core.Path.{subst, ap₂}
use submitter_smtp_daemon.Files.{find, File, FilePath, Fs, Stage, stage_eq}
use submitter_smtp_daemon.Spool.{stage_path, Error, reading_directory}
use submitter_smtp_daemon.Files.Laws.{Member-find, stage_eq_iff, IsKeyed}
use submitter_smtp_daemon.Prelude.{
  keep_complete, keep_sound, Bool-cases, Option-cases, arith, inl, inr, length-append, sym,
  text_eq_iff, text_eq_refl, true, ◌+◌, ◌<◌, ◌↔◌, ◌∙◌, ◌≢◌, ◌⊎◌, Bool, List, Member, Option, Text,
  [], ap, drop, false, if◌then◌else◌, keep, length, ltb, none, refl, some, suc, take, text_eq, txt,
  zero, ℕ, ◌&&◌, ◌++◌, ◌-◌, ◌∷◌, ◌≡◌,
}

-- `len(name) > 4 && name[len(name)-4:] == ".eml"`, and the name without the extension
unfoldable pub message_of : Text → Option Text
message_of name =
    let n = length name in
    if ltb 4 n && text_eq (drop (n - 4) name) (txt ".eml") then some (take (n - 4) name) else none

-- one round of the loop over the entries
abbrev add_entry : FilePath × File → List Text → List Text
add_entry (p, f) messages =
    if f.is_dir
    then messages
    else elim (message_of p.name) [ none ↦ messages | some m ↦ m ∷ messages ]

unfoldable pub messages_of : Fs → List Text
messages_of [] = []
messages_of (e ∷ es) = add_entry e (messages_of es)

unfoldable pub list : Bool → Stage → Fs → Option Error × List Text
list fault stage fs =
    if fault
    then (some reading_directory, [])
    else (none, messages_of (keep (λ e. stage_eq e.0.dir stage) fs))

unfoldable pub count : Bool → Stage → Fs → Option Error × ℕ
count fault stage fs =
    let (err, messages) = list fault stage fs in
    elim err [ some e ↦ (some e, 0) | none ↦ (none, length messages) ]

take-append_self : (m s : Text) → take (length m) (m ++ s) ≡ m
take-append_self [] s = refl
take-append_self (c ∷ m) s = ap (λ r. c ∷ r) (take-append_self m s)

drop-append_self : (m s : Text) → drop (length m) (m ++ s) ≡ s
drop-append_self [] s = refl
drop-append_self (c ∷ m) s = drop-append_self m s

take-append-drop : (n : ℕ) (s : Text) → take n s ++ drop n s ≡ s
take-append-drop zero s = refl
take-append-drop (suc n) [] = refl
take-append-drop (suc n) (c ∷ s) = ap (λ r. c ∷ r) (take-append-drop n s)

-- A name stands for a message exactly if it is the message's id with the extension.
message_of_sound : (name m : Text) → message_of name ≡ some m → name ≡ m ++ txt ".eml"
unfolding message_of
message_of_sound name m h =
    let k = length name - 4 in
    let front : take k name ≡ m = ground arith in
    let back : drop k name ≡ txt ".eml" = ground (arith, text_eq_iff (drop k name) (txt ".eml")) in
    sym (take-append-drop k name) ∙ ap₂ ◌++◌ front back

message_of_at :
    (name : Text) (k : ℕ)
    → length name ≡ k + 4
    → 0 < k
    → drop k name ≡ txt ".eml"
    → message_of name ≡ some (take k name)
unfolding message_of
message_of_at name k l positive h =
    let e : length name - 4 ≡ k = omega arith in
    let long : ltb 4 (length name) ≡ true = ground arith in
    rw (long, e, h, text_eq_refl (txt ".eml"))

message_of_complete : (c : ℕ) (m : Text) → message_of ((c ∷ m) ++ txt ".eml") ≡ some (c ∷ m)
unfolding txt
message_of_complete c m =
    message_of_at ((c ∷ m) ++ txt ".eml") (length (c ∷ m)) (length-append (c ∷ m) (txt ".eml"))
      (omega arith) (drop-append_self (c ∷ m) (txt ".eml"))
    ∙ ap some (take-append_self (c ∷ m) (txt ".eml"))

message_of_file : (m : Text) → m ≢ [] → message_of (m ++ txt ".eml") ≡ some m
message_of_file [] ne = absurd (ne refl)
message_of_file (c ∷ m) ne = message_of_complete c m

message_of-ne_empty : (name : Text) → message_of name ≢ some []
unfolding message_of
message_of-ne_empty [] h = ground arith
message_of-ne_empty (a ∷ []) h = ground arith
message_of-ne_empty (a ∷ b ∷ []) h = ground arith
message_of-ne_empty (a ∷ b ∷ c ∷ []) h = ground arith
message_of-ne_empty (a ∷ b ∷ c ∷ d ∷ []) h = ground arith
message_of-ne_empty (a ∷ b ∷ c ∷ d ∷ e ∷ s) h =
    let long : length (a ∷ b ∷ c ∷ d ∷ e ∷ s) - 4 ≡ suc (length s) = omega arith in
    let front : take (length (a ∷ b ∷ c ∷ d ∷ e ∷ s) - 4) (a ∷ b ∷ c ∷ d ∷ e ∷ s) ≡ [] =
      ground arith in
    cc (rw long at front)

-- A directory entry that List turns into a message.
abbrev IsMessage : Text → FilePath × File → Type 0
IsMessage m e = (e.1.is_dir ≡ false) × (message_of e.0.name ≡ some m)

messages_of_sound :
    (es : Fs) (m : Text)
    → Member m (messages_of es)
    → (e : FilePath × File) × Member e es × IsMessage m e
unfolding messages_of
messages_of_sound [] m h = absurd h
messages_of_sound ((p, f) ∷ es) m h = elim (Bool-cases f.is_dir) [
  | inl dir ↦ let (e, k, q) = messages_of_sound es m (rw dir at h) in (e, inr k, q)
  | inr plain ↦ elim (Option-cases (message_of p.name)) [
    | inl other ↦ let (e, k, q) = messages_of_sound es m (rw (plain, other) at h) in (e, inr k, q)
    | inr (m', named) ↦
        let h' : (m ≡ m') ⊎ Member m (messages_of es) = (rw (plain, named) at h) in
        elim h' [
          | inl same ↦ ((p, f), inl refl, (plain, named ∙ ap some (sym same)))
          | inr later ↦ let (e, k, q) = messages_of_sound es m later in (e, inr k, q)
        ]
  ]
]

messages_of_complete :
    (es : Fs) (m : Text) (e : FilePath × File)
    → Member e es
    → IsMessage m e
    → Member m (messages_of es)
unfolding messages_of
messages_of_complete [] m e k q = absurd k
messages_of_complete ((p, f) ∷ es) m e (inl same) q =
    let q' : IsMessage m (p, f) = subst (IsMessage m) same q in rw (q'.0, q'.1) (inl refl)
messages_of_complete ((p, f) ∷ es) m e (inr k) q =
    let later = messages_of_complete es m e k q in
    elim (Bool-cases f.is_dir) [
      | inl dir ↦ rw dir later
      | inr plain ↦ elim (Option-cases (message_of p.name)) [
        | inl other ↦ rw (plain, other) later
        | inr (m', named) ↦ rw (plain, named) (inr later)
      ]
    ]

-- In a spool whose paths are keys, an id is in the List of a stage exactly if it is not empty and
-- the file of that id lies in the stage and is no directory; and Count is the length of List.
pub list_lem :
    (stage : Stage) (fs : Fs) (m : Text)
    → IsKeyed fs
    → (Member m (list false stage fs).1
        ↔ ((m ≢ []) × ((f : File) × (find (stage_path stage m) fs ≡ some f) × (f.is_dir ≡ false))))
      × (count false stage fs ≡ (none, length (list false stage fs).1))
unfolding list count stage_path
list_lem stage fs m keyed = ((there, back), refl)
  where
    path : {p : FilePath} → p.dir ≡ stage → p.name ≡ m ++ txt ".eml" → p ≡ stage_path stage m
    path d n = λ i. record { dir = d i; name = n i }

    inside : Fs
    inside = keep (λ e. stage_eq e.0.dir stage) fs

    there :
        Member m (messages_of inside)
        → (m ≢ []) × ((f : File) × (find (stage_path stage m) fs ≡ some f) × (f.is_dir ≡ false))
    there h =
        let (e, k, q) = messages_of_sound inside m h in
        let (held, here) = keep_sound (λ x. stage_eq x.0.dir stage) e fs k in
        let d : e.0.dir ≡ stage = (stage_eq_iff e.0.dir stage).0 here in
        let n : e.0.name ≡ m ++ txt ".eml" = message_of_sound e.0.name m q.1 in
        (
          λ z. message_of-ne_empty e.0.name (q.1 ∙ ap some z),
          (e.1, subst (λ p. find p fs ≡ some e.1) (path d n) (keyed e.0 e.1 held), q.0),
        )

    back :
        (m ≢ []) × ((f : File) × (find (stage_path stage m) fs ≡ some f) × (f.is_dir ≡ false))
        → Member m (messages_of inside)
    back (ne, (f, found, plain)) =
        messages_of_complete inside m (stage_path stage m, f)
          (keep_complete (λ x. stage_eq x.0.dir stage) (stage_path stage m, f) fs
            (Member-find (stage_path stage m) f fs found) ((stage_eq_iff stage stage).1 refl))
          (plain, message_of_file m ne)

-- ===== src/Delivery/Workers/Ledger.antt =====
-- What several workers of internal/delivery/worker.go have sent, against what the queue says.
use mathlib.Core.Path.{subst}
use mathlib.Core.Option
use submitter_smtp_daemon.Delivery.{Answers, Envelope, read_message, read_stage}
use submitter_smtp_daemon.Schema.{delivered, find_row, update_where, Row}
use submitter_smtp_daemon.Files.{File, Fs, Stage, find, modified, parsed, signed}
use submitter_smtp_daemon.Spool.{read, stage_path}
use submitter_smtp_daemon.Queue.Rows.{
  Member-update_where, IsKeyed, find_row-Member, find_row-append, find_row-update_where_ne,
  find_row-update_where_self,
}
use submitter_smtp_daemon.Queue.{QueueItem}
use submitter_smtp_daemon.Prelude.{
  Member-append, ap, ◌≢◌, Bool-cases, Member, [], sym, text_eq, text_eq_iff, ◌++◌, ◌∙◌, ◌∷◌, List,
  Option-cases, Text, arith, inl, inr, refl, some, ℕ, ◌≡◌, ◌⊎◌,
}

-- The message lies in one of the stages that the worker reads.
abbrev pub IsSpooled : Fs → Text → List ℕ → Type 0
IsSpooled fs msg_id content =
    (stage : Stage) × (f : File) × ((stage ≡ signed) ⊎ ((stage ≡ modified) ⊎ (stage ≡ parsed)))
    × (find (stage_path stage msg_id) fs ≡ some f)
    × (f.content ≡ content)

-- An envelope is for a row: it goes to its recipient and holds its message.
abbrev pub IsFor : Fs → Row → Envelope → Type 0
IsFor fs r e = (e.recipient ≡ r.recipient) × IsSpooled fs r.msg_id e.content

read_stage_lem :
    (a : Answers) (stage : Stage) (msg_id : Text) (fs : Fs) (bytes : List ℕ)
    → read_stage a stage msg_id fs ≡ some bytes
    → (f : File) × (find (stage_path stage msg_id) fs ≡ some f) × (f.content ≡ bytes)
unfolding read
read_stage_lem a stage msg_id fs bytes h = elim (Option-cases (find (stage_path stage msg_id) fs)) [
  | inl lost ↦ ground arith
  | inr (f, found) ↦ (f, found, ground arith)
]

pub read_message-IsSpooled :
    (a : Answers) (msg_id : Text) (fs : Fs) (bytes : List ℕ)
    → read_message a msg_id fs ≡ some bytes
    → IsSpooled fs msg_id bytes
unfolding read_message
read_message-IsSpooled a msg_id fs bytes h = elim (Option-cases (read_stage a signed msg_id fs)) [
  | inr (b, e) ↦
      let (f, found, same) = read_stage_lem a signed msg_id fs bytes (ground arith) in
      (signed, f, inl refl, found, same)
  | inl no_signed ↦ elim (Option-cases (read_stage a modified msg_id fs)) [
    | inr (b, e) ↦
        let (f, found, same) = read_stage_lem a modified msg_id fs bytes (ground arith) in
        (modified, f, inr (inl refl), found, same)
    | inl no_modified ↦
        let (f, found, same) = read_stage_lem a parsed msg_id fs bytes (ground arith) in
        (parsed, f, inr (inr refl), found, same)
  ]
]

-- The same delivery: the columns that no update touches.
abbrev pub IsSame : Row → Row → Type 0
IsSame r r' = (r'.dlv_id ≡ r.dlv_id) × (r'.msg_id ≡ r.msg_id) × (r'.recipient ≡ r.recipient)

IsFor-IsSame : (fs : Fs) (r r' : Row) (e : Envelope) → IsSame r r' → IsFor fs r e → IsFor fs r' e
IsFor-IsSame fs r r' e same h =
    (h.0 ∙ sym same.2, subst (λ m. IsSpooled fs m e.content) (sym same.1) h.1)

-- The table keeps its rows, apart from what an update changes.
pub Grows : List Row → List Row → Type 0
Grows rows rows' =
    (id : Text) (r : Row)
    → find_row id rows ≡ some r
    → (r' : Row) × (find_row id rows' ≡ some r') × IsSame r r'

pub update_where-Grows :
    (id : Text) (f : Row → Row) (rows : List Row)
    → ((r : Row) → IsSame r (f r))
    → Grows rows (update_where id f rows)
unfolding Grows
update_where-Grows id f rows same j r found = elim (Bool-cases (text_eq id j)) [
  | inl own ↦
      let e : id ≡ j = (text_eq_iff id j).0 own in
      (
        f r,
        subst (λ k. find_row k (update_where id f rows) ≡ some (f r)) e
            (find_row-update_where_self id f (λ x. (same x).0) r rows (rw e found)),
        same r,
      )
  | inr other ↦ (
    r,
    find_row-update_where_ne id f (λ x. (same x).0) j rows (λ e. ground (arith, text_eq_iff id j))
        ∙ found,
    (refl, refl, refl),
  )
]

pub append-Grows : (rows : List Row) (new : Row) → Grows rows (rows ++ new ∷ [])
unfolding Grows
append-Grows rows new id r found =
    (r, rw (find_row-append id rows new) (rw found refl), (refl, refl, refl))

-- The item stands for a row that the table has.
abbrev pub IsKnown : List Row → QueueItem → Type 0
IsKnown rows item =
    (r : Row) × (find_row item.dlv_id rows ≡ some r)
    × (r.msg_id ≡ item.msg_id)
    × (r.recipient ≡ item.recipient)

pub IsKnown-Grows :
    (rows rows' : List Row) (item : QueueItem)
    → Grows rows rows'
    → IsKnown rows item
    → IsKnown rows' item
unfolding Grows
IsKnown-Grows rows rows' item grows (r, found, m, c) =
    let (r', found', same) = grows item.dlv_id r found in (r', found', same.1 ∙ m, same.2 ∙ c)

module _ (fs : Fs) where
  -- Every envelope is for a row of the queue.
  abbrev pub IsHonest : List Row → List Envelope → Type 0
  IsHonest rows sent = (e : Envelope) → Member e sent → (r : Row) × Member r rows × IsFor fs r e

  -- For every row that is delivered there is an envelope.
  abbrev pub IsAccounted : List Row → List Envelope → Type 0
  IsAccounted rows sent =
      (r : Row)
      → Member r rows
      → r.state ≡ delivered
      → (e : Envelope) × Member e sent × IsFor fs r e

  pub IsHonest-Grows :
      (rows rows' : List Row) (sent : List Envelope)
      → IsKeyed rows
      → Grows rows rows'
      → IsHonest rows sent
      → IsHonest rows' sent
  unfolding Grows
  IsHonest-Grows rows rows' sent keyed grows h e m =
      let (r, mr, fits) = h e m in
      let (r', found, same) = grows r.dlv_id r (keyed r mr) in
      (r', find_row-Member r.dlv_id r' rows' found, IsFor-IsSame fs r r' e same fits)

  -- One UPDATE and what was sent before it.
  module _ (rows : List Row) (sent sent' : List Envelope) (keyed : IsKeyed rows) (row : Row)
      (id : Text) (found : find_row id rows ≡ some row) (f : Row → Row)
      (same : (r : Row) → IsSame r (f r))
      (kept : (e : Envelope) → Member e sent → Member e sent') where
    pub update-IsHonest :
        ((e : Envelope) → Member e sent' → Member e sent ⊎ IsFor fs row e)
        → IsHonest rows sent
        → IsHonest (update_where id f rows) sent'
    update-IsHonest new h =
        IsHonest-Grows rows (update_where id f rows) sent' keyed (update_where-Grows id f rows same)
          (λ e m. elim (new e m) [
            | inl old ↦ h e old
            | inr fits ↦ (row, find_row-Member id row rows found, fits)
          ])

    pub update-IsAccounted :
        ((f row).state ≡ delivered → (e : Envelope) × Member e sent' × IsFor fs row e)
        → IsAccounted rows sent
        → IsAccounted (update_where id f rows) sent'
    update-IsAccounted proof h r m is_delivered = elim (Member-update_where id f r rows m) [
      | inl (old, ne) ↦ let (e, me, fits) = h r old is_delivered in (e, kept e me, fits)
      | inr (x, old, own, q) ↦
          let x_is_row : some x ≡ some row =
            sym (keyed x old) ∙ ap (λ j. find_row j rows) own ∙ found in
          let r_is : r ≡ f row = q ∙ ap f (Option.some-injective _ _ x_is_row) in
          let (e, me, fits) = proof (sym (ap (λ (y : Row). y.state) r_is) ∙ is_delivered) in
          (
            e,
            me,
            subst (λ y. IsFor fs y e) (sym r_is) (IsFor-IsSame fs row (f row) e (same row) fits),
          )
    ]

  pub append-IsAccounted :
      (rows : List Row) (new : Row) (sent : List Envelope)
      → new.state ≢ delivered
      → IsAccounted rows sent
      → IsAccounted (rows ++ new ∷ []) sent
  append-IsAccounted rows new sent fresh h r m is_delivered =
      elim (Member-append r rows (new ∷ []) m) [
        | inl old ↦ h r old is_delivered
        | inr (inl e) ↦ absurd (fresh (ap (λ (y : Row). y.state) (sym e) ∙ is_delivered))
        | inr (inr never) ↦ absurd never
      ]

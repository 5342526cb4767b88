-- ===== src/Database.antt =====
-- `New` of internal/db/db.go: which calls of database/sql fail is an argument.
use submitter_smtp_daemon.Prelude.{
  Bool, Bool-cases, Option, arith, false, if◌then◌else◌, inl, inr, none, refl, some, true, ◌≡◌, ◌⊎◌,
}

pub record Driver : Type 0 where
  pub open_fails : Bool
  pub wal_fails : Bool
  pub foreign_keys_fail : Bool
  pub schema_fails : Bool

-- The database handle: what was run on it, and whether it is closed.
pub record Handle : Type 0 where
  pub is_open : Bool
  pub has_wal : Bool
  pub has_foreign_keys : Bool
  pub has_schema : Bool

pub data Error : Type 0 where
  open_failed wal_failed foreign_keys_failed schema_failed : Error

abbrev opened : Handle
opened = record { is_open = true; has_wal = false; has_foreign_keys = false; has_schema = false }

unfoldable pub close : Handle → Handle
close h = record h { is_open = false }

-- The error, and the handle where sql.Open made one.
unfoldable pub new : Driver → Option Error × Option Handle
unfolding close
new d =
    if d.open_fails
    then (some open_failed, none)
    else if d.wal_fails
    then (some wal_failed, some (close opened))
    else (let with_wal = record opened { has_wal = true } in
        if d.foreign_keys_fail
        then (some foreign_keys_failed, some (close with_wal))
        else (let enforced = record with_wal { has_foreign_keys = true } in
            if d.schema_fails
            then (some schema_failed, some (close enforced))
            else (none, some (record enforced { has_schema = true }))))

-- New either returns a handle that is open, in WAL mode, with foreign keys and the schema, or an
-- error, and then no handle stays open.
new_lem :
    (d : Driver)
    → ((h : Handle) × (new d ≡ (none, some h))
        × (h.is_open ≡ true)
        × (h.has_wal ≡ true)
        × (h.has_foreign_keys ≡ true)
        × (h.has_schema ≡ true))
      ⊎ ((e : Error) × ((new d).0 ≡ some e)
          × ((h : Handle) → (new d).1 ≡ some h → h.is_open ≡ false))
unfolding new close
new_lem d = elim (Bool-cases d.open_fails) [
  | inl bad ↦ inr (open_failed, ground arith, λ h e. ground arith)
  | inr fine ↦ elim (Bool-cases d.wal_fails) [
    | inl bad ↦ inr (wal_failed, ground arith, λ h e. ground arith)
    | inr wal ↦ elim (Bool-cases d.foreign_keys_fail) [
      | inl bad ↦ inr (foreign_keys_failed, ground arith, λ h e. ground arith)
      | inr keys ↦ elim (Bool-cases d.schema_fails) [
        | inl bad ↦ inr (schema_failed, ground arith, λ h e. ground arith)
        | inr schema ↦ inl (
          record { is_open = true; has_wal = true; has_foreign_keys = true; has_schema = true },
          rw (fine, wal, keys, schema, new) refl,
          refl,
          refl,
          refl,
          refl,
        )
      ]
    ]
  ]
]

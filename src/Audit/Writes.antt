-- ===== src/Audit/Writes.antt =====
-- `persistAdvance` and the audit of scripts/audit-ledger.ts.
use invoice_reservation.Prelude.{◌≡◌, ap, ◌∙◌, Bool, some, List, ◌++◌, find, update_where}
use invoice_reservation.Prelude.Text.{Text}
use invoice_reservation.Prelude.Int.{◌+ℤ◌}
use invoice_reservation.Position.{
  Date, PositionComponent, PendingLedgerEntry, ProgramPosition, AdvanceResult, advance_position,
}
use invoice_reservation.Position.Replay.{component_of, sum_deltas, advance_position-Agrees}
use invoice_reservation.Store.{Database, has_id, write_position, ledger_rows, persist_advance}
use invoice_reservation.Store.Tables.{ProgramEntity}
use invoice_reservation.Store.Triples.{
  Triple, bind_triple, check_triple, check_unique_triple, modify_triple, gets_triple,
}
use invoice_reservation.Audit.Sums.{Audited, Audited-find, Audited-write}

abbrev pub IsAudited : Database → Type 0
IsAudited db = Audited db.ledger db.programs

-- The program that the lock has read is still the row.
abbrev pub Locked : Text → ProgramEntity → Database → Type 0
Locked id p db = Audited db.ledger db.programs × (find (has_id id) db.programs ≡ some p)

-- What an advance of `old` must satisfy to be persisted.
abbrev pub IsAdvance : ProgramPosition → AdvanceResult → Type 0
IsAdvance old r =
    (c : PositionComponent)
    → component_of c r.program ≡ component_of c old +ℤ sum_deltas c r.entries

pub persist_advance-triple :
    (reconciling : Bool) (id : Text) (p : ProgramEntity) (r : AdvanceResult) (now : Date)
    → IsAdvance p.position r
    → Triple (Locked id p) (persist_advance reconciling p.position id r now) (λ _. IsAudited)
unfolding persist_advance
persist_advance-triple reconciling id p r now h = bind_triple _ _ (check_triple _) λ _.
    bind_triple _ _ (gets_triple _) λ rows. bind_triple _ _ (check_unique_triple _) λ _.
      bind_triple _ _ (modify_triple {Q = Mid} _ (λ db k. written db k)) λ _.
        bind_triple _ _ (check_triple _)
          λ _. bind_triple _ _ (check_triple _) λ _. modify_triple _ (λ db k. k)
  where
    Mid : Database → Type 0
    Mid db = Audited db.ledger (update_where (has_id id) (write_position r.program now) db.programs)

    written :
        (db : Database)
        → Locked id p db
        → Mid (record db { ledger = db.ledger ++ ledger_rows id now r.entries })
    written db k =
        Audited-write db.ledger db.programs id r.program now r.entries
          (λ c.
            h c
            ∙ ap (λ t. t +ℤ sum_deltas c r.entries)
                ((Audited-find db.ledger db.programs id p k.0 k.1).1 c))
          k.0

pub advance_position-IsAdvance :
    (p : ProgramPosition) (es : List PendingLedgerEntry) (now : Date)
    → IsAdvance p (advance_position p es now)
advance_position-IsAdvance p es now c = advance_position-Agrees c p es now

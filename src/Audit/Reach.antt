-- ===== src/Audit/Reach.antt =====
-- Any sequence of the services' calls, and the replay of the ledger by scripts/audit-ledger.ts
-- after it.
use invoice_reservation.Prelude.{◌≡◌, refl, sym, ℕ, suc, Option, none, some, List, [], ◌∷◌, arith}
use invoice_reservation.Prelude.Text.{Text}
use invoice_reservation.Prelude.Int.{==ℤ_iff}
use invoice_reservation.Position.{Date, PositionComponent}
use invoice_reservation.Position.Replay.{component_of}
use invoice_reservation.Store.{Database, transaction}
use invoice_reservation.Store.Tables.{ProgramEntity, LedgerRow, StreamCoordinates}
use invoice_reservation.Store.Triples.{transaction_triple}
use invoice_reservation.Service.Environment.{Environment}
use invoice_reservation.Service.Reserve.{ReserveCommand, reserve}
use invoice_reservation.Service.Release.{ReleaseCommand, release}
use invoice_reservation.Service.Cancel.{CancelCommand, cancel}
use invoice_reservation.Service.TreasuryEvent.{CapacityEvent}
use invoice_reservation.Service.TreasuryEvent
use invoice_reservation.Service.Snapshot.{ReconciliationSnapshot}
use invoice_reservation.Service.Snapshot
use invoice_reservation.Audit.{
  LedgerMismatch, AuditResult, ledger_sum, audit_components, audit_programs, audit_ledger,
  components,
}
use invoice_reservation.Audit.Sums.{Audited}
use invoice_reservation.Audit.Writes.{IsAudited}
use invoice_reservation.Audit.Services.{reserve-IsAudited, release-IsAudited, cancel-IsAudited}
use invoice_reservation.Service.Reconciliation.{
  ReconciliationMismatch, is_unflagged, require_investigation, flag_mismatches, mismatches_of,
  check,
}
use invoice_reservation.Service.Recovery.{hold_unverified, hold_all, flagged_of, detect}
use invoice_reservation.Service.Retention.{sweep}
use invoice_reservation.Store.{has_id}
use invoice_reservation.Audit.Treasury.{
  Audited-update_where, apply_event-IsAudited, apply_snapshot-IsAudited,
}

-- A call of a service, which runs in one transaction, or of a sweep.
pub data Step : Database → Database → Type 0 where
  reserves :
      (env : Environment) (c : ReserveCommand) {db : Database}
      → Step db (transaction (reserve env c) db).1
  releases :
      (env : Environment) (c : ReleaseCommand) {db : Database}
      → Step db (transaction (release env c) db).1
  cancels :
      (env : Environment) (c : CancelCommand) {db : Database}
      → Step db (transaction (cancel env c) db).1
  applies_event :
      (hash : CapacityEvent → Text) (now : Date) (e : CapacityEvent) (c : StreamCoordinates)
      {db : Database}
      → Step db (TreasuryEvent.apply hash now e c db).1
  applies_snapshot :
      (hash : ReconciliationSnapshot → Text) (now : Date) (basis_points : ℕ)
      (s : ReconciliationSnapshot) (c : StreamCoordinates) {db : Database}
      → Step db (Snapshot.apply hash now basis_points s c db).1
  checks_reconciliation : {db : Database} → Step db (check db).1
  detects_recovery : {db : Database} → Step db (detect db).1
  sweeps_requests : (now : Date) (days : ℕ) {db : Database} → Step db (sweep now days db).1

pub data Reaches : Database → Database → Type 0 where
  here : {db : Database} → Reaches db db
  after : {db mid end : Database} → Reaches db mid → Step mid end → Reaches db end

component_of-investigation :
    (c : PositionComponent) (p : ProgramEntity)
    → component_of c (require_investigation p).position ≡ component_of c p.position
component_of-investigation PositionComponent.local p = refl
component_of-investigation PositionComponent.treasury p = refl
component_of-investigation PositionComponent.limit p = refl

component_of-hold :
    (c : PositionComponent) (p : ProgramEntity)
    → component_of c (hold_unverified p).position ≡ component_of c p.position
component_of-hold PositionComponent.local p = refl
component_of-hold PositionComponent.treasury p = refl
component_of-hold PositionComponent.limit p = refl

flag_mismatches-Audited :
    (ls : List LedgerRow) (ms : List ReconciliationMismatch) (ps : List ProgramEntity)
    → Audited ls ps
    → Audited ls (flag_mismatches ms ps)
unfolding flag_mismatches
flag_mismatches-Audited ls [] ps k = k
flag_mismatches-Audited ls (m ∷ ms) ps k = flag_mismatches-Audited ls ms _ (
    Audited-update_where ls ps (is_unflagged m.program_id) require_investigation (λ p. refl)
      component_of-investigation k)

hold_all-Audited :
    (ls : List LedgerRow) (ids : List Text) (ps : List ProgramEntity)
    → Audited ls ps
    → Audited ls (hold_all ids ps)
unfolding hold_all
hold_all-Audited ls [] ps k = k
hold_all-Audited ls (id ∷ ids) ps k =
    hold_all-Audited ls ids _
      (Audited-update_where ls ps (has_id id) hold_unverified (λ p. refl) component_of-hold k)

Step-IsAudited : {db end : Database} → Step db end → IsAudited db → IsAudited end
unfolding check detect sweep
Step-IsAudited (reserves env c {db}) k = transaction_triple _ (reserve-IsAudited env c) db k
Step-IsAudited (releases env c {db}) k = transaction_triple _ (release-IsAudited env c) db k
Step-IsAudited (cancels env c {db}) k = transaction_triple _ (cancel-IsAudited env c) db k
Step-IsAudited (applies_event hash now e c {db}) k = apply_event-IsAudited hash now e c db k
Step-IsAudited (applies_snapshot hash now points s c {db}) k =
    apply_snapshot-IsAudited hash now points s c db k
Step-IsAudited (checks_reconciliation {db}) k =
    flag_mismatches-Audited db.ledger (mismatches_of db.reservations db.programs) db.programs k
Step-IsAudited (detects_recovery {db}) k =
    hold_all-Audited db.ledger (flagged_of db db.programs) db.programs k
Step-IsAudited (sweeps_requests now days {db}) k = k

Reaches-IsAudited : {db end : Database} → Reaches db end → IsAudited db → IsAudited end
Reaches-IsAudited here k = k
Reaches-IsAudited (after r s) k = Step-IsAudited s (Reaches-IsAudited r k)

audit_components-agree :
    (p : ProgramEntity) (ls : List LedgerRow)
    → audit_components p ls components ≡ none
    → (c : PositionComponent) → component_of c p.position ≡ ledger_sum c p.id ls
unfolding audit_components
audit_components-agree p ls h PositionComponent.local = ground (
  arith,
  ==ℤ_iff (ledger_sum PositionComponent.local p.id ls)
      (component_of PositionComponent.local p.position),
)
audit_components-agree p ls h PositionComponent.treasury = ground (
  arith,
  ==ℤ_iff (ledger_sum PositionComponent.treasury p.id ls)
      (component_of PositionComponent.treasury p.position),
)
audit_components-agree p ls h PositionComponent.limit = ground (
  arith,
  ==ℤ_iff (ledger_sum PositionComponent.limit p.id ls)
      (component_of PositionComponent.limit p.position),
)

audit_components-pass :
    (p : ProgramEntity) (ls : List LedgerRow) (cs : List PositionComponent)
    → ((c : PositionComponent) → component_of c p.position ≡ ledger_sum c p.id ls)
    → audit_components p ls cs ≡ none
unfolding audit_components
audit_components-pass p ls [] h = refl
audit_components-pass p ls (c ∷ cs) h =
    rw ((==ℤ_iff (ledger_sum c p.id ls) (component_of c p.position)).1 (sym (h c)))
      (audit_components-pass p ls cs h)

split_result :
    (n : ℕ) (o : Option LedgerMismatch) (rest : AuditResult)
    → (elim o as (λ _. AuditResult) [
      | none ↦ rest
      | some m ↦ record { programs_checked = n; mismatch = some m }
    ]).mismatch
      ≡ none
    → (o ≡ none) × (rest.mismatch ≡ none)
split_result n none rest h = (refl, h)
split_result n (some m) rest h = cc

join_result :
    (n : ℕ) (o : Option LedgerMismatch) (rest : AuditResult)
    → o ≡ none
    → rest.mismatch ≡ none
    → (elim o as (λ _. AuditResult) [
      | none ↦ rest
      | some m ↦ record { programs_checked = n; mismatch = some m }
    ]).mismatch
      ≡ none
join_result n none rest e h = h
join_result n (some m) rest e h = cc

audit_programs-Audited :
    (n : ℕ) (ps : List ProgramEntity) (ls : List LedgerRow)
    → (audit_programs n ps ls).mismatch ≡ none
    → Audited ls ps
unfolding audit_programs
audit_programs-Audited n [] ls h = tt
audit_programs-Audited n (p ∷ ps) ls h =
    let (first, later) = split_result n (audit_components p ls components) _ h in
    (audit_components-agree p ls first, audit_programs-Audited (suc n) ps ls later)

Audited-audit_programs :
    (n : ℕ) (ps : List ProgramEntity) (ls : List LedgerRow)
    → Audited ls ps
    → (audit_programs n ps ls).mismatch ≡ none
unfolding audit_programs
Audited-audit_programs n [] ls a = refl
Audited-audit_programs n (p ∷ ps) ls a =
    join_result n (audit_components p ls components) _ (audit_components-pass p ls components a.0)
      (Audited-audit_programs (suc n) ps ls a.1)

-- If the audit of a database finds no mismatch, then neither does the audit of any database that
-- calls of the five services and of the three sweeps, in any order and with any commands, messages and
-- environments, lead to; a call that fails is among them.
pub Reaches-audit_ledger :
    (db end : Database)
    → Reaches db end
    → (audit_ledger db).mismatch ≡ none
    → (audit_ledger end).mismatch ≡ none
unfolding audit_ledger
Reaches-audit_ledger db end r h =
    Audited-audit_programs 0 end.programs end.ledger
      (Reaches-IsAudited r (audit_programs-Audited 0 db.programs db.ledger h))

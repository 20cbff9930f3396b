-- ===== src/Audit/Sums.antt =====
-- How the sums of the ledger move when rows are added (scripts/audit-ledger.ts).
use invoice_reservation.Prelude.{
  ◌≡◌, refl, sym, ap, ◌∙◌, inl, inr, Bool-cases, some, List, [], ◌∷◌, ◌++◌, arith, if◌then◌else◌,
  find, update_where,
}
use invoice_reservation.Prelude.Text.{Text, text_eq, text_eq_iff, text_eq_sym, text_ne_sym}
use invoice_reservation.Prelude.Int.{pos, ◌+ℤ◌, int_laws, +ℤ_zero}
use invoice_reservation.Position.{Date, PositionComponent, SequencedLedgerEntry, ProgramPosition}
use invoice_reservation.Position.Replay.{component_of, sum_deltas}
use invoice_reservation.Store.{ledger_rows, has_id, write_position}
use invoice_reservation.Store.Tables.{ProgramEntity, LedgerRow}
use invoice_reservation.Audit.{ledger_sum}

pub ledger_sum-append :
    (c : PositionComponent) (id : Text) (xs ys : List LedgerRow)
    → ledger_sum c id (xs ++ ys) ≡ ledger_sum c id xs +ℤ ledger_sum c id ys
unfolding ledger_sum
ledger_sum-append c id [] ys = omega int_laws
ledger_sum-append c id (x ∷ xs) ys = rw (ledger_sum-append c id xs ys) (omega int_laws)

-- The rows of an advance add the deltas of its entries to their program, and nothing to another.
pub ledger_sum-ledger_rows :
    (c : PositionComponent) (id other : Text) (now : Date) (es : List SequencedLedgerEntry)
    → ledger_sum c other (ledger_rows id now es)
      ≡ (if text_eq id other then sum_deltas c es else pos 0)
unfolding ledger_sum
ledger_sum-ledger_rows c id other now [] = ground arith
ledger_sum-ledger_rows c id other now (e ∷ es) =
    rw (ledger_sum-ledger_rows c id other now es)
      (elim (Bool-cases (text_eq id other)) [ inl h ↦ rw h | inr h ↦ rw h (omega int_laws) ])

-- Each cached component of each program is the sum of its entries.
abbrev pub Audited : List LedgerRow → List ProgramEntity → Type 0
Audited ls [] = Unit
Audited ls (p ∷ ps) =
    ((c : PositionComponent) → component_of c p.position ≡ ledger_sum c p.id ls) × Audited ls ps

pub Audited-find :
    (ls : List LedgerRow) (ps : List ProgramEntity) (id : Text) (p : ProgramEntity)
    → Audited ls ps
    → find (has_id id) ps ≡ some p
    → (p.id ≡ id) × ((c : PositionComponent) → component_of c p.position ≡ ledger_sum c id ls)
unfolding find
Audited-find ls [] id p h e = cc
Audited-find ls (q ∷ ps) id p h e = elim (Bool-cases (text_eq q.id id)) [
  | inl hit ↦
      let same : q ≡ p = ground arith in
      let qid : q.id ≡ id = (text_eq_iff q.id id).0 hit in
      (ap (λ (x : ProgramEntity). x.id) (sym same) ∙ qid, λ c. rw (← same, ← qid) (h.0 c))
  | inr miss ↦ Audited-find ls ps id p h.1 (ground arith)
]

ledger_sum-rows :
    (c : PositionComponent) (id other : Text) (now : Date) (es : List SequencedLedgerEntry)
    (ls : List LedgerRow)
    → ledger_sum c other (ls ++ ledger_rows id now es)
      ≡ ledger_sum c other ls +ℤ (if text_eq id other then sum_deltas c es else pos 0)
ledger_sum-rows c id other now es ls =
    ledger_sum-append c other ls (ledger_rows id now es)
    ∙ ap (λ t. ledger_sum c other ls +ℤ t) (ledger_sum-ledger_rows c id other now es)

component_of-write :
    (c : PositionComponent) (new : ProgramPosition) (now : Date) (p : ProgramEntity)
    → component_of c (write_position new now p).position ≡ component_of c new
component_of-write PositionComponent.local new now p = refl
component_of-write PositionComponent.treasury new now p = refl
component_of-write PositionComponent.limit new now p = refl

-- Appending the entries of an advance and writing its position keeps the audit.
pub Audited-write :
    (ls : List LedgerRow) (ps : List ProgramEntity) (id : Text) (new : ProgramPosition) (now : Date)
    (es : List SequencedLedgerEntry)
    → ((c : PositionComponent) → component_of c new ≡ ledger_sum c id ls +ℤ sum_deltas c es)
    → Audited ls ps
    → Audited (ls ++ ledger_rows id now es) (update_where (has_id id) (write_position new now) ps)
unfolding update_where
Audited-write ls [] id new now es h a = tt
Audited-write ls (p ∷ ps) id new now es h a = elim (Bool-cases (text_eq p.id id)) [
  | inl hit ↦ rw hit (
    λ c.
        component_of-write c new now p
        ∙ h c
        ∙ sym (
            ledger_sum-rows c id p.id now es ls
            ∙ rw (text_eq_sym p.id id hit, (text_eq_iff p.id id).0 hit)),
    Audited-write ls ps id new now es h a.1,
  )
  | inr miss ↦ rw miss (
    λ c.
        a.0 c
        ∙ sym (ledger_sum-rows c id p.id now es ls ∙ rw (text_ne_sym p.id id miss) (+ℤ_zero _)),
    Audited-write ls ps id new now es h a.1,
  )
]

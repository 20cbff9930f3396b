-- ===== src/Position/Components.antt =====
-- src/capacity/domain/position.ts: what an advance makes of each component, from the entries that
-- were asked for.
use invoice_reservation.Prelude.{◌≡◌, refl, sym, ap, ◌∙◌, Bool, true, false, List, [], ◌∷◌, is_some}
use invoice_reservation.Prelude.Text.{Text}
use invoice_reservation.Prelude.Int.{ℤ, pos, ◌+ℤ◌, int_laws, +ℤ_zero}
use invoice_reservation.Position.{
  Date, PositionComponent, PendingLedgerEntry, ProgramPosition, AdvanceResult, add_to, append_entry,
  advance_loop, mark_crossing, advance_position, is_over_limit, last_correlation_id,
}
use invoice_reservation.Position.Replay.{component_of, share, component_of-add_to}

abbrev pub sum_pending : PositionComponent → List PendingLedgerEntry → ℤ
sum_pending c [] = pos 0
sum_pending c (e ∷ es) = share c e.component e.delta_minor +ℤ sum_pending c es

component_of-append_entry :
    (c : PositionComponent) (e : PendingLedgerEntry) (r : AdvanceResult)
    → component_of c (append_entry e r).program ≡ component_of c r.program
unfolding append_entry
component_of-append_entry PositionComponent.local e r = refl
component_of-append_entry PositionComponent.treasury e r = refl
component_of-append_entry PositionComponent.limit e r = refl

component_of-advance_loop :
    (c : PositionComponent) (es : List PendingLedgerEntry) (r : AdvanceResult)
    → component_of c (advance_loop es r).program ≡ component_of c r.program +ℤ sum_pending c es
unfolding advance_loop
component_of-advance_loop c [] r = sym (+ℤ_zero _)
component_of-advance_loop c (e ∷ es) r =
    let added : AdvanceResult = record r { program = add_to e.component e.delta_minor r.program } in
    component_of-advance_loop c es (append_entry e added)
    ∙ rw
        (
          component_of-append_entry c e added,
          component_of-add_to c e.component e.delta_minor r.program,
        )
        (omega int_laws)

component_of-mark_crossing :
    (c : PositionComponent) (was is : Bool) (t : Text) (now : Date) (r : AdvanceResult)
    → component_of c (mark_crossing was is t now r).program ≡ component_of c r.program
unfolding mark_crossing append_entry
component_of-mark_crossing PositionComponent.local false true t now r = refl
component_of-mark_crossing PositionComponent.treasury false true t now r = refl
component_of-mark_crossing PositionComponent.limit false true t now r = refl
component_of-mark_crossing PositionComponent.local true false t now r = refl
component_of-mark_crossing PositionComponent.treasury true false t now r = refl
component_of-mark_crossing PositionComponent.limit true false t now r = refl
component_of-mark_crossing c false false t now r = refl
component_of-mark_crossing c true true t now r = refl

pub component_of-advance_position :
    (c : PositionComponent) (p : ProgramPosition) (es : List PendingLedgerEntry) (now : Date)
    → component_of c (advance_position p es now).program ≡ component_of c p +ℤ sum_pending c es
unfolding advance_position
component_of-advance_position c p es now =
    let start : AdvanceResult = record { program = p; entries = [] } in
    let looped = advance_loop es start in
    component_of-mark_crossing c (is_some p.over_limit_since) (is_over_limit looped.program)
      (last_correlation_id es) now looped
    ∙ component_of-advance_loop c es start

-- One entry of the local component.
pub local_entry_lem :
    (p : ProgramPosition) (e : PendingLedgerEntry) (now : Date)
    → e.component ≡ PositionComponent.local
    → let q = (advance_position p (e ∷ []) now).program in
      (q.local_reserved_minor ≡ p.local_reserved_minor +ℤ e.delta_minor)
      × (q.treasury_reserved_minor ≡ p.treasury_reserved_minor)
      × (q.credit_limit_minor ≡ p.credit_limit_minor)
unfolding ◌+ℤ◌
local_entry_lem p e now h = (
  component_of-advance_position PositionComponent.local p (e ∷ []) now
      ∙ ap (λ d. p.local_reserved_minor +ℤ d) (rw h (+ℤ_zero _)),
  component_of-advance_position PositionComponent.treasury p (e ∷ []) now ∙ rw h (+ℤ_zero _),
  component_of-advance_position PositionComponent.limit p (e ∷ []) now ∙ rw h (+ℤ_zero _),
)

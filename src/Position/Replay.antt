-- ===== src/Position/Replay.antt =====
-- src/capacity/domain/position.ts: the components of a position, and the deltas of the entries that
-- an advance emits.
use invoice_reservation.Prelude.{
  ◌≡◌, refl, sym, ap, ◌∙◌, Bool, true, false, List, [], ◌∷◌, ◌++◌, arith, is_some, Option,
}
use invoice_reservation.Prelude.Text.{Text}
use invoice_reservation.Prelude.Int.{ℤ, pos, ◌+ℤ◌, int_laws, +ℤ_zero}
use invoice_reservation.Position.{
  Date, PositionComponent, PendingLedgerEntry, SequencedLedgerEntry, ProgramPosition, AdvanceResult,
  add_to, append_entry, advance_loop, mark_crossing, advance_position, is_over_limit,
  last_correlation_id, LedgerCause, marker,
}

-- The part of a position that a component names.
abbrev pub component_of : PositionComponent → ProgramPosition → ℤ
component_of PositionComponent.local p = p.local_reserved_minor
component_of PositionComponent.treasury p = p.treasury_reserved_minor
component_of PositionComponent.limit p = p.credit_limit_minor

-- The delta of an entry if it is of component `c`, else zero.
abbrev pub share : PositionComponent → PositionComponent → ℤ → ℤ
share PositionComponent.local PositionComponent.local d = d
share PositionComponent.treasury PositionComponent.treasury d = d
share PositionComponent.limit PositionComponent.limit d = d
share _ _ d = pos 0

abbrev pub sum_deltas : PositionComponent → List SequencedLedgerEntry → ℤ
sum_deltas c [] = pos 0
sum_deltas c (e ∷ es) = share c e.component e.delta_minor +ℤ sum_deltas c es

pub sum_deltas-append :
    (c : PositionComponent) (xs ys : List SequencedLedgerEntry)
    → sum_deltas c (xs ++ ys) ≡ sum_deltas c xs +ℤ sum_deltas c ys
sum_deltas-append c [] ys = omega int_laws
sum_deltas-append c (x ∷ xs) ys = rw (sum_deltas-append c xs ys) (omega int_laws)

pub component_of-add_to :
    (c d : PositionComponent) (x : ℤ) (p : ProgramPosition)
    → component_of c (add_to d x p) ≡ component_of c p +ℤ share c d x
unfolding add_to
component_of-add_to PositionComponent.local PositionComponent.local x p = refl
component_of-add_to PositionComponent.local PositionComponent.treasury x p = sym (+ℤ_zero _)
component_of-add_to PositionComponent.local PositionComponent.limit x p = sym (+ℤ_zero _)
component_of-add_to PositionComponent.treasury PositionComponent.local x p = sym (+ℤ_zero _)
component_of-add_to PositionComponent.treasury PositionComponent.treasury x p = refl
component_of-add_to PositionComponent.treasury PositionComponent.limit x p = sym (+ℤ_zero _)
component_of-add_to PositionComponent.limit PositionComponent.local x p = sym (+ℤ_zero _)
component_of-add_to PositionComponent.limit PositionComponent.treasury x p = sym (+ℤ_zero _)
component_of-add_to PositionComponent.limit PositionComponent.limit x p = refl

-- `base` plus what the entries of `r` add is what the program of `r` shows.
abbrev pub Agrees : PositionComponent → ℤ → AdvanceResult → Type 0
Agrees c base r = component_of c r.program ≡ base +ℤ sum_deltas c r.entries

component_of-numbered :
    (c : PositionComponent) (p : ProgramPosition) (n : ℤ)
    → component_of c (record p { next_sequence = n }) ≡ component_of c p
component_of-numbered PositionComponent.local p n = refl
component_of-numbered PositionComponent.treasury p n = refl
component_of-numbered PositionComponent.limit p n = refl

append_entry-Agrees :
    (c : PositionComponent) (base : ℤ) (e : PendingLedgerEntry) (r : AdvanceResult)
    → component_of c r.program ≡ base +ℤ sum_deltas c r.entries +ℤ share c e.component e.delta_minor
    → Agrees c base (append_entry e r)
unfolding append_entry
append_entry-Agrees c base e r h =
    rw
      (
        component_of-numbered c r.program (r.program.next_sequence +ℤ pos 1),
        sum_deltas-append c r.entries,
        h,
      )
      (omega int_laws)

advance_loop-Agrees :
    (c : PositionComponent) (base : ℤ) (es : List PendingLedgerEntry) (r : AdvanceResult)
    → Agrees c base r
    → Agrees c base (advance_loop es r)
unfolding advance_loop
advance_loop-Agrees c base [] r h = h
advance_loop-Agrees c base (e ∷ es) r h = advance_loop-Agrees c base es _ (
    append_entry-Agrees c base e (record r { program = add_to e.component e.delta_minor r.program })
      (component_of-add_to c e.component e.delta_minor r.program
        ∙ ap (λ t. t +ℤ share c e.component e.delta_minor) h))

share-zero : (c d : PositionComponent) → share c d (pos 0) ≡ pos 0
share-zero c d = ground arith

component_of-since :
    (c : PositionComponent) (p : ProgramPosition) (s : Option Date)
    → component_of c (record p { over_limit_since = s }) ≡ component_of c p
component_of-since PositionComponent.local p s = refl
component_of-since PositionComponent.treasury p s = refl
component_of-since PositionComponent.limit p s = refl

marker-Agrees :
    (c : PositionComponent) (base : ℤ) (k : LedgerCause) (t : Text) (s : Option Date)
    (r : AdvanceResult)
    → Agrees c base r
    → Agrees c base (
        append_entry
          (marker k t)
          (record r { program = record (r.program) { over_limit_since = s } }))
marker-Agrees c base k t s r h =
    append_entry-Agrees c base (marker k t)
      (record r { program = record (r.program) { over_limit_since = s } })
      (rw (component_of-since c r.program s, share-zero c PositionComponent.limit, h)
        (omega int_laws))

mark_crossing-Agrees :
    (was is : Bool) (c : PositionComponent) (base : ℤ) (t : Text) (now : Date) (r : AdvanceResult)
    → Agrees c base r
    → Agrees c base (mark_crossing was is t now r)
unfolding mark_crossing
mark_crossing-Agrees false true c base t now r h = marker-Agrees c base _ t _ r h
mark_crossing-Agrees true false c base t now r h = marker-Agrees c base _ t _ r h
mark_crossing-Agrees false false c base t now r h = h
mark_crossing-Agrees true true c base t now r h = h

-- Each component of the advanced position is that of the position before plus the deltas of the
-- emitted entries of that component, the markers among them.
pub advance_position-Agrees :
    (c : PositionComponent) (p : ProgramPosition) (es : List PendingLedgerEntry) (now : Date)
    → let r = advance_position p es now in
      component_of c r.program ≡ component_of c p +ℤ sum_deltas c r.entries
unfolding advance_position
advance_position-Agrees c p es now =
    let start : AdvanceResult = record { program = p; entries = [] } in
    let looped = advance_loop es start in
    mark_crossing-Agrees (is_some p.over_limit_since) (is_over_limit looped.program) c
      (component_of c p) (last_correlation_id es) now looped
      (advance_loop-Agrees c (component_of c p) es start (sym (+ℤ_zero _)))

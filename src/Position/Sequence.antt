-- ===== src/Position/Sequence.antt =====
-- src/capacity/domain/position.ts: the sequence numbers of a program's entries.
use invoice_reservation.Prelude.{
  ◌≡◌, refl, Bool, true, false, List, [], ◌∷◌, ◌++◌, is_some, some, none,
}
use invoice_reservation.Prelude.Text.{Text}
use invoice_reservation.Prelude.Int.{ℤ, pos, ◌+ℤ◌}
use invoice_reservation.Position.{
  Date, PositionComponent, PendingLedgerEntry, SequencedLedgerEntry, ProgramPosition, AdvanceResult,
  add_to, append_entry, advance_loop, mark_crossing, advance_position, is_over_limit,
  last_correlation_id, LedgerCause, marker,
}

-- The entries carry the numbers from `n` up to, and without, `m`, in order and with no gap.
abbrev pub NumberedFrom : ℤ → List SequencedLedgerEntry → ℤ → Type 0
NumberedFrom n [] m = n ≡ m
NumberedFrom n (e ∷ es) m = (e.sequence ≡ n) × NumberedFrom (n +ℤ pos 1) es m

pub NumberedFrom-append :
    (n k m : ℤ) (xs ys : List SequencedLedgerEntry)
    → NumberedFrom n xs k
    → NumberedFrom k ys m
    → NumberedFrom n (xs ++ ys) m
NumberedFrom-append n k m [] ys h g = rw h g
NumberedFrom-append n k m (x ∷ xs) ys h g = (h.0, NumberedFrom-append (n +ℤ pos 1) k m xs ys h.1 g)

abbrev Numbered : ℤ → AdvanceResult → Type 0
Numbered n r = NumberedFrom n r.entries r.program.next_sequence

append_entry-Numbered :
    (n : ℤ) (e : PendingLedgerEntry) (r : AdvanceResult)
    → Numbered n r
    → Numbered n (append_entry e r)
unfolding append_entry
append_entry-Numbered n e r h =
    NumberedFrom-append n r.program.next_sequence _ r.entries _ h (refl, refl)

add_to-next_sequence :
    (c : PositionComponent) (x : ℤ) (p : ProgramPosition)
    → (add_to c x p).next_sequence ≡ p.next_sequence
unfolding add_to
add_to-next_sequence PositionComponent.local x p = refl
add_to-next_sequence PositionComponent.treasury x p = refl
add_to-next_sequence PositionComponent.limit x p = refl

advance_loop-Numbered :
    (n : ℤ) (es : List PendingLedgerEntry) (r : AdvanceResult)
    → Numbered n r
    → Numbered n (advance_loop es r)
unfolding advance_loop
advance_loop-Numbered n [] r h = h
advance_loop-Numbered n (e ∷ es) r h = advance_loop-Numbered n es _ (
    append_entry-Numbered n e (record r { program = add_to e.component e.delta_minor r.program })
      (rw (add_to-next_sequence e.component e.delta_minor r.program) h))

mark_crossing-Numbered :
    (was is : Bool) (n : ℤ) (t : Text) (now : Date) (r : AdvanceResult)
    → Numbered n r
    → Numbered n (mark_crossing was is t now r)
unfolding mark_crossing
mark_crossing-Numbered false true n t now r h =
    append_entry-Numbered n (marker LedgerCause.over_limit_onset t)
      (record r { program = record (r.program) { over_limit_since = some now } }) h
mark_crossing-Numbered true false n t now r h =
    append_entry-Numbered n (marker LedgerCause.over_limit_cleared t)
      (record r { program = record (r.program) { over_limit_since = none } }) h
mark_crossing-Numbered false false n t now r h = h
mark_crossing-Numbered true true n t now r h = h

-- The emitted entries are numbered from the program's next sequence with no gap, and the advanced
-- program's next sequence follows the last of them.
pub advance_position-NumberedFrom :
    (p : ProgramPosition) (es : List PendingLedgerEntry) (now : Date)
    → let r = advance_position p es now in
      NumberedFrom p.next_sequence r.entries r.program.next_sequence
unfolding advance_position
advance_position-NumberedFrom p es now =
    let start : AdvanceResult = record { program = p; entries = [] } in
    let looped = advance_loop es start in
    mark_crossing-Numbered (is_some p.over_limit_since) (is_over_limit looped.program)
      p.next_sequence (last_correlation_id es) now looped
      (advance_loop-Numbered p.next_sequence es start refl)

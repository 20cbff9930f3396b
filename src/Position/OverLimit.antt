-- ===== src/Position/OverLimit.antt =====
-- src/capacity/domain/position.ts: the over-limit marker.
use invoice_reservation.Prelude.{
  ◌≡◌, refl, ◌∙◌, Bool, true, false, List, [], ◌∷◌, is_some, some, none, Option,
}
use invoice_reservation.Prelude.Text.{Text}
use invoice_reservation.Prelude.Int.{ℤ}
use invoice_reservation.Position.{
  Date, PositionComponent, PendingLedgerEntry, ProgramPosition, AdvanceResult, add_to, append_entry,
  advance_loop, mark_crossing, advance_position, is_over_limit, last_correlation_id,
}

add_to-over_limit_since :
    (c : PositionComponent) (x : ℤ) (p : ProgramPosition)
    → (add_to c x p).over_limit_since ≡ p.over_limit_since
unfolding add_to
add_to-over_limit_since PositionComponent.local x p = refl
add_to-over_limit_since PositionComponent.treasury x p = refl
add_to-over_limit_since PositionComponent.limit x p = refl

advance_loop-over_limit_since :
    (es : List PendingLedgerEntry) (r : AdvanceResult)
    → (advance_loop es r).program.over_limit_since ≡ r.program.over_limit_since
unfolding advance_loop append_entry
advance_loop-over_limit_since [] r = refl
advance_loop-over_limit_since (e ∷ es) r =
    advance_loop-over_limit_since es
      (append_entry e (record r { program = add_to e.component e.delta_minor r.program }))
    ∙ add_to-over_limit_since e.component e.delta_minor r.program

-- When a program was over its limit and still is, the time of the onset stays; when it crosses the
-- limit the time is that of the crossing; within the limit there is none.
abbrev pub since_after : Option Date → Bool → Date → Option Date
since_after s false now = none
since_after none true now = some now
since_after (some t) true now = some t

mark_crossing-since :
    (s : Option Date) (over : Bool) (t : Text) (now : Date) (r : AdvanceResult)
    → r.program.over_limit_since ≡ s
    → is_over_limit r.program ≡ over
    → let p = (mark_crossing (is_some s) over t now r).program in
      (p.over_limit_since ≡ since_after s (is_over_limit p) now) × (is_over_limit p ≡ over)
unfolding mark_crossing append_entry is_over_limit
mark_crossing-since none false t now r e o = (rw o e, o)
mark_crossing-since none true t now r e o = (rw o, o)
mark_crossing-since (some x) false t now r e o = (rw o, o)
mark_crossing-since (some x) true t now r e o = (rw o e, o)

-- After every advance the program carries an over-limit time exactly when its reserved total
-- exceeds its limit, and that time is the one of the first advance that took it over.
pub advance_position-over_limit_since :
    (p : ProgramPosition) (es : List PendingLedgerEntry) (now : Date)
    → let q = (advance_position p es now).program in
      q.over_limit_since ≡ since_after p.over_limit_since (is_over_limit q) now
unfolding advance_position
advance_position-over_limit_since p es now =
    let start : AdvanceResult = record { program = p; entries = [] } in
    let looped = advance_loop es start in
    (mark_crossing-since p.over_limit_since (is_over_limit looped.program) (last_correlation_id es)
      now looped (advance_loop-over_limit_since es start) refl).0

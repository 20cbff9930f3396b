-- ===== src/Service/Retention.antt =====
-- src/capacity/application/request-retention.job.ts: `sweep`.
pub mod Keys
use invoice_reservation.Prelude.{
  ℕ, Bool, true, false, ◌&&◌, none, List, if◌then◌else◌, ◌*◌, filter, length, update_where,
}
use invoice_reservation.Prelude.Int.{ℤ, pos, ◌-ℤ◌, ltb_ℤ}
use invoice_reservation.Position.{Date}
use invoice_reservation.Store.{Database}
use invoice_reservation.Store.Tables.{RequestState, pending, complete, expired, RequestRecord}

-- `Date.now() - days * 24 * 60 * 60 * 1000`
unfoldable pub cutoff_of : Date → ℕ → Date
cutoff_of now days = now -ℤ pos (days * 24 * 60 * 60 * 1000)

abbrev pub is_complete : RequestState → Bool
is_complete complete = true
is_complete _ = false

abbrev pub is_pending : RequestState → Bool
is_pending pending = true
is_pending _ = false

abbrev pub is_due : Date → RequestRecord → Bool
is_due cutoff r = is_complete r.state && ltb_ℤ r.recorded_at cutoff

-- A writer that has crashed in the request.
abbrev pub is_stuck : Date → RequestRecord → Bool
is_stuck cutoff r = is_pending r.state && ltb_ℤ r.recorded_at cutoff

abbrev pub expire : RequestRecord → RequestRecord
expire r = record r { state = expired; outcome = none }

-- The rows that the warning counts.
unfoldable pub stuck_count : Date → Database → ℕ
stuck_count cutoff db = length (filter (is_stuck cutoff) db.requests)

-- The number of rows that expired.
unfoldable pub sweep : Date → ℕ → Database → ℕ × Database
sweep now days db =
    let cutoff = cutoff_of now days in
    (
      length (filter (is_due cutoff) db.requests),
      record db { requests = update_where (is_due cutoff) expire db.requests },
    )

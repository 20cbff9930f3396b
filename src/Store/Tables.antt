-- ===== src/Store/Tables.antt =====
-- src/capacity/infrastructure/entities, and the bodies that a completed request keeps
-- (src/capacity/application/reservation.projection.ts and availability.projection.ts).
-- Generated ids of ledger rows, which nothing reads, are left out; a time in a body is the `Date`
-- that its ISO text shows.
use invoice_reservation.Prelude.{Bool, Option, List}
use invoice_reservation.Prelude.Text.{Text}
use invoice_reservation.Prelude.Int.{ℤ}
use invoice_reservation.Position.{Date, ProgramPosition, SequencedLedgerEntry}
use invoice_reservation.Policy.Release.{ReservationStatus}
use invoice_reservation.Policy.Snapshot.{Origin, AcknowledgementKind}

-- `ProgramEntity`; `ProgramRepository.toPosition` is its field `position`.
pub record ProgramEntity : Type 0 where
  pub position : ProgramPosition
  pub open position use *
  pub organisation_id : Text
  pub treasury_version : ℤ
  pub treasury_effective_at : Option Date
  pub treasury_applied_effective_at : Option Date
  pub position_changed_at : Date

pub record InvoiceReservation : Type 0 where
  pub id : Text
  pub program_id : Text
  pub invoice_id : Text
  pub invoice_amount_minor : ℤ
  pub invoice_currency : Text
  pub program_currency : Text
  pub reserved_minor : ℤ
  pub outstanding_invoice_minor : ℤ
  pub outstanding_reserved_minor : ℤ
  pub fx_rate : Option Text
  pub fx_rate_effective_at : Option Date
  pub fx_rate_source : Option Text
  pub status : ReservationStatus
  pub origin : Origin
  pub treasury_acknowledged : Bool
  pub acknowledged_by_version : Option ℤ
  pub treasury_reference : Option Text
  pub confirmed_at : Date
  pub created_at : Date
  pub updated_at : Date

-- A row of `capacity_ledger_entry`.
pub record LedgerRow : Type 0 where
  pub program_id : Text
  pub entry : SequencedLedgerEntry
  pub occurred_at : Date

pub record MoneyBody : Type 0 where
  pub amount_minor : Text
  pub currency : Text

pub record ReservationFxBody : Type 0 where
  pub rate : Text
  pub effective_at : Date
  pub source : Text

pub record ReservationBody : Type 0 where
  pub invoice_id : Text
  pub program_id : Text
  pub status : ReservationStatus
  pub invoice_amount : MoneyBody
  pub reserved : MoneyBody
  pub outstanding_invoice : MoneyBody
  pub outstanding_reserved : MoneyBody
  pub fx : Option ReservationFxBody
  pub created_at : Date

pub record AvailabilityBody : Type 0 where
  pub program_id : Text
  pub currency : Text
  pub credit_limit : MoneyBody
  pub reserved_total : MoneyBody
  pub reserved_local : MoneyBody
  pub reserved_treasury : MoneyBody
  pub available : MoneyBody
  pub position_verified : Bool
  pub investigation_required : Bool
  pub reconciliation_pending : Bool
  pub over_limit_active : Bool
  pub over_limit_since : Option Date
  pub position_changed_at : Date
  pub applied_version : ℤ
  pub effective_at : Option Date
  pub lag_seconds : Option ℤ

-- `ReserveBody`, `ReleaseBody` and `CancelBody`, which are one shape.
pub record Body : Type 0 where
  pub reservation : ReservationBody
  pub availability : AvailabilityBody

pub data Operation : Type 0 where
  reserve_op release_op cancel_op : Operation

pub data RequestState : Type 0 where
  pending complete expired : RequestState

pub record RequestRecord : Type 0 where
  pub organisation_id : Text
  pub request_id : Text
  pub operation : Operation
  pub content_fingerprint : Text
  pub state : RequestState
  pub outcome : Option Body
  pub recorded_at : Date

pub data MessageKind : Type 0 where
  event snapshot : MessageKind

pub record ProcessedMessage : Type 0 where
  pub message_id : Text
  pub program_id : Text
  pub kind : MessageKind
  pub version : ℤ
  pub content_hash : Text
  pub processed_at : Date

pub record StreamCoordinates : Type 0 where
  pub topic : Text
  pub partition : ℤ
  pub offset : ℤ

pub record StreamPosition : Type 0 where
  pub program_id : Text
  pub topic : Text
  pub partition : ℤ
  pub offset : ℤ
  pub updated_at : Date

pub record SnapshotAcknowledgement : Type 0 where
  pub message_id : Text
  pub program_id : Text
  pub version : ℤ
  pub kind : AcknowledgementKind
  pub reservation_references : Option (List Text)
  pub ingested_through : Option Date

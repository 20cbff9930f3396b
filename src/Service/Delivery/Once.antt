-- ===== src/Service/Delivery/Once.antt =====
-- src/capacity/application/apply-treasury-event.service.ts: the second delivery of an event.
use mathlib.Core.Path.{subst}
use invoice_reservation.Prelude.{◌≡◌, refl, sym, ap, ◌∙◌, true, none, some, find}
use invoice_reservation.Prelude.Text.{Text, text_eq, text_eq_refl}
use invoice_reservation.Prelude.Result.{Result, ok, err}
use invoice_reservation.Position.{Date}
use invoice_reservation.Store.{
  Database, Failure, program_not_found, refusal, query_failed, unique_violation, type_error,
  unexpected, transaction, with_program_lock,
}
use invoice_reservation.Store.Tables.{ProgramEntity, MessageKind, StreamCoordinates}
use invoice_reservation.Store.Triples.{Ensures, ends, fails}
use invoice_reservation.Service.TreasuryEvent.{
  CapacityEvent, ApplyOutcome, applied, already_applied, echo_suppressed, quarantined,
  unknown_program, has_version, processed_event, on_same_version, apply_new, apply_locked,
  catch_unknown, apply,
}
use invoice_reservation.Service.Delivery.{took_effect, Seen, Settled, locked-Settled}

-- What `apply` makes of the transaction.
abbrev outside :
    Database → Result (ApplyOutcome × Database) Failure → Result ApplyOutcome Failure × Database
outside db (ok (a, db')) = (ok a, db')
outside db (err (program_not_found id)) = (ok (quarantined unknown_program), db)
outside db (err x) = (err x, db)

outside-transaction :
    (hash : CapacityEvent → Text) (t : Date) (db : Database)
    (r : Result (ApplyOutcome × Database) Failure)
    → let x : Result ApplyOutcome Failure × Database = transaction (λ _. r) db in
      ◌≡◌ {A = Result ApplyOutcome Failure × Database}
        (catch_unknown hash t x.0, x.1)
        (outside db r)
unfolding transaction
outside-transaction hash t db (ok (a, db')) = refl
outside-transaction hash t db (err (refusal x)) = refl
outside-transaction hash t db (err (program_not_found id)) = refl
outside-transaction hash t db (err query_failed) = refl
outside-transaction hash t db (err unique_violation) = refl
outside-transaction hash t db (err (type_error x)) = refl
outside-transaction hash t db (err unexpected) = refl

apply_lem :
    (hash : CapacityEvent → Text) (t : Date) (e : CapacityEvent) (c : StreamCoordinates)
    (db : Database)
    → apply hash t e c db ≡ outside db (with_program_lock e.program_id (apply_locked hash t e c) db)
unfolding apply transaction
apply_lem hash t e c db =
    outside-transaction hash t db (with_program_lock e.program_id (apply_locked hash t e c) db)

module _ (hash : CapacityEvent → Text) (now later : Date) (e : CapacityEvent)
    (c : StreamCoordinates) where
  same_version-known : on_same_version hash later e (processed_event hash now e) ≡ already_applied
  unfolding on_same_version
  same_version-known = rw (text_eq_refl e.message_id) refl

  apply_locked-known :
      (p : ProgramEntity) (db : Database)
      → find (has_version e.program_id MessageKind.event e.version) db.processed
        ≡ some (processed_event hash now e)
      → text_eq p.currency e.currency ≡ true
      → apply_locked hash later e c p db ≡ ok (already_applied, db)
  unfolding apply_locked
  apply_locked-known p db h v = rw v (
      ap
        (λ o. elim o as (λ _. Result (ApplyOutcome × Database) Failure) [
          | some m ↦ ok (on_same_version hash later e m, db)
          | none ↦ apply_new hash later e c p db
        ])
        h
      ∙ ap (λ o. ok (o, db)) same_version-known)

  -- What `apply` answers when the version is known as this event.
  apply-known :
      (db : Database) → Seen hash now e db → apply hash later e c db ≡ (ok already_applied, db)
  unfolding with_program_lock
  apply-known db (h, (p, f, v)) =
      apply_lem hash later e c db
      ∙ ap (outside db) (
          ap
            (λ o. elim o as (λ _. Result (ApplyOutcome × Database) Failure) [
              | none ↦ err (program_not_found e.program_id)
              | some q ↦ apply_locked hash later e c q db
            ])
            f
          ∙ apply_locked-known p db h v)

  -- Where an event took effect, its version is known as that event.
  settled :
      (o : ApplyOutcome) (db end : Database) (r : Result (ApplyOutcome × Database) Failure)
      → Ensures (Settled hash now e) r
      → outside db r ≡ (ok o, end)
      → took_effect o ≡ true
      → Seen hash now e end
  settled o db end r (ends {a = applied} {db = db'} q) h t =
      let same : db' ≡ end = ap (λ x. x.1) h in subst (Seen hash now e) same q
  settled o db end r (ends {a = echo_suppressed} {db = db'} q) h t =
      let same : db' ≡ end = ap (λ x. x.1) h in subst (Seen hash now e) same q
  settled o db end r (ends {a = already_applied} {db = db'} q) h t =
      let same : already_applied ≡ o = cc in absurd (cc (ap took_effect same, t))
  settled o db end r (ends {a = quarantined y} {db = db'} q) h t =
      let same : quarantined y ≡ o = cc in absurd (cc (ap took_effect same, t))
  settled o db end r (fails {e = program_not_found id}) h t =
      let same : quarantined unknown_program ≡ o = cc in absurd (cc (ap took_effect same, t))
  settled o db end r (fails {e = refusal x}) h t = cc
  settled o db end r (fails {e = query_failed}) h t = cc
  settled o db end r (fails {e = unique_violation}) h t = cc
  settled o db end r (fails {e = type_error x}) h t = cc
  settled o db end r (fails {e = unexpected}) h t = cc

-- If the application of an event ends as applied or as a suppressed echo, then any later application of
-- it, at whatever coordinates of the stream, answers that it was already applied and leaves the database
-- as it is.
pub apply_once :
    (hash : CapacityEvent → Text) (now later : Date) (e : CapacityEvent) (c d : StreamCoordinates)
    (o : ApplyOutcome) (db end : Database)
    → apply hash now e c db ≡ (ok o, end)
    → took_effect o ≡ true
    → apply hash later e d end ≡ (ok already_applied, end)
apply_once hash now later e c d o db end h t = apply-known hash now later e d end (
    settled hash now later e d o db end _ ((locked-Settled hash now e c).run db tt)
      (sym (apply_lem hash now e c db) ∙ h) t)

-- ===== src/Service/Delivery.antt =====
-- src/capacity/application/apply-treasury-event.service.ts: what an event leaves among the processed
-- messages.
pub mod Once
use mathlib.Core.Path.{subst}
use invoice_reservation.Prelude.{
  ◌≡◌, refl, sym, ap, ◌∙◌, inl, inr, ℕ, Bool, true, false, not, ◌&&◌, ◌||◌, Bool-cases, Option,
  none, some, List, [], ◌∷◌, ◌++◌, arith, if◌then◌else◌, find, update_where, find-appended,
  find-updated, is_some,
}
use invoice_reservation.Prelude.Text.{Text, text_eq, text_eq_refl}
use invoice_reservation.Prelude.Int.{ℤ, ◌==ℤ◌, ==ℤ_iff}
use invoice_reservation.Prelude.Result.{Result, ok, err}
use invoice_reservation.Position.{Date, ProgramPosition, advance_position}
use invoice_reservation.Store.{
  Database, Failure, Tx, pure, program_not_found, refusal, query_failed, type_error, unexpected,
  has_id, find_program, transaction, with_program_lock, write_position, persist_advance,
}
use invoice_reservation.Store.Tables.{
  ProgramEntity, ProcessedMessage, MessageKind, StreamCoordinates,
}
use invoice_reservation.Store.Triples.{
  Ensures, ends, fails, Triple, bind_triple, check_triple, modify_triple, gets_triple, pure_triple,
  if_triple, if_ensures, split_ensures,
}
use invoice_reservation.Service.Frames.{lock_triple, upsert_position-triple, persist_advance-triple}
use invoice_reservation.Service.TreasuryEvent.{
  CapacityEvent, ApplyOutcome, applied, already_applied, echo_suppressed, quarantined,
  unknown_program, has_message, has_version, processed_event, insert_processed, note_applied,
  record_applied, on_same_version, apply_entry, suppress_echo, apply_or_suppress, apply_new,
  apply_locked, catch_unknown, apply, build_entry,
}

abbrev pub took_effect : ApplyOutcome → Bool
took_effect applied = true
took_effect echo_suppressed = true
took_effect already_applied = false
took_effect (quarantined r) = false

-- The program is there, in the event's currency.
abbrev pub Valued : CapacityEvent → List ProgramEntity → Type 0
Valued e ps =
    (p : ProgramEntity) × (find (has_id e.program_id) ps ≡ some p)
    × (text_eq p.currency e.currency ≡ true)

module _ (hash : CapacityEvent → Text) (now : Date) (e : CapacityEvent) where
  abbrev Unseen : Database → Type 0
  Unseen db =
      (find (has_version e.program_id MessageKind.event e.version) db.processed ≡ none)
      × Valued e db.programs

  abbrev pub Seen : Database → Type 0
  Seen db =
      (find (has_version e.program_id MessageKind.event e.version) db.processed
        ≡ some (processed_event hash now e))
      × Valued e db.programs

  abbrev pub Settled : ApplyOutcome → Database → Type 0
  Settled applied db = Seen db
  Settled echo_suppressed db = Seen db
  Settled already_applied db = Unit
  Settled (quarantined r) db = Unit

  Valued-update_where :
      (f : ProgramEntity → ProgramEntity) (ps : List ProgramEntity)
      → ((p : ProgramEntity) → (f p).id ≡ p.id)
      → ((p : ProgramEntity) → (f p).currency ≡ p.currency)
      → Valued e ps
      → Valued e (update_where (has_id e.program_id) f ps)
  Valued-update_where f ps hi hc (p, h, k) = (
    f p,
    find-updated (has_id e.program_id) f ps p (λ y. ap (λ t. text_eq t e.program_id) (hi y)) h,
    ap (λ t. text_eq t e.currency) (hc p) ∙ k,
  )

  insert_processed-Seen : Triple Unseen (insert_processed (processed_event hash now e)) (λ _. Seen)
  unfolding insert_processed
  insert_processed-Seen = bind_triple _ _ (check_triple _) λ _.
      modify_triple _
        λ db k. (find-appended _ db.processed (processed_event hash now e) k.0 same_version, k.1)
    where
      same_version :
          has_version e.program_id MessageKind.event e.version (processed_event hash now e) ≡ true
      same_version = rw (text_eq_refl e.program_id, (==ℤ_iff e.version e.version).1 refl) refl

  record_applied-Seen : Triple Seen (record_applied e.program_id e.effective_at) (λ _. Seen)
  unfolding record_applied
  record_applied-Seen = modify_triple _ λ db k. (
    k.0,
    Valued-update_where (note_applied e.effective_at) db.programs (λ p. refl) (λ p. refl) k.1,
  )

  same_version-Settled :
      (db : Database) (m : ProcessedMessage)
      → Ensures Settled (ok (on_same_version hash now e m, db))
  unfolding on_same_version
  same_version-Settled db m =
      elim (Bool-cases (text_eq m.message_id e.message_id || text_eq m.content_hash (hash e))) [
        | inl h ↦ rw h (ends tt)
        | inr h ↦ rw h (ends tt)
      ]

  module _ (c : StreamCoordinates) (p : ProgramEntity) where
    apply_entry-Seen : Triple Seen (apply_entry hash now e c p) Settled
    unfolding apply_entry pure
    apply_entry-Seen =
        bind_triple _ _
          (persist_advance-triple {P = Seen} e.program_id (λ db ls k. k)
            (λ q t db k. (
              k.0,
              Valued-update_where (write_position q t) db.programs (λ x. refl) (λ x. refl) k.1,
            ))
            false p.position _ now)
          λ _. bind_triple _ _ record_applied-Seen λ _.
            bind_triple _ _ (upsert_position-triple (λ db ss k. k) _ _ _)
              λ _. record { run = λ db k. ends k }

    suppress_echo-Seen :
        (reference : Text) → Triple Seen (suppress_echo hash now e c reference) Settled
    unfolding suppress_echo pure
    suppress_echo-Seen reference = bind_triple _ _ (modify_triple {Q = Seen} _ (λ db k. k)) λ _.
        bind_triple _ _ (upsert_position-triple (λ db ss k. k) _ _ _)
          λ _. bind_triple _ _ record_applied-Seen λ _. record { run = λ db k. ends k }

    apply_or_suppress-Seen :
        (o : Option Text) → Triple Seen (apply_or_suppress hash now e c p o) Settled
    unfolding apply_or_suppress
    apply_or_suppress-Seen none = apply_entry-Seen
    apply_or_suppress-Seen (some reference) = record {
      run = λ db k.
          if_ensures _ ((suppress_echo-Seen reference).run db k) (apply_entry-Seen.run db k);
    }

    already_known : Triple Unseen (pure already_applied) Settled
    unfolding pure
    already_known = record { run = λ db k. ends tt }

    apply_new-Settled : Triple Unseen (apply_new hash now e c p) Settled
    unfolding apply_new
    apply_new-Settled = bind_triple _ _ (gets_triple _) λ seen.
        if_triple _ already_known (
          bind_triple _ _ insert_processed-Seen λ _. apply_or_suppress-Seen e.reservation_reference)

    on_version-Settled :
        (db : Database) (o : Option ProcessedMessage)
        → find (has_version e.program_id MessageKind.event e.version) db.processed ≡ o
        → Valued e db.programs
        → Ensures Settled (elim o [
          | some m ↦ ok (on_same_version hash now e m, db)
          | none ↦ apply_new hash now e c p db
        ])
    on_version-Settled db none h v = apply_new-Settled.run db (h, v)
    on_version-Settled db (some m) h v = same_version-Settled db m

    apply_locked-Settled :
        Triple
          (λ db. Unit {0} × (find (has_id e.program_id) db.programs ≡ some p))
          (apply_locked hash now e c p)
          Settled
    unfolding apply_locked
    apply_locked-Settled = record {
      run = λ db k. split_ensures (not (text_eq p.currency e.currency)) (ends tt) λ same.
          on_version-Settled db
            (find (has_version e.program_id MessageKind.event e.version) db.processed) refl
            (p, k.1, ground arith);
    }

  pub locked-Settled :
      (c : StreamCoordinates)
      → Triple (λ _. Unit) (with_program_lock e.program_id (apply_locked hash now e c)) Settled
  unfolding find_program
  locked-Settled c = lock_triple _ _ λ p. apply_locked-Settled c p

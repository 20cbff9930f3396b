-- ===== src/Service/Fingerprints.antt =====
-- The fingerprints of src/capacity/application/idempotency.service.ts.
use invoice_reservation.Prelude.{◌≡◌, refl, sym, ap, ◌∙◌, [], ◌∷◌, ◌++◌}
use invoice_reservation.Prelude.Text.{Text}
use invoice_reservation.Service.Idempotency.{cancel_fingerprint}

++-assoc : (a b c : Text) → (a ++ b) ++ c ≡ a ++ (b ++ c)
++-assoc [] b c = refl
++-assoc (x ∷ a) b c = ap (λ t. x ∷ t) (++-assoc a b c)

-- Whatever the hash: the fields of a cancellation are joined by bars that an invoice id and a note
-- may hold themselves, so two requests that share the text `x` between the two fields, for two
-- different invoices, have the same fingerprint.
pub cancel_fingerprint-collides :
    (sha256 : Text → Text) (program invoice reason x note : Text)
    → cancel_fingerprint sha256 program invoice reason (x ++ (b'|' ∷ (reason ++ (b'|' ∷ note))))
      ≡ cancel_fingerprint sha256 program (invoice ++ (b'|' ∷ (reason ++ (b'|' ∷ x)))) reason note
unfolding cancel_fingerprint
cancel_fingerprint-collides sha256 program invoice reason x note =
    let rest : Text = b'|' ∷ (reason ++ (b'|' ∷ note)) in
    ap (λ t. sha256 (program ++ (b'|' ∷ t)))
      (sym (
        ++-assoc invoice (b'|' ∷ (reason ++ (b'|' ∷ x))) rest
        ∙ ap (λ t. invoice ++ (b'|' ∷ t)) (++-assoc reason (b'|' ∷ x) rest)))

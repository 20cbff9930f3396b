-- ===== src/Policy/Release/Rounds.antt =====
-- src/capacity/domain/policies/release.policy.ts: partial releases of a converted invoice.
use invoice_reservation.Prelude.{
  ℕ, ◌+◌, ◌-◌, ◌≤◌, ◌<◌, ◌≡◌, ◌≢◌, refl, sym, ap, ◌∙◌, arith, true, false, ◌||◌, ◌==◌,
  if◌then◌else◌,
}
use invoice_reservation.Prelude.Text.{Text, text_eq, text_eq_iff, text_eq_refl}
use invoice_reservation.Prelude.Int.{ℤ, pos, negsuc, ◌-ℤ◌, ◌+ℤ◌, ◌==ℤ◌, ◌≤ℤ◌}
use invoice_reservation.Prelude.Result.{Result, ok, err}
use invoice_reservation.Errors.{RefusalCode, amount_rounds_to_zero}
use invoice_reservation.Money.{is_currency_code}
use invoice_reservation.Money.Conversion.{
  worth, worth-zero, worth_mono, convert_lem, money_lem, outcome_of,
}
use invoice_reservation.Policy.Release.{
  partially_released, fully_released, ReservationSnapshot, ReleaseInput, ReleaseDecision, conclude,
  settle, release_policy, is_terminal, converted_minor,
}

-- A reservation whose reserved capacity is the worth of `i` minor units of invoice, at the rate `k`.
pub record IsConsistent (i k : ℕ) (r : ReservationSnapshot) : Type 0 where
  pub invoice : r.outstanding_invoice_minor ≡ pos i
  pub reserved : r.outstanding_reserved_minor ≡ pos (worth i k)
  pub invoice_code : is_currency_code r.invoice_currency ≡ true
  pub program_code : is_currency_code r.program_currency ≡ true

abbrev pub input_of : ReservationSnapshot → ℕ → ℕ → ReleaseInput
input_of r a k = record {
  release_minor = pos a;
  release_currency = r.invoice_currency;
  reservation = r;
  scaled_rate = pos k;
}

-- The reservation as the service writes it after an accepted release.
abbrev pub after : ReservationSnapshot → ReleaseDecision → ReservationSnapshot
after r d = record r {
  outstanding_invoice_minor = d.outstanding_invoice_minor;
  outstanding_reserved_minor = d.outstanding_reserved_minor;
  status = d.status;
}

-- What the policy answers for a release of `a` out of `i` minor units.
abbrev pub answer : ℕ → ℕ → ℕ → Result ReleaseDecision RefusalCode
answer i k a =
    if worth a k == 0 || (worth i k == worth (i - a) k)
    then err amount_rounds_to_zero
    else ok (record {
      delta_minor = pos (worth i k - worth (i - a) k);
      outstanding_invoice_minor = if worth (i - a) k == 0 then pos 0 else pos (i - a);
      outstanding_reserved_minor = pos (worth (i - a) k);
      status = if worth (i - a) k == 0 then fully_released else partially_released;
    })

worth-nonzero : (i k : ℕ) → worth i k ≢ 0 → i ≢ 0
worth-nonzero i k h e = h (rw e (worth-zero k))

pub conclude_lem :
    (i k a : ℕ)
    → a ≤ i
    → worth a k ≢ 0
    → conclude (pos (i - a)) (pos (worth i k)) (pos (worth (i - a) k)) ≡ answer i k a
unfolding conclude ◌-ℤ◌
conclude_lem i k a h nz = ground (arith, worth_mono (i - a) i k, worth-nonzero (i - a) k)

converted_minor-outcome_of :
    (a k : ℕ) (c : Text) → converted_minor (outcome_of a k c) ≡ pos (worth a k)
converted_minor-outcome_of a k c = ground (arith, worth-zero k)

+ℤ-pos : (a b : ℕ) → pos a +ℤ pos b ≡ pos (a + b)
unfolding ◌+ℤ◌
+ℤ-pos a b = ground arith

sub_self : (i : ℕ) → i - i ≡ 0
sub_self i = omega arith

sub-pos : (i a : ℕ) → a ≤ i → pos i -ℤ pos a ≡ pos (i - a)
unfolding ◌-ℤ◌
sub-pos i a h = ground arith

settle_lem :
    (r : ReservationSnapshot) (i k a : ℕ)
    → IsConsistent i k r
    → a ≤ i
    → worth a k ≢ 0
    → settle (input_of r a k) ≡ ok (answer i k a)
unfolding settle
settle_lem r i k a v h nz = rw (
  v.invoice,
  v.reserved,
  sub-pos i a h,
  money_lem (pos (i - a)) r.program_currency v.program_code,
  convert_lem (i - a) k r.program_currency r.program_currency v.program_code,
  converted_minor-outcome_of (i - a) k r.program_currency,
  conclude_lem i k a h nz,
)

-- The guards of the policy, for a release in the invoice's own currency.
release_policy-open :
    (r : ReservationSnapshot) (i k a : ℕ)
    → IsConsistent i k r
    → is_terminal r.status ≡ false
    → 0 < a
    → a ≤ i
    → release_policy (input_of r a k) ≡ ok (answer i k a)
unfolding release_policy
release_policy-open r i k a v live pa h =
    rw
      (
        v.invoice,
        text_eq_refl r.invoice_currency,
        live,
        money_lem (pos a) r.invoice_currency v.invoice_code,
        convert_lem a k r.invoice_currency r.program_currency v.program_code,
      )
      (ground (arith, settle_lem r i k a v h))

-- What is left of the invoice: dust that is worth nothing is settled with it.
abbrev pub rest : ℕ → ℕ → ℕ → ℕ
rest i k a = if worth (i - a) k == 0 then 0 else i - a

worth-rest : (i k a : ℕ) → worth (rest i k a) k ≡ worth (i - a) k
worth-rest i k a = ground (arith, worth-zero k)

answer_facts :
    (i k a : ℕ) (d : ReleaseDecision)
    → a ≤ i
    → answer i k a ≡ ok d
    → (d.outstanding_invoice_minor ≡ pos (rest i k a))
      × (d.outstanding_reserved_minor ≡ pos (worth (i - a) k))
      × (d.delta_minor ≡ pos (worth i k - worth (i - a) k))
      × (worth (i - a) k < worth i k)
      × (d.status
          ≡ (if d.outstanding_reserved_minor ==ℤ pos 0 then fully_released else partially_released))
answer_facts i k a d h e = ground (arith, worth_mono (i - a) i k)

-- What an accepted release has passed.
release_policy_guards :
    (x : ReleaseInput) (d : ReleaseDecision)
    → release_policy x ≡ ok (ok d)
    → (pos 1 ≤ℤ x.release_minor)
      × (text_eq x.release_currency x.reservation.invoice_currency ≡ true)
      × (is_terminal x.reservation.status ≡ false)
      × (x.release_minor ≤ℤ x.reservation.outstanding_invoice_minor)
unfolding release_policy
release_policy_guards x d e = ground arith

-- What an accepted release leaves behind.
pub record Releases (k : ℕ) (r : ReservationSnapshot) (d : ReleaseDecision) : Type 0 where
  pub left : ℕ
  pub consistent : IsConsistent left k (after r d)
  pub conserved : d.delta_minor +ℤ d.outstanding_reserved_minor ≡ r.outstanding_reserved_minor
  pub moved : pos 1 ≤ℤ d.delta_minor
  pub closed :
      d.status
      ≡ (if d.outstanding_reserved_minor ==ℤ pos 0 then fully_released else partially_released)

release_policy-natural :
    (x : ReleaseInput) (k a : ℕ)
    → x.release_minor ≡ pos a
    → x.scaled_rate ≡ pos k
    → text_eq x.release_currency x.reservation.invoice_currency ≡ true
    → release_policy x ≡ release_policy (input_of x.reservation a k)
release_policy-natural x k a ea ek ec = ap release_policy (λ j. record {
  release_minor = ea j;
  release_currency = (text_eq_iff x.release_currency x.reservation.invoice_currency).0 ec j;
  reservation = x.reservation;
  scaled_rate = ek j;
})

release-Releases :
    (x : ReleaseInput) (i k a : ℕ) (d : ReleaseDecision)
    → IsConsistent i k x.reservation
    → x.scaled_rate ≡ pos k
    → x.release_minor ≡ pos a
    → release_policy x ≡ ok (ok d)
    → Releases k x.reservation d
release-Releases x i k a d v ek ea e =
    let r = x.reservation in
    let g = release_policy_guards x d e in
    let le : a ≤ i = ground (arith, g.3, v.invoice) in
    let pa : 0 < a = ground (arith, g.0) in
    let e' : answer i k a ≡ ok d =
      cc (e, release_policy-natural x k a ea ek g.1, release_policy-open r i k a v g.2 pa le) in
    let f = answer_facts i k a d le e' in
    record {
      left = rest i k a;
      consistent = record {
        invoice = f.0;
        reserved = f.1 ∙ ap pos (sym (worth-rest i k a));
        invoice_code = v.invoice_code;
        program_code = v.program_code;
      };
      conserved =
          rw (f.1, f.2, v.reserved)
            (ground (arith, f.3, +ℤ-pos (worth i k - worth (i - a) k) (worth (i - a) k)));
      moved = rw f.2 (omega (arith, f.3));
      closed = f.4;
    }

pos_of_le : (z : ℤ) → pos 1 ≤ℤ z → (n : ℕ) × (z ≡ pos n)
pos_of_le (pos n) h = (n, refl)
pos_of_le (negsuc n) h = absurd (omega arith)

-- An accepted release of a consistent reservation at its own rate, whatever the amount: the capacity returned and
-- the capacity still reserved add up to what was reserved, at least one unit is returned, the
-- reservation is consistent again at the same rate, and it is closed exactly when nothing is
-- reserved any more.
pub release_policy-Releases :
    (x : ReleaseInput) (i k : ℕ) (d : ReleaseDecision)
    → IsConsistent i k x.reservation
    → x.scaled_rate ≡ pos k
    → release_policy x ≡ ok (ok d)
    → Releases k x.reservation d
release_policy-Releases x i k d v ek e =
    let n = pos_of_le x.release_minor (release_policy_guards x d e).0 in
    release-Releases x i k n.0 d v ek n.1 e

-- All that is outstanding on a consistent reservation that is open and worth something can be
-- released at once: all its capacity is returned, and it is closed.
pub release_all :
    (r : ReservationSnapshot) (i k : ℕ)
    → IsConsistent i k r
    → is_terminal r.status ≡ false
    → worth i k ≢ 0
    → release_policy (input_of r i k)
      ≡ ok (
          ok (record {
            delta_minor = r.outstanding_reserved_minor;
            outstanding_invoice_minor = pos 0;
            outstanding_reserved_minor = pos 0;
            status = fully_released;
          }))
release_all r i k v live nz =
    rw (release_policy-open r i k i v live (ground (arith, worth-nonzero i k)) (omega arith))
      (ground (arith, worth-zero k, v.reserved, sub_self i))

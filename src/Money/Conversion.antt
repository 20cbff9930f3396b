-- ===== src/Money/Conversion.antt =====
-- `convert` of src/shared/money/convert.ts on amounts and rates that are not negative.
use invoice_reservation.Prelude.{ℕ, ◌*◌, ◌≤◌, ◌≡◌, arith, true, ◌&&◌, not, ◌==◌, if◌then◌else◌}
use invoice_reservation.Prelude.Text.{Text}
use invoice_reservation.Prelude.Int.{ℤ, pos, ◌*ℤ◌}
use invoice_reservation.Prelude.Result.{ok}
use invoice_reservation.Money.{
  money, convert, converted, rounds_to_zero, round_half_up, rate_scale, is_currency_code,
  ConversionOutcome,
}
use invoice_reservation.Money.Rounding.{nearest, nearest_mono, round_half_up_lem, nearest-mul}

-- What an amount is worth at a rate, to the nearest minor unit.
unfoldable pub worth : ℕ → ℕ → ℕ
worth amount rate = nearest (amount * rate) rate_scale

pub worth-zero : (rate : ℕ) → worth 0 rate ≡ 0
unfolding worth
worth-zero rate = omega arith

pub worth_mono : (a b rate : ℕ) → a ≤ b → worth a rate ≤ worth b rate
unfolding worth
worth_mono a b rate h = nearest_mono (a * rate) (b * rate) rate_scale (omega arith) (grind arith)

-- At the rate 1.0 an amount is worth itself.
pub worth_one : (a : ℕ) → worth a rate_scale ≡ a
unfolding worth
worth_one a = nearest-mul a rate_scale (omega arith)

pub *ℤ-pos : (a b : ℕ) → pos a *ℤ pos b ≡ pos (a * b)
unfolding ◌*ℤ◌
*ℤ-pos a b = ground arith

round_worth : (a k : ℕ) → round_half_up (pos a *ℤ pos k) (pos rate_scale) ≡ ok (pos (worth a k))
unfolding worth
round_worth a k = rw *ℤ-pos (round_half_up_lem (pos (a * k)) rate_scale (omega arith))

pub money_lem :
    (x : ℤ) (c : Text)
    → is_currency_code c ≡ true
    → money x c ≡ ok (record { minor = x; currency = c })
unfolding money
money_lem x c h = rw h

abbrev pub outcome_of : ℕ → ℕ → Text → ConversionOutcome
outcome_of a k c =
    if worth a k == 0 && not (a == 0)
    then rounds_to_zero
    else converted (record { minor = pos (worth a k); currency = c })

-- For an amount and a rate that are not negative and a target that is a currency code, a non-zero
-- amount whose worth is zero rounds to zero; any other is converted to its worth.
pub convert_lem :
    (a k : ℕ) (from c : Text)
    → is_currency_code c ≡ true
    → convert (record { minor = pos a; currency = from }) c (pos k) ≡ ok (outcome_of a k c)
unfolding convert
convert_lem a k from c h = rw (round_worth a k, money_lem (pos (worth a k)) c h) (ground arith)

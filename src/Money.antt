-- ===== src/Money.antt =====
-- src/shared/money: amounts in minor units, exchange rates scaled to integers, conversion.
pub mod Rounding
pub mod Conversion
pub mod Decimal
use invoice_reservation.Prelude.{
  ℕ, suc, ◌+◌, ◌-◌, ◌*◌, ◌^◌, Bool, true, false, not, ◌&&◌, Option, none, some, List, [], ◌∷◌, ◌++◌,
  ltb, leb, ◌==◌, if◌then◌else◌, length, or_else,
}
use invoice_reservation.Prelude.Text.{Text, codes, text_eq}
use invoice_reservation.Prelude.Int.{
  ℤ, pos, negsuc, ◌+ℤ◌, ◌-ℤ◌, ◌*ℤ◌, neg_ℤ, ltb_ℤ, leb_ℤ, ◌==ℤ◌, div_trunc, rem_trunc,
}
use invoice_reservation.Prelude.Result.{Result, ok, err, ◌>>=◌, ◌>>◌, throw_if}

-- What the module throws: `TypeError` with its messages, and `CurrencyMismatchError`.
pub data MoneyError : Type 0 where
  invalid_currency invalid_rate zero_rate denominator_not_positive currency_mismatch : MoneyError
  invalid_decimal too_many_fraction_digits too_many_digits : MoneyError

pub record Money : Type 0 where
  pub minor : ℤ
  pub currency : Text

is_upper : ℕ → Bool
is_upper c = leb b'A' c && leb c b'Z'

-- /^[A-Z]{3}$/
unfoldable pub is_currency_code : Text → Bool
unfolding is_upper
is_currency_code (a ∷ b ∷ c ∷ []) = is_upper a && is_upper b && is_upper c
is_currency_code _ = false

-- `currency`
pub parse_currency : Text → Result Text MoneyError
unfolding is_currency_code
parse_currency code = if is_currency_code code then ok code else err invalid_currency

-- A `bigint` is no `number`, so the first test of `money` never fires here.
unfoldable pub money : ℤ → Text → Result Money MoneyError
unfolding parse_currency
money minor code = do c ← parse_currency code; ok (record { minor = minor; currency = c })

assert_same_currency : Money → Money → Result (Unit {0}) MoneyError
assert_same_currency a b = throw_if (not (text_eq a.currency b.currency)) currency_mismatch

pub add : Money → Money → Result Money MoneyError
unfolding assert_same_currency
add a b = do
  assert_same_currency a b
  ok (record { minor = a.minor +ℤ b.minor; currency = a.currency })

pub subtract : Money → Money → Result Money MoneyError
unfolding assert_same_currency
subtract a b = do
  assert_same_currency a b
  ok (record { minor = a.minor -ℤ b.minor; currency = a.currency })

pub negate : Money → Money
negate a = record { minor = neg_ℤ a.minor; currency = a.currency }

pub is_zero : Money → Bool
is_zero a = a.minor ==ℤ pos 0

-- `compare`, which returns -1, 0 or 1.
pub compare_money : Money → Money → Result ℤ MoneyError
unfolding assert_same_currency
compare_money a b = do
  assert_same_currency a b
  ok (if ltb_ℤ a.minor b.minor then negsuc 0 else if ltb_ℤ b.minor a.minor then pos 1 else pos 0)

-- RATE_SCALE, 10n ** 10n.
abbrev pub rate_scale : ℕ
rate_scale = 10 ^ 10

pub is_digit : ℕ → Bool
is_digit c = leb b'0' c && leb c b'9'

pub all_digits : Text → Bool
unfolding is_digit
all_digits [] = true
all_digits (c ∷ s) = is_digit c && all_digits s

-- /^\d{1,n}$/
pub digits_upto : ℕ → Text → Bool
unfolding all_digits
digits_upto n s = ltb 0 (length s) && leb (length s) n && all_digits s

-- The text before the first `.`, and the text after it if there is one.
pub split_dot : Text → Text × Option Text
split_dot [] = ([], none)
split_dot (c ∷ s) =
    let (int_part, frac_part) = split_dot s in
    if c == b'.' then ([], some s) else (c ∷ int_part, frac_part)

-- /^\d{1,10}(\.\d{1,10})?$/, on the parts of the text.
is_rate : Text × Option Text → Bool
unfolding digits_upto
is_rate (int_part, none) = digits_upto 10 int_part
is_rate (int_part, some frac_part) = digits_upto 10 int_part && digits_upto 10 frac_part

-- `padEnd(n, '0')`
pub pad_end : ℕ → Text → Text
pad_end ℕ.zero s = s
pad_end (suc n) [] = b'0' ∷ pad_end n []
pad_end (suc n) (c ∷ s) = c ∷ pad_end n s

-- `BigInt` of a text of digits.
unfoldable pub number_from : ℕ → Text → ℕ
number_from acc [] = acc
number_from acc (c ∷ s) = number_from (acc * 10 + (c - b'0')) s

unfoldable pub scale_rate : Text → Result ℤ MoneyError
unfolding split_dot is_rate pad_end number_from
scale_rate rate = do
  let (int_part, frac_part) = split_dot rate
  throw_if (not (is_rate (int_part, frac_part))) invalid_rate
  let scaled = number_from 0 (int_part ++ pad_end 10 (or_else frac_part []))
  throw_if (scaled == 0) zero_rate
  ok (pos scaled)

-- The second half of `roundHalfUp`, from the quotient and the remainder.
adjust : ℤ → ℤ → ℤ → ℤ → ℤ
adjust numerator denominator quotient remainder =
    let abs_remainder = if ltb_ℤ remainder (pos 0) then neg_ℤ remainder else remainder in
    if leb_ℤ denominator (pos 2 *ℤ abs_remainder)
    then if ltb_ℤ numerator (pos 0) then quotient -ℤ pos 1 else quotient +ℤ pos 1
    else quotient

unfoldable pub round_half_up : ℤ → ℤ → Result ℤ MoneyError
unfolding adjust
round_half_up numerator denominator = do
  throw_if (leb_ℤ denominator (pos 0)) denominator_not_positive
  ok (
      adjust numerator denominator (div_trunc numerator denominator)
        (rem_trunc numerator denominator))

pub data ConversionOutcome : Type 0 where
  converted : Money → ConversionOutcome
  rounds_to_zero : ConversionOutcome

unfoldable pub convert : Money → Text → ℤ → Result ConversionOutcome MoneyError
convert amount target_currency scaled_rate = do
  result ← round_half_up (amount.minor *ℤ scaled_rate) (pos rate_scale)
  if result ==ℤ pos 0 && not (amount.minor ==ℤ pos 0)
      then ok rounds_to_zero
      else do m ← money result target_currency; ok (converted m)

zero_decimal : List Text
zero_decimal =
    codes "JPY"
    ∷ codes "KRW"
    ∷ codes "VND"
    ∷ codes "CLP"
    ∷ codes "ISK"
    ∷ codes "XOF"
    ∷ codes "XAF"
    ∷ codes "XPF"
    ∷ []

three_decimal : List Text
three_decimal =
    codes "BHD"
    ∷ codes "IQD"
    ∷ codes "JOD"
    ∷ codes "KWD"
    ∷ codes "LYD"
    ∷ codes "OMR"
    ∷ codes "TND"
    ∷ []

-- `has` of a set of codes.
unfoldable pub has : List Text → Text → Bool
has [] code = false
has (c ∷ cs) code = if text_eq c code then true else has cs code

pub minor_unit_digits : Text → ℕ
unfolding zero_decimal three_decimal has
minor_unit_digits code =
    if has zero_decimal code then 0 else if has three_decimal code then 3 else 2

-- ===== src/Money/Decimal.antt =====
-- src/shared/money/money.ts: `toDecimalString` and `fromDecimalString`.
pub mod Digits
pub mod RoundTrip
use invoice_reservation.Prelude.{
  ℕ, zero, suc, ◌+◌, ◌-◌, Bool, true, false, not, ◌&&◌, Option, none, some, List, [], ◌∷◌, ◌++◌,
  if◌then◌else◌, ltb, ◌==◌, length, take, drop, or_else,
}
use invoice_reservation.Prelude.Text.{Text}
use invoice_reservation.Prelude.Decimal.{show_ℕ}
use invoice_reservation.Prelude.Int.{ℤ, pos, minus, magnitude, ltb_ℤ}
use invoice_reservation.Prelude.Result.{Result, ok, err, ◌>>=◌, ◌>>◌, throw_if}
use invoice_reservation.Money.{
  Money, MoneyError, money, digits_upto, all_digits, split_dot, pad_end, number_from,
  invalid_decimal, too_many_fraction_digits, too_many_digits,
}

abbrev pub zeros : ℕ → Text
zeros zero = []
zeros (suc n) = b'0' ∷ zeros n

-- `padStart(width, '0')`
abbrev pub pad_start : ℕ → Text → Text
pad_start width t = zeros (width - length t) ++ t

-- The amount without its sign, with `n` digits after the point.
unfoldable pub render : ℕ → ℕ → Text
unfolding show_ℕ
render abs n =
    if n == 0
    then show_ℕ abs
    else let padded = pad_start (suc n) (show_ℕ abs) in
      let cut = length padded - n in take cut padded ++ b'.' ∷ drop cut padded

unfoldable pub to_decimal_string : Money → ℕ → Text
unfolding render
to_decimal_string a n =
    if ltb_ℤ a.minor (pos 0)
    then b'-' ∷ render (magnitude a.minor) n
    else render (magnitude a.minor) n

-- Whether the text starts with a minus sign, and the text without it.
abbrev pub strip_minus : Text → Bool × Text
strip_minus [] = (false, [])
strip_minus (c ∷ t) = if c == b'-' then (true, t) else (false, c ∷ t)

-- `replace(/^0+/, '')`
abbrev pub strip_zeros : Text → Text
strip_zeros [] = []
strip_zeros (c ∷ t) = if c == b'0' then strip_zeros t else c ∷ t

-- `\d{1,19}(\.\d+)?`, on the parts of the text.
abbrev pub is_decimal : Text × Option Text → Bool
is_decimal (int_part, none) = digits_upto 19 int_part
is_decimal (int_part, some frac_part) =
    digits_upto 19 int_part && ltb 0 (length frac_part) && all_digits frac_part

-- The tests on the parts, and the number that they spell.
unfoldable pub parse_parts : Text × Option Text → ℕ → Result ℕ MoneyError
unfolding digits_upto all_digits
parse_parts (int_part, frac) n = do
  let frac_part = or_else frac []
  throw_if (not (is_decimal (int_part, frac))) invalid_decimal
  throw_if (ltb n (length frac_part)) too_many_fraction_digits
  throw_if (ltb 19 (length (strip_zeros int_part) + length frac_part)) too_many_digits
  ok (number_from 0 (int_part ++ pad_end n frac_part))

unfoldable pub from_decimal_string : Text → Text → ℕ → Result Money MoneyError
unfolding split_dot
from_decimal_string value code n = do
  let (negative, unsigned) = strip_minus value
  abs ← parse_parts (split_dot unsigned) n
  money (if negative then minus abs else pos abs) code

-- ===== src/Money/Decimal/RoundTrip.antt =====
-- src/shared/money/money.ts: what `toDecimalString` prints and `fromDecimalString` reads.
use mathlib.Core.Path.{subst}
use invoice_reservation.Prelude.{
  take-append-drop, length-take_le, length-drop, ◌≡◌, refl, sym, ap, ◌∙◌, ℕ, zero, suc, ◌+◌, ◌-◌,
  ◌^◌, ◌<◌, ◌≤◌, Bool, true, false, none, some, [], ◌∷◌, ◌++◌, if◌then◌else◌, ltb, ◌==◌, length,
  take, drop, arith,
}
use invoice_reservation.Prelude.Text.{Text}
use invoice_reservation.Prelude.Decimal.{show_ℕ}
use invoice_reservation.Prelude.Int.{ℤ, pos, negsuc, minus, magnitude, ltb_ℤ}
use invoice_reservation.Prelude.Result.{Result, ok, ◌>>=◌}
use invoice_reservation.Money.{
  Money, MoneyError, money, is_currency_code, digits_upto, all_digits, split_dot, pad_end,
  number_from,
}
use invoice_reservation.Money.Conversion.{money_lem}
use invoice_reservation.Money.Decimal.{
  pad_start, render, to_decimal_string, strip_minus, strip_zeros, is_decimal, parse_parts,
  from_decimal_string,
}
use invoice_reservation.Money.Decimal.Digits.{
  length-pad_start, length-pad_start_le, all_digits-append, split_dot-digits, split_dot-point,
  strip_minus-digits, pad_end_full, length-strip_zeros, number_from-padded, all_digits-padded,
  length-show_ℕ, number_from-show_ℕ, all_digits-show_ℕ,
}

parse_parts-point :
    (whole frac : Text) (n : ℕ)
    → all_digits whole ≡ true
    → all_digits frac ≡ true
    → 0 < length whole
    → 0 < n
    → length frac ≡ n
    → length whole + n ≤ 19
    → parse_parts (whole, some frac) n ≡ ok (number_from 0 (whole ++ frac))
unfolding parse_parts digits_upto
parse_parts-point whole frac n dw df lw ln lf fits =
    let shape : is_decimal (whole, some frac) ≡ true = ground arith in
    let enough : ltb n (length frac) ≡ false = ground arith in
    let digits : ltb 19 (length (strip_zeros whole) + length frac) ≡ false =
      ground (arith, length-strip_zeros whole) in
    rw (shape, enough, digits, pad_end_full n frac lf) refl

parse_parts-whole :
    (whole : Text)
    → all_digits whole ≡ true
    → 0 < length whole
    → length whole ≤ 19
    → parse_parts (whole, none) 0 ≡ ok (number_from 0 (whole ++ []))
unfolding parse_parts digits_upto pad_end
parse_parts-whole whole dw lw fits =
    let shape : is_decimal (whole, none) ≡ true = ground arith in
    let digits : ltb 19 (length (strip_zeros whole) + 0) ≡ false =
      ground (arith, length-strip_zeros whole) in
    rw (shape, digits) refl

-- The text has no sign, and its parts are read as `abs`.
abbrev Reads : Text → ℕ → ℕ → Type 0
Reads t abs n = (strip_minus t ≡ (false, t)) × (parse_parts (split_dot t) n ≡ ok abs)

point-Reads :
    (padded : Text) (abs n : ℕ)
    → all_digits padded ≡ true
    → number_from 0 padded ≡ abs
    → n < length padded
    → length padded ≤ 19
    → 0 < n
    → let cut = length padded - n in Reads (take cut padded ++ b'.' ∷ drop cut padded) abs n
point-Reads padded abs n digits value longer fits some_digits =
    let cut = length padded - n in
    let whole = take cut padded in
    let frac = drop cut padded in
    let both = take-append-drop cut padded in
    let (dw, df) = all_digits-append whole frac (ap all_digits both ∙ digits) in
    let lw : length whole ≡ cut = length-take_le cut padded (omega arith) in
    let lf : length frac ≡ n = length-drop cut padded ∙ omega arith in
    (
      strip_minus-digits whole (b'.' ∷ frac) dw (omega (arith, lw)),
      ap (λ q. parse_parts q n) (split_dot-point whole frac dw)
          ∙ parse_parts-point whole frac n dw df (omega (arith, lw)) some_digits lf
              (omega (arith, lw))
          ∙ ap ok (ap (number_from 0) both ∙ value),
    )

append_nil : (t : Text) → t ++ [] ≡ t
append_nil [] = refl
append_nil (c ∷ t) = ap (λ u. c ∷ u) (append_nil t)

whole-Reads :
    (t : Text) (abs : ℕ)
    → all_digits t ≡ true
    → number_from 0 t ≡ abs
    → 0 < length t
    → length t ≤ 19
    → Reads t abs 0
whole-Reads t abs digits value some_digits fits = (
  subst (λ u. strip_minus u ≡ (false, u)) (append_nil t)
      (strip_minus-digits t [] digits some_digits),
  ap (λ q. parse_parts q 0) (split_dot-digits t digits)
      ∙ parse_parts-whole t digits some_digits fits
      ∙ ap ok (ap (number_from 0) (append_nil t) ∙ value),
)

render-Reads : (abs n : ℕ) → abs < 10 ^ 19 → n ≤ 18 → Reads (render abs n) abs n
unfolding render
render-Reads abs zero small few =
    let (some_digits, fits) = length-show_ℕ abs small in
    whole-Reads (show_ℕ abs) abs (all_digits-show_ℕ abs) (number_from-show_ℕ abs) some_digits fits
render-Reads abs (suc n) small few =
    let w = suc (suc n) in
    let padded = pad_start w (show_ℕ abs) in
    let cut = length padded - suc n in
    let test : (suc n == 0) ≡ false = ground arith in
    subst (λ t. Reads t abs (suc n))
      (ap (λ b. if b then show_ℕ abs else take cut padded ++ b'.' ∷ drop cut padded) (sym test))
      (point-Reads padded abs (suc n) (all_digits-padded w abs) (number_from-padded w abs)
        (length-pad_start w (show_ℕ abs))
        (length-pad_start_le w 19 (show_ℕ abs) (omega arith) (length-show_ℕ abs small).1)
        (omega arith))

-- What follows the test of the sign.
abbrev finish : Text → ℕ → Bool × Text → Result Money MoneyError
finish code n q =
    parse_parts (split_dot q.1) n >>= λ abs. money (if q.0 then minus abs else pos abs) code

from_decimal_string_lem :
    (value code : Text) (n : ℕ)
    → from_decimal_string value code n ≡ finish code n (strip_minus value)
unfolding from_decimal_string
from_decimal_string_lem value code n = refl

finish-read :
    (code t : Text) (n abs : ℕ) (negative : Bool)
    → is_currency_code code ≡ true
    → parse_parts (split_dot t) n ≡ ok abs
    → finish code n (negative, t)
      ≡ ok (record { minor = if negative then minus abs else pos abs; currency = code })
finish-read code t n abs negative valid read =
    ap (λ r. r >>= λ x. money (if negative then minus x else pos x) code) read
    ∙ money_lem (if negative then minus abs else pos abs) code valid

-- An amount of at most 19 digits, in a currency of at most 18 decimals, is read back from its print.
pub from_decimal_string-to_decimal_string :
    (minor : ℤ) (code : Text) (n : ℕ)
    → is_currency_code code ≡ true
    → magnitude minor < 10 ^ 19
    → n ≤ 18
    → let a : Money = record { minor = minor; currency = code } in
      from_decimal_string (to_decimal_string a n) code n ≡ ok a
unfolding to_decimal_string
from_decimal_string-to_decimal_string (pos m) code n valid small few =
    let (unsigned, read) = render-Reads m n small few in
    let test : ltb_ℤ (pos m) (pos 0) ≡ false = ground arith in
    ap (λ b. from_decimal_string (if b then b'-' ∷ render m n else render m n) code n) test
    ∙ from_decimal_string_lem (render m n) code n
    ∙ ap (finish code n) unsigned
    ∙ finish-read code (render m n) n m false valid read
from_decimal_string-to_decimal_string (negsuc m) code n valid small few =
    let (unsigned, read) = render-Reads (suc m) n small few in
    let test : ltb_ℤ (negsuc m) (pos 0) ≡ true = ground arith in
    ap (λ b. from_decimal_string (if b then b'-' ∷ render (suc m) n else render (suc m) n) code n)
      test
    ∙ from_decimal_string_lem (b'-' ∷ render (suc m) n) code n
    ∙ finish-read code (render (suc m) n) n (suc m) true valid read

-- ===== src/Api/Dto.antt =====
-- src/capacity/api/dto/money.dto.ts and create-reservation.dto.ts: the amounts of a request.
use invoice_reservation.Prelude.{
  ◌≡◌, refl, sym, ap, ◌∙◌, ℕ, ◌+◌, ◌*◌, ◌-◌, ◌≤◌, ◌<◌, Bool, true, false, ◌&&◌, [], ◌∷◌, leb, ◌==◌,
  length, arith,
}
use invoice_reservation.Prelude.Text.{Text}
use invoice_reservation.Prelude.Int.{ℤ, pos, ◌<ℤ◌}
use invoice_reservation.Prelude.Result.{ok}
use invoice_reservation.Money.{number_from}
use invoice_reservation.Money.Decimal.{strip_minus}
use invoice_reservation.Store.{in_int64}
use invoice_reservation.Stream.Json.{all, is_digit}
use invoice_reservation.Api.Controller.{number_of, minor_of_text, is_number_text, signed}

abbrev unsigned : Bool × Text → Text
unsigned (negative, t) = t

-- `/^-?[0-9]{1,19}$/`
abbrev pub is_integer_text : Text → Bool
is_integer_text t =
    let digits = unsigned (strip_minus t) in
    leb 1 (length digits) && leb (length digits) 19 && all is_digit digits

-- `FitsInt64.validate` of a text.
abbrev pub fits_int64 : Text → Bool
fits_int64 t = is_integer_text t && in_int64 (signed (strip_minus t))

abbrev is_leading_digit : ℕ → Bool
is_leading_digit c = leb b'1' c && leb c b'9'

-- `/^[1-9][0-9]{0,18}$/`
abbrev pub is_positive_text : Text → Bool
is_positive_text [] = false
is_positive_text (c ∷ t) = is_leading_digit c && leb (length t) 18 && all is_digit t

number_from_grows : (n : ℕ) (t : Text) → n ≤ number_from n t
unfolding number_from
number_from_grows n [] = omega arith
number_from_grows n (c ∷ t) = omega (arith, number_from_grows (n * 10 + (c - b'0')) t)

positive_number : (c : ℕ) (t : Text) → is_leading_digit c ≡ true → 0 < number_from 0 (c ∷ t)
unfolding number_from
positive_number c t h =
    let low : 1 ≤ c - b'0' = ground arith in
    omega (arith, number_from_grows (0 * 10 + (c - b'0')) t)

-- A text that the DTO admits as a positive amount becomes a positive amount that a BIGINT column holds.
pub minor_of_text-in_int64 :
    (t : Text)
    → is_positive_text t ≡ true
    → fits_int64 t ≡ true
    → (n : ℤ) × (minor_of_text t ≡ ok n) × (pos 0 <ℤ n) × (in_int64 n ≡ true)
minor_of_text-in_int64 [] h k = absurd cc
minor_of_text-in_int64 (c ∷ t) h k =
    let leading : is_leading_digit c ≡ true = ground arith in
    let plain : (c == b'-') ≡ false = ground arith in
    let stripped : strip_minus (c ∷ t) ≡ (false, c ∷ t) = rw plain refl in
    let digits : all is_digit (c ∷ t) ≡ true = ground arith in
    let fits : in_int64 (signed (strip_minus (c ∷ t))) ≡ true =
      and_right (is_integer_text (c ∷ t)) _ k in
    (
      pos (number_from 0 (c ∷ t)),
      ap number_of stripped ∙ digits_number (c ∷ t) digits,
      omega (arith, positive_number c t leading),
      sym (ap (λ p. in_int64 (signed p)) stripped) ∙ fits,
    )
  where
    and_right : (a b : Bool) → (a && b) ≡ true → b ≡ true
    and_right true b h = h
    and_right false b h = absurd cc

    digits_number :
        (u : Text)
        → is_number_text (false, u) ≡ true
        → number_of (false, u) ≡ ok (pos (number_from 0 u))
    digits_number u h = rw h refl

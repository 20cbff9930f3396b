-- ===== src/Money/Decimal/Digits.antt =====
-- The digits that src/shared/money/money.ts prints and reads.
use invoice_reservation.Prelude.{
  ◌≡◌, refl, ap, ◌∙◌, ℕ, zero, suc, ◌+◌, ◌-◌, ◌*◌, ◌/◌, ◌%◌, ◌^◌, ◌<◌, ◌≤◌, true, false, none, some,
  [], ◌∷◌, ◌++◌, ltb, ◌==◌, length, length-append, arith, Bool-cases, inl, inr,
}
use invoice_reservation.Prelude.Text.{Text}
use invoice_reservation.Prelude.Decimal.{digits_before, show_ℕ}
use invoice_reservation.Money.{all_digits, is_digit, split_dot, pad_end, number_from}
use invoice_reservation.Money.Decimal.{zeros, pad_start, strip_minus, strip_zeros}

number_from-digits_before :
    (fuel n : ℕ) (acc : Text)
    → n < fuel
    → number_from 0 (digits_before fuel n acc) ≡ number_from n acc
unfolding digits_before number_from
number_from-digits_before zero n acc h = absurd (omega arith)
number_from-digits_before (suc fuel) n acc h = elim (Bool-cases (ltb n 10)) [
  | inl small ↦ rw small (ap (λ m. number_from m acc) (ground arith))
  | inr large ↦
      rw (large, number_from-digits_before fuel (n / 10) ((b'0' + n % 10) ∷ acc) (ground arith))
        (ap (λ m. number_from m acc) (omega arith))
]

all_digits-digits_before :
    (fuel n : ℕ) (acc : Text) → all_digits acc ≡ true → all_digits (digits_before fuel n acc) ≡ true
unfolding digits_before all_digits is_digit
all_digits-digits_before zero n acc h = h
all_digits-digits_before (suc fuel) n acc h = elim (Bool-cases (ltb n 10)) [
  | inl small ↦ rw small (ground arith)
  | inr large ↦ rw large (all_digits-digits_before fuel (n / 10) _ (ground arith))
]

ten_pow : (k : ℕ) → 10 ^ suc k ≡ 10 * 10 ^ k
ten_pow k = omega arith

tenth_lt : (n m : ℕ) → n < 10 * m → n / 10 < m
tenth_lt n m h = omega arith

length-digits_before :
    (fuel n k : ℕ) (acc : Text)
    → n < 10 ^ suc k
    → length (digits_before fuel n acc) ≤ suc k + length acc
unfolding digits_before
length-digits_before zero n k acc h = omega arith
length-digits_before (suc fuel) n zero acc h =
    let small : ltb n 10 ≡ true = ground arith in rw small (omega arith)
length-digits_before (suc fuel) n (suc k) acc h = elim (Bool-cases (ltb n 10)) [
  | inl small ↦ rw small (omega arith)
  | inr large ↦ rw large (
      omega (
        arith,
        length-digits_before fuel (n / 10) k ((b'0' + n % 10) ∷ acc)
            (tenth_lt n (10 ^ suc k) (rw (ten_pow (suc k)) at h)),
      ))
]

positive-digits_before :
    (fuel n : ℕ) (acc : Text) → 0 < fuel + length acc → 0 < length (digits_before fuel n acc)
unfolding digits_before
positive-digits_before zero n acc h = omega arith
positive-digits_before (suc fuel) n acc h = elim (Bool-cases (ltb n 10)) [
  | inl small ↦ rw small (omega arith)
  | inr large ↦ rw large (positive-digits_before fuel (n / 10) _ (omega arith))
]

-- Zeros in front.
number_from-zeros : (k : ℕ) (t : Text) → number_from 0 (zeros k ++ t) ≡ number_from 0 t
unfolding number_from
number_from-zeros zero t = refl
number_from-zeros (suc k) t = number_from-zeros k t

all_digits-zeros : (k : ℕ) (t : Text) → all_digits t ≡ true → all_digits (zeros k ++ t) ≡ true
unfolding all_digits is_digit
all_digits-zeros zero t h = h
all_digits-zeros (suc k) t h = all_digits-zeros k t h

length-zeros : (k : ℕ) → length (zeros k) ≡ k
length-zeros zero = refl
length-zeros (suc k) = ap suc (length-zeros k)

pub length-pad_start : (w : ℕ) (t : Text) → w ≤ length (pad_start w t)
length-pad_start w t =
    omega (arith, length-append (zeros (w - length t)) t, length-zeros (w - length t))

pub length-pad_start_le : (w k : ℕ) (t : Text) → w ≤ k → length t ≤ k → length (pad_start w t) ≤ k
length-pad_start_le w k t h l =
    omega (arith, length-append (zeros (w - length t)) t, length-zeros (w - length t))

pub all_digits-append :
    (s t : Text) → all_digits (s ++ t) ≡ true → (all_digits s ≡ true) × (all_digits t ≡ true)
unfolding all_digits
all_digits-append [] t h = (refl, h)
all_digits-append (c ∷ s) t h = ground (arith, all_digits-append s t)

-- A text of digits has no point and no sign.
pub split_dot-digits : (s : Text) → all_digits s ≡ true → split_dot s ≡ (s, none)
unfolding all_digits is_digit split_dot
split_dot-digits [] h = refl
split_dot-digits (c ∷ s) h =
    let other : (c == b'.') ≡ false = ground arith in
    rw (split_dot-digits s (ground arith), other) refl

pub split_dot-point : (s t : Text) → all_digits s ≡ true → split_dot (s ++ b'.' ∷ t) ≡ (s, some t)
unfolding all_digits is_digit split_dot
split_dot-point [] t h = refl
split_dot-point (c ∷ s) t h =
    let other : (c == b'.') ≡ false = ground arith in
    rw (split_dot-point s t (ground arith), other) refl

pub strip_minus-digits :
    (s t : Text) → all_digits s ≡ true → 0 < length s → strip_minus (s ++ t) ≡ (false, s ++ t)
unfolding all_digits is_digit
strip_minus-digits [] t h l = absurd (omega arith)
strip_minus-digits (c ∷ s) t h l = let other : (c == b'-') ≡ false = ground arith in rw other refl

-- A text of digits alone has no sign.
pub strip_minus-all_digits : (t : Text) → all_digits t ≡ true → strip_minus t ≡ (false, t)
unfolding all_digits is_digit
strip_minus-all_digits [] h = refl
strip_minus-all_digits (c ∷ t) h = let other : (c == b'-') ≡ false = ground arith in rw other refl

pub pad_end_full : (n : ℕ) (t : Text) → length t ≡ n → pad_end n t ≡ t
unfolding pad_end
pad_end_full zero [] h = refl
pad_end_full zero (c ∷ t) h = refl
pad_end_full (suc n) [] h = absurd (omega arith)
pad_end_full (suc n) (c ∷ t) h = ap (λ u. c ∷ u) (pad_end_full n t (omega arith))

pub length-strip_zeros : (t : Text) → length (strip_zeros t) ≤ length t
length-strip_zeros [] = omega arith
length-strip_zeros (c ∷ t) = elim (Bool-cases (c == b'0')) [
  | inl zero_digit ↦ rw zero_digit (omega (arith, length-strip_zeros t))
  | inr other ↦ rw other (omega arith)
]

-- The digits of `n`, padded.
pub number_from-padded : (w n : ℕ) → number_from 0 (pad_start w (show_ℕ n)) ≡ n
unfolding show_ℕ number_from
number_from-padded w n =
    number_from-zeros (w - length (show_ℕ n)) (show_ℕ n)
    ∙ number_from-digits_before (suc n) n [] (omega arith)

pub all_digits-padded : (w n : ℕ) → all_digits (pad_start w (show_ℕ n)) ≡ true
unfolding show_ℕ all_digits
all_digits-padded w n =
    all_digits-zeros (w - length (show_ℕ n)) (show_ℕ n) (all_digits-digits_before (suc n) n [] refl)

pub length-show_ℕ : (n : ℕ) → n < 10 ^ 19 → (0 < length (show_ℕ n)) × (length (show_ℕ n) ≤ 19)
unfolding show_ℕ
length-show_ℕ n h = (
  positive-digits_before (suc n) n [] (omega arith),
  omega (arith, length-digits_before (suc n) n 18 [] h),
)

pub number_from-show_ℕ : (n : ℕ) → number_from 0 (show_ℕ n) ≡ n
unfolding show_ℕ number_from
number_from-show_ℕ n = number_from-digits_before (suc n) n [] (omega arith)

pub all_digits-show_ℕ : (n : ℕ) → all_digits (show_ℕ n) ≡ true
unfolding show_ℕ all_digits
all_digits-show_ℕ n = all_digits-digits_before (suc n) n [] refl

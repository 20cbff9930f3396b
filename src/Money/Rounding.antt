-- ===== src/Money/Rounding.antt =====
-- `roundHalfUp` of src/shared/money/convert.ts.
use native.Mathlib.Nat.{
  div-eq_of_lt-le, div-add-mod, mod-lt, div-mul-le_self, le-div_iff_mul-le, le_trans,
}
use invoice_reservation.Prelude.{
  ℕ, suc, ◌+◌, ◌*◌, ◌/◌, ◌%◌, ◌≤◌, ◌<◌, ◌≡◌, inl, inr, arith, leb, if◌then◌else◌, Bool-cases,
}
use invoice_reservation.Prelude.Int.{
  ℤ, pos, negsuc, ◌+ℤ◌, ◌-ℤ◌, ◌*ℤ◌, neg_ℤ, div_trunc, rem_trunc, minus, magnitude, ◌≤ℤ◌,
}
use invoice_reservation.Prelude.Result.{ok, err}
use invoice_reservation.Money.{round_half_up, adjust, denominator_not_positive}

-- n / d rounded to the nearest whole number, a half upwards.
abbrev pub nearest : ℕ → ℕ → ℕ
nearest n d = (2 * n + d) / (2 * d)

nearest_up : (n d q r : ℕ) → r < d → d * q + r ≡ n → d ≤ 2 * r → nearest n d ≡ q + 1
nearest_up n d q r lt e h = div-eq_of_lt-le {k = q + 1} (2 * d) (grind arith) (grind arith)

nearest_down : (n d q r : ℕ) → r < d → d * q + r ≡ n → 2 * r < d → nearest n d ≡ q
nearest_down n d q r lt e h = div-eq_of_lt-le {k = q} (2 * d) (grind arith) (grind arith)

nearest_cases :
    (n d q r : ℕ) → r < d → d * q + r ≡ n → nearest n d ≡ (if leb d (2 * r) then q + 1 else q)
nearest_cases n d q r lt e = elim (Bool-cases (leb d (2 * r))) [
  | inl up ↦ rw up (nearest_up n d q r lt e (ground arith))
  | inr down ↦ rw down (nearest_down n d q r lt e (ground arith))
]

adjust-pos :
    (n d q r : ℕ)
    → adjust (pos n) (pos d) (pos q) (pos r) ≡ pos (if leb d (2 * r) then q + 1 else q)
unfolding adjust ◌+ℤ◌ ◌*ℤ◌
adjust-pos n d q r = ground arith

adjust-minus :
    (n d q r : ℕ)
    → adjust (negsuc n) (pos d) (minus q) (minus r) ≡ minus (if leb d (2 * r) then q + 1 else q)
unfolding adjust ◌-ℤ◌ ◌*ℤ◌ neg_ℤ
adjust-minus n d q r = ground arith

-- `m` with the sign of the dividend.
abbrev pub with_sign_of : ℤ → ℕ → ℤ
with_sign_of (pos n) m = pos m
with_sign_of (negsuc n) m = minus m

-- For a positive denominator `roundHalfUp` gives the whole number nearest to the quotient, a half
-- away from zero.
pub round_half_up_lem :
    (numerator : ℤ) (d : ℕ)
    → 0 < d
    → round_half_up numerator (pos d)
      ≡ ok (with_sign_of numerator (nearest (magnitude numerator) d))
unfolding round_half_up div_trunc rem_trunc
round_half_up_lem (pos n) d h =
    rw
      (
        adjust-pos n d (n / d) (n % d),
        ← nearest_cases n d (n / d) (n % d) (mod-lt n h) (div-add-mod n d),
      )
      (ground arith)
round_half_up_lem (negsuc n) d h =
    rw
      (
        adjust-minus n d (suc n / d) (suc n % d),
        ← nearest_cases (suc n) d (suc n / d) (suc n % d) (mod-lt (suc n) h)
            (div-add-mod (suc n) d),
      )
      (ground arith)

pub round_half_up_throws :
    (numerator denominator : ℤ)
    → denominator ≤ℤ pos 0
    → round_half_up numerator denominator ≡ err denominator_not_positive
unfolding round_half_up
round_half_up_throws numerator denominator h = ground arith

pub nearest-zero : (d : ℕ) → 0 < d → nearest 0 d ≡ 0
nearest-zero d h = nearest_down 0 d 0 0 h (omega arith) (omega arith)

pub nearest_mono : (m n d : ℕ) → 0 < d → m ≤ n → nearest m d ≤ nearest n d
nearest_mono m n d h le =
    (le-div_iff_mul-le {k = 2 * d} {x = nearest m d} {y = 2 * n + d} (omega arith)).1
      (le_trans (div-mul-le_self (2 * m + d) (2 * d)) (omega arith))

-- A whole multiple is not rounded.
pub nearest-mul : (n d : ℕ) → 0 < d → nearest (n * d) d ≡ n
nearest-mul n d h = nearest_down (n * d) d n 0 h (grind arith) (omega arith)

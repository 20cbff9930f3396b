-- ===== src/AuditRead/Doubles.antt =====
-- `Number` of an integer of 64 bits, for src/capacity/application/audit-read.service.ts: the nearest
-- integer of 53 significant bits, of two such the even one.
use invoice_reservation.Prelude.{
  ◌≡◌, refl, ℕ, zero, suc, ◌+◌, ◌*◌, ◌/◌, ◌%◌, ◌^◌, ltb, if◌then◌else◌,
}
use invoice_reservation.Prelude.Int.{ℤ, pos, negsuc, minus}

-- The multiple of `step` nearest to `n`, of two such the even multiple.
abbrev round_to : (step n : ℕ) → ℕ
round_to step n =
    let q = n / step in
    let twice = 2 * (n % step) in
    (if ltb twice step then q else if ltb step twice then suc q else q + q % 2) * step

-- From a step on that is at most the one wanted; 11 doublings reach 2 ^ 64.
round_from : (fuel step n : ℕ) → ℕ
round_from zero step n = round_to step n
round_from (suc fuel) step n =
    let coarser = round_from fuel (2 * step) n in
    if ltb n (step * 2 ^ 53) then round_to step n else coarser

unfoldable pub double_of : ℤ → ℤ
unfolding round_from
double_of (pos n) = pos (round_from 11 1 n)
double_of (negsuc n) = minus (round_from 11 1 (suc n))

largest_exact : double_of (pos 9007199254740991) ≡ pos 9007199254740991
unfolding double_of
largest_exact = refl

halfway_to_even : double_of (pos 9007199254740993) ≡ pos 9007199254740992
unfolding double_of
halfway_to_even = refl

largest_int64 : double_of (pos 9223372036854775807) ≡ pos 9223372036854775808
unfolding double_of
largest_int64 = refl

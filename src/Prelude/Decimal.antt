-- ===== src/Prelude/Decimal.antt =====
-- `toString` of a `bigint`.
use Prim.Native.Nat.{ℕ, zero, suc, ◌+◌, ◌/◌, ◌%◌}
use mathlib.Core.List.{[], ◌∷◌}
use invoice_reservation.Prelude.Tests.{ltb, if◌then◌else◌}
use invoice_reservation.Prelude.Text.{Text}
use invoice_reservation.Prelude.Int.{ℤ, pos, negsuc}

-- The digits of `n` in front of `acc`; `fuel` rounds, of which `suc n` are enough.
unfoldable pub digits_before : ℕ → ℕ → Text → Text
digits_before zero n acc = acc
digits_before (suc fuel) n acc =
    let acc' = (b'0' + n % 10) ∷ acc in
    let rest = digits_before fuel (n / 10) acc' in if ltb n 10 then acc' else rest

unfoldable pub show_ℕ : ℕ → Text
unfolding digits_before
show_ℕ n = digits_before (suc n) n []

unfoldable pub show_ℤ : ℤ → Text
unfolding show_ℕ
show_ℤ (pos n) = show_ℕ n
show_ℤ (negsuc n) = b'-' ∷ show_ℕ (suc n)

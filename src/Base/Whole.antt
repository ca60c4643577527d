-- ===== src/Base/Whole.antt =====
-- Whole amounts as a `Float`, which the examples compute with. Their laws hold.
use Prim.Native.Nat.{◌/◌}
use mathlib.Core.Bool.{true}
use native.Mathlib.Omega.{arith}
use eksp.Base.Int.{ℤ, pos, pos_part, ◌+ℤ◌, ◌-ℤ◌, ◌*ℤ◌, ltb_ℤ}
use eksp.Base.Decimal.{atoi}
use eksp.Base.Numbers.{Float, IsOrdered}

instance abbrev pub whole_float : Float ℤ
whole_float = record {
  nought = pos 0;
  add = ◌+ℤ◌;
  sub = ◌-ℤ◌;
  mul = ◌*ℤ◌;
  div = λ a b. pos (pos_part a / pos_part b);
  neg = λ a. pos 0 -ℤ a;
  hundred = pos 100;
  lt = ltb_ℤ;
  parse_float = atoi;
}

unfoldable pub whole-IsOrdered : IsOrdered ℤ
whole-IsOrdered = record {
  is_number = λ a. true;
  lt_asymm = λ a b h. ground arith;
  lt_split = λ a b c n h. ground arith;
}

-- ===== src/Base/Int.antt =====
-- Signed integers, for the `int32` and `int64` fields, and the conversion to `uint32`.
use Prim.Native.Nat.{ℕ, zero, suc, ◌+◌, ◌-◌, ◌^◌, ◌%◌, ◌/◌}
use mathlib.Core.Bool.{Bool, true, false}
use mathlib.Core.List.{[], ◌∷◌}
use itzo.Base.Tests.{ltb, nat_beq, if◌then◌else◌}
use itzo.Base.Strings.{Str}

-- `negsuc n` is -(n + 1).
pub data ℤ : Type 0 where
  pos : ℕ → ℤ
  negsuc : ℕ → ℤ

-- `a < b`.
abbrev pub ltz : ℤ → ℤ → Bool
ltz (pos a) (pos b) = ltb a b
ltz (pos a) (negsuc b) = false
ltz (negsuc a) (pos b) = true
ltz (negsuc a) (negsuc b) = ltb b a

abbrev pub is_zero : ℤ → Bool
is_zero (pos n) = nat_beq n 0
is_zero (negsuc n) = false

-- `==` of numbers with a sign.
unfoldable pub int_beq : ℤ → ℤ → Bool
int_beq (pos a) (pos b) = nat_beq a b
int_beq (pos a) (negsuc b) = false
int_beq (negsuc a) (pos b) = false
int_beq (negsuc a) (negsuc b) = nat_beq a b

-- `uint32(i)`: the lowest 32 bits of the two's complement.
abbrev pub to_uint32 : ℤ → ℕ
to_uint32 (pos n) = n % 2 ^ 32
to_uint32 (negsuc n) = 2 ^ 32 - 1 - n % 2 ^ 32

-- The decimal digits of a number below 10 ^ `digits`, before the text `s`.
decimal : ℕ → ℕ → Str → Str
decimal zero n s = s
decimal (suc digits) n s =
    let rest = decimal digits (n / 10) ((n % 10 + 48) ∷ s) in
    if ltb n 10 then (n + 48) ∷ s else rest

-- What `%d` makes of an `int64`, which has at most 19 digits.
unfoldable pub int_text : ℤ → Str
unfolding decimal
int_text (pos n) = decimal 19 n []
int_text (negsuc n) = b'-' ∷ decimal 19 (n + 1) []

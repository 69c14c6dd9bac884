-- ===== src/Base/Int.antt =====
-- `int` over the native numbers. Coordinates stay far from the ends of the type, so that nothing
-- overflows; what is narrowed to `int16_t` is wrapped.
use Prim.Native.Nat.{ℕ, suc, ◌+◌, ◌-◌, ◌*◌, ◌/◌, ◌%◌, ◌^◌, ◌≤◌}
use mathlib.Core.Path.{◌≡◌}
use mathlib.Core.Logic.{◌↔◌}
use mathlib.Core.Bool.{Bool, true}
use native.Mathlib.Omega.{arith}
use buildat.Base.Tests.{ltb, leb, ◌==◌, if◌then◌else◌}

-- `negsuc n` is -(n + 1).
pub data ℤ : Type 0 where
  pos : ℕ → ℤ
  negsuc : ℕ → ℤ

abbrev pub pos_part : ℤ → ℕ
pos_part (pos n) = n
pos_part (negsuc n) = 0

abbrev pub neg_part : ℤ → ℕ
neg_part (pos n) = 0
neg_part (negsuc n) = suc n

-- a - b
abbrev pub sub_ℕ : ℕ → ℕ → ℤ
sub_ℕ a b = if leb b a then pos (a - b) else negsuc (b - a - 1)

infixl 65 ◌+ℤ◌ ◌-ℤ◌
infixl 70 ◌*ℤ◌
infix 50 ◌≤ℤ◌
unfoldable pub ◌+ℤ◌ : ℤ → ℤ → ℤ
a +ℤ b = sub_ℕ (pos_part a + pos_part b) (neg_part a + neg_part b)

unfoldable pub ◌-ℤ◌ : ℤ → ℤ → ℤ
a -ℤ b = sub_ℕ (pos_part a + neg_part b) (neg_part a + pos_part b)

unfoldable pub ◌*ℤ◌ : ℤ → ℤ → ℤ
a *ℤ b =
    sub_ℕ (pos_part a * pos_part b + neg_part a * neg_part b)
      (pos_part a * neg_part b + neg_part a * pos_part b)

-- C's division, which drops the fraction, by a positive number.
unfoldable pub tdiv : ℤ → ℕ → ℤ
tdiv (pos n) d = pos (n / d)
tdiv (negsuc n) d = sub_ℕ 0 (suc n / d)

abbrev pub ◌≤ℤ◌ : ℤ → ℤ → Type 0
a ≤ℤ b = pos_part a + neg_part b ≤ pos_part b + neg_part a

abbrev pub leb_ℤ : ℤ → ℤ → Bool
leb_ℤ a b = leb (pos_part a + neg_part b) (pos_part b + neg_part a)

abbrev pub eq_ℤ : ℤ → ℤ → Bool
eq_ℤ a b = pos_part a + neg_part b == pos_part b + neg_part a

-- `(int16_t)a`
unfoldable pub to_int16 : ℤ → ℤ
to_int16 (pos n) = let m = n % 2 ^ 16 in if ltb m (2 ^ 15) then pos m else negsuc (2 ^ 16 - m - 1)
to_int16 (negsuc n) =
    let m = n % 2 ^ 16 in if ltb m (2 ^ 15) then negsuc m else pos (2 ^ 16 - m - 1)

pub +ℤ_parts :
    (a b : ℤ)
    → pos_part (a +ℤ b) + neg_part a + neg_part b ≡ neg_part (a +ℤ b) + pos_part a + pos_part b
unfolding ◌+ℤ◌
+ℤ_parts a b = ground arith

pub -ℤ_parts :
    (a b : ℤ)
    → pos_part (a -ℤ b) + neg_part a + pos_part b ≡ neg_part (a -ℤ b) + pos_part a + neg_part b
unfolding ◌-ℤ◌
-ℤ_parts a b = ground arith

pub eq_of_parts : (a b : ℤ) → pos_part a + neg_part b ≡ pos_part b + neg_part a → a ≡ b
eq_of_parts a b h = ground arith

pub *ℤ-pos_parts :
    (a : ℤ) (k : ℕ)
    → (pos_part (a *ℤ pos k) ≡ pos_part a * k) × (neg_part (a *ℤ pos k) ≡ neg_part a * k)
unfolding ◌*ℤ◌
*ℤ-pos_parts (pos n) k = grind arith
*ℤ-pos_parts (negsuc n) k = grind arith

pub eq_ℤ_iff : (a b : ℤ) → (eq_ℤ a b ≡ true) ↔ (a ≡ b)
eq_ℤ_iff a b = ground (arith, eq_of_parts a b)

pub pos-*ℤ : (m n : ℕ) → pos m *ℤ pos n ≡ pos (m * n)
pos-*ℤ m n = omega (arith, *ℤ-pos_parts (pos m) n, eq_of_parts (pos m *ℤ pos n) (pos (m * n)))

pub pos-+ℤ : (m n : ℕ) → pos m +ℤ pos n ≡ pos (m + n)
pos-+ℤ m n = omega (arith, +ℤ_parts, eq_of_parts (pos m +ℤ pos n) (pos (m + n)))

pub +ℤ-cancel : (a b : ℤ) → a +ℤ b -ℤ a ≡ b
+ℤ-cancel a b = omega (arith, +ℤ_parts, -ℤ_parts, eq_of_parts (a +ℤ b -ℤ a) b)

-- What is not below `b` is `b` and a natural number.
pub +ℤ-from : (a b : ℤ) → b ≤ℤ a → a ≡ b +ℤ pos (pos_part (a -ℤ b))
unfolding ◌+ℤ◌ ◌-ℤ◌
+ℤ-from a b h = ground arith

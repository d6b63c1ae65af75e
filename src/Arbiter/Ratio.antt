-- ===== src/Arbiter/Ratio.antt =====
-- The scores, weights and thresholds of src/arbiter/, as exact fractions with a sign: the source's
-- floating-point numbers without their rounding. The denominator is never 0.
use frontier_os.Prelude.{ℕ, suc, ◌+◌, ◌-◌, ◌*◌, Bool, leb, if◌then◌else◌}

-- `negsuc n` is -(n + 1)
pub data ℤ : Type 0 where
  pos : ℕ → ℤ
  negsuc : ℕ → ℤ

abbrev positive_part : ℤ → ℕ
positive_part (pos n) = n
positive_part (negsuc _) = 0

abbrev negative_part : ℤ → ℕ
negative_part (pos _) = 0
negative_part (negsuc n) = suc n

abbrev minus : ℕ → ℕ → ℤ
minus a b = if leb b a then pos (a - b) else negsuc (b - a - 1)

infixl 65 ◌+ℤ◌
abbrev ◌+ℤ◌ : ℤ → ℤ → ℤ
a +ℤ b = minus (positive_part a + positive_part b) (negative_part a + negative_part b)

abbrev times : ℤ → ℕ → ℤ
times a k = minus (positive_part a * k) (negative_part a * k)

abbrev leb_ℤ : ℤ → ℤ → Bool
leb_ℤ a b = leb (positive_part a + negative_part b) (positive_part b + negative_part a)

pub record Ratio : Type 0 where
  pub num : ℤ
  pub den : ℕ

-- `a >= b`
unfoldable pub at_least : Ratio → Ratio → Bool
at_least a b = leb_ℤ (times b.num a.den) (times a.num b.den)

-- `a + b`
unfoldable pub plus : Ratio → Ratio → Ratio
plus a b = record { num = times a.num b.den +ℤ times b.num a.den; den = a.den * b.den }

-- `a / b`, for a `b` of this sign and numerator.
abbrev divide : Ratio → ℤ → ℕ → Ratio
divide a (pos (suc n)) d = record { num = times a.num d; den = a.den * suc n }
divide a _ d = record { num = pos 0; den = 1 }

-- `b > 0 ? a / b : 0`
unfoldable pub ratio_or_zero : Ratio → Ratio → Ratio
ratio_or_zero a b = divide a b.num b.den

abbrev pub zero_ratio : Ratio
zero_ratio = record { num = pos 0; den = 1 }

abbrev pub one_ratio : Ratio
one_ratio = record { num = pos 1; den = 1 }

-- `score * weight`, for a score in halves.
abbrev pub of_halves : ℕ → Ratio → Ratio
of_halves halves w = record { num = times w.num halves; den = w.den * 2 }

-- ===== src/Examples/Whole.antt =====
-- Whole numbers in place of the decimals: an instance of what the code relies on.
use promo_go.Base.{
  ℕ, zero, suc, ◌+◌, ◌*◌, ◌/◌, ◌≤◌, ◌<◌, ◌≡◌, ◌≢◌, refl, Text, ◌∷◌, replicate, arith, All, ap,
}
use promo_go.Base.Int.{ℤ, pos, negsuc}
use promo_go.Domain.Decimals.{Decimals, DecimalLaws, AtMost}
use promo_go.Loyalty.Distinct.{FormatLaws}
use Prim.Native.Nat.{compare}
use native.Mathlib.Nat.{
  mul-div_cancel, div-mul-le_self, le-div_iff_mul-le, zero-div, mul-zero, mul-le-mul_left,
}

abbrev pub whole_of : ℤ → ℕ
whole_of (pos n) = n
whole_of (negsuc n) = 0

abbrev pub strokes : ℤ → Text
strokes (pos n) = replicate n b'1'
strokes (negsuc n) = b'-' ∷ replicate (suc n) b'1'

abbrev pub whole : Decimals
whole = record {
  Decimal = ℕ;
  dec_zero = 0;
  new_from_int = whole_of;
  add = λ a b. a + b;
  mul = λ a b. a * b;
  div = λ a b. a / b;
  floor = λ a. a;
  int_part = pos;
  cmp = compare;
  string_fixed = λ a n. replicate a b'1';
  format_int = strokes;
  to_numeric = λ a. a;
}

le_of_AtMost : (a b : ℕ) → AtMost whole a b → a ≤ b
le_of_AtMost a b h = ground arith

AtMost-of_le : (a b : ℕ) → a ≤ b → AtMost whole a b
AtMost-of_le a b h = ground arith

div_le : (a b c : ℕ) → 0 < c → a ≤ b → a / c ≤ b / c
div_le a b c p h =
    (le-div_iff_mul-le {k = c} {x = a / c} {y = b} p).1 (omega (arith, div-mul-le_self a c))

pub whole_laws : DecimalLaws whole
whole_laws = record {
  cmp_refl = λ a. ground arith;
  cmp_swap = λ a b. ground arith;
  cmp_trans = λ a b c h k. ground arith;
  add_mono = λ a b h. ground arith;
  mul_mono = λ n a b h. AtMost-of_le (n * a) (n * b) (mul-le-mul_left n (le_of_AtMost a b h));
  div_mono =
      λ a b c p h. AtMost-of_le (a / c) (b / c) (div_le a b c (ground arith) (le_of_AtMost a b h));
  floor_mono = λ a b h. ground arith;
  mul_zero = mul-zero;
  zero_div = λ c p. zero-div c;
  mul-div = λ n c p. mul-div_cancel n (ground arith);
  numeric_add = λ a b h k. refl;
  floor_zero = refl;
  floor_int = λ n. refl;
}

replicate_injective : (a b c : ℕ) → replicate a c ≡ replicate b c → a ≡ b
replicate_injective zero zero c e = refl
replicate_injective zero (suc b) c e = absurd (ground arith)
replicate_injective (suc a) zero c e = absurd (ground arith)
replicate_injective (suc a) (suc b) c e = ap suc (replicate_injective a b c (ground arith))

replicate_plain : (n : ℕ) → All (λ (c : ℕ). c ≢ b';') (replicate n b'1')
replicate_plain zero = tt
replicate_plain (suc n) = (ground arith, replicate_plain n)

strokes_injective : (a b : ℤ) → strokes a ≡ strokes b → a ≡ b
strokes_injective (pos m) (pos n) e = ap pos (replicate_injective m n b'1' e)
strokes_injective (pos zero) (negsuc n) e = absurd (ground arith)
strokes_injective (pos (suc m)) (negsuc n) e = absurd (ground arith)
strokes_injective (negsuc m) (pos zero) e = absurd (ground arith)
strokes_injective (negsuc m) (pos (suc n)) e = absurd (ground arith)
strokes_injective (negsuc m) (negsuc n) e = ap negsuc (replicate_injective m n b'1' (ground arith))

strokes_plain : (a : ℤ) → All (λ c. c ≢ b';') (strokes a)
strokes_plain (pos n) = replicate_plain n
strokes_plain (negsuc n) = (ground arith, replicate_plain (suc n))

pub whole_formats : FormatLaws whole
whole_formats = record {
  format_injective = strokes_injective;
  format_plain = strokes_plain;
  fixed_plain = λ d n. replicate_plain d;
}

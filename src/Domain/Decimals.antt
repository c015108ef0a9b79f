-- ===== src/Domain/Decimals.antt =====
-- What the code uses of github.com/shopspring/decimal, of fmt and of PostgreSQL's NUMERIC: an
-- interface, since none is part of the repository. `Decimals` has the operations and `DecimalLaws` what is documented of
-- them, in so far as a property needs it.
use promo_go.Base.{ℕ, ◌≡◌, ◌≢◌, Bool, true, false, Text, Ordering}
use promo_go.Base.Int.{ℤ, pos, ◌≤ℤ◌}

pub record Decimals : Type 1 where
  pub Decimal : Type 0
  pub dec_zero : Decimal  -- decimal.Zero, the zero value of the type
  pub new_from_int : ℤ → Decimal
  pub add : Decimal → Decimal → Decimal
  pub mul : Decimal → Decimal → Decimal
  pub div : Decimal → Decimal → Decimal
  pub floor : Decimal → Decimal
  pub int_part : Decimal → ℤ
  pub cmp : Decimal → Decimal → Ordering
  pub string_fixed : Decimal → ℕ → Text
  pub format_int : ℤ → Text  -- `%d` of fmt.Sprintf
  pub to_numeric : Decimal → Decimal  -- what a NUMERIC(20,2) column keeps of a value it is given

-- The comparisons that the library defines by `Cmp`.
abbrev pub is_lt : Ordering → Bool
is_lt Ordering.lt = true
is_lt _ = false

abbrev pub is_gt : Ordering → Bool
is_gt Ordering.gt = true
is_gt _ = false

abbrev pub is_eq : Ordering → Bool
is_eq Ordering.eq = true
is_eq _ = false

abbrev pub flip : Ordering → Ordering
flip Ordering.lt = Ordering.gt
flip Ordering.eq = Ordering.eq
flip Ordering.gt = Ordering.lt

module _ (lib : Decimals) where
  open lib use {Decimal, cmp, dec_zero, new_from_int, add, mul, div, floor, int_part}

  abbrev pub less_than : Decimal → Decimal → Bool
  less_than a b = is_lt (cmp a b)

  abbrev pub greater_than : Decimal → Decimal → Bool
  greater_than a b = is_gt (cmp a b)

  abbrev pub equal : Decimal → Decimal → Bool
  equal a b = is_eq (cmp a b)

  abbrev pub is_positive : Decimal → Bool
  is_positive a = is_gt (cmp a dec_zero)

  abbrev pub is_negative : Decimal → Bool
  is_negative a = is_lt (cmp a dec_zero)

  abbrev pub AtMost : Decimal → Decimal → Type 0
  AtMost a b = cmp a b ≢ Ordering.gt

  -- `⌊points * part / whole⌋`, the expression that the refund's share is computed by.
  abbrev pub share : ℤ → Decimal → Decimal → ℤ
  share points part whole = int_part (floor (div (mul (new_from_int points) part) whole))

-- The documented behaviour of the operations: `Cmp` is an order, adding a number that is not
-- negative does not make a sum smaller, and products, quotients by a positive number, and floors
-- keep the order and undo one another on whole numbers. A sum of amounts that have no more than two
-- decimals, and so are kept as they are, is kept as it is.
pub record DecimalLaws (lib : Decimals) : Type 0 where
  pub cmp_refl : (a : lib.Decimal) → lib.cmp a a ≡ Ordering.eq
  pub cmp_swap : (a b : lib.Decimal) → lib.cmp b a ≡ flip (lib.cmp a b)
  pub cmp_trans : (a b c : lib.Decimal) → AtMost lib a b → AtMost lib b c → AtMost lib a c
  pub add_mono : (a b : lib.Decimal) → AtMost lib lib.dec_zero b → AtMost lib a (lib.add a b)
  pub mul_mono :
      (n : ℕ) (a b : lib.Decimal)
      → AtMost lib a b
      → AtMost lib (lib.mul (lib.new_from_int (pos n)) a) (lib.mul (lib.new_from_int (pos n)) b)
  pub div_mono :
      (a b c : lib.Decimal)
      → is_positive lib c ≡ true
      → AtMost lib a b
      → AtMost lib (lib.div a c) (lib.div b c)
  pub floor_mono :
      (a b : lib.Decimal)
      → AtMost lib a b
      → lib.int_part (lib.floor a) ≤ℤ lib.int_part (lib.floor b)
  pub mul_zero : (n : ℕ) → lib.mul (lib.new_from_int (pos n)) lib.dec_zero ≡ lib.dec_zero
  pub zero_div :
      (c : lib.Decimal) → is_positive lib c ≡ true → lib.div lib.dec_zero c ≡ lib.dec_zero
  pub mul-div :
      (n : ℕ) (c : lib.Decimal)
      → is_positive lib c ≡ true
      → lib.div (lib.mul (lib.new_from_int (pos n)) c) c ≡ lib.new_from_int (pos n)
  pub numeric_add :
      (a b : lib.Decimal)
      → lib.to_numeric a ≡ a
      → lib.to_numeric b ≡ b
      → lib.to_numeric (lib.add a b) ≡ lib.add a b
  pub floor_zero : lib.int_part (lib.floor lib.dec_zero) ≡ pos 0
  pub floor_int : (n : ℕ) → lib.int_part (lib.floor (lib.new_from_int (pos n))) ≡ pos n

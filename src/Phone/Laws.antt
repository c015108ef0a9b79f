-- ===== src/Phone/Laws.antt =====
-- Proofs about `NormalizePhone` and `MaskPhone`.
use promo_go.Base.{
  ℕ, zero, suc, ◌+◌, ◌-◌, ◌≤◌, ◌≡◌, refl, true, false, some, [], ◌∷◌, ◌++◌, Text, length, drop, All,
  replicate, length-append, length-replicate, arith, Bool-cases, inl, inr, leb, ◌<◌, ◌⊎◌,
}
use mathlib.Core.List.{append-nil}
use promo_go.Phone.{is_digit, digits, with_country_code, normalize_phone, mask_phone}

digits-All : (s : Text) → All (λ c. is_digit c ≡ true) (digits s)
unfolding digits
digits-All [] = tt
digits-All (c ∷ cs) = ground (arith, digits-All cs)

digits_id : (s : Text) → All (λ c. is_digit c ≡ true) s → digits s ≡ s
unfolding digits
digits_id [] h = refl
digits_id (c ∷ cs) h = ground (arith, digits_id cs)

with_country_code-All :
    (s : Text) → All (λ c. is_digit c ≡ true) s → All (λ c. is_digit c ≡ true) (with_country_code s)
unfolding with_country_code
with_country_code-All [] h = tt
with_country_code-All (c ∷ cs) h = ground arith

with_country_code_idem : (s : Text) → with_country_code (with_country_code s) ≡ with_country_code s
unfolding with_country_code
with_country_code_idem [] = refl
with_country_code_idem (c ∷ cs) = ground arith

-- A phone that is accepted is "+" and ten to fifteen digits.
pub normalize_phone_shape :
    (raw p : Text)
    → normalize_phone raw ≡ some p
    → (d : Text) × (p ≡ b'+' ∷ d)
      × All (λ c. is_digit c ≡ true) d
      × (10 ≤ length d)
      × (length d ≤ 15)
unfolding normalize_phone
normalize_phone_shape raw p h = (
  with_country_code (digits raw),
  ground arith,
  with_country_code-All (digits raw) (digits-All raw),
  ground arith,
  ground arith,
)

-- Normalizing again changes nothing.
pub normalize_phone_idem :
    (raw p : Text) → normalize_phone raw ≡ some p → normalize_phone p ≡ some p
unfolding normalize_phone
normalize_phone_idem raw p h = ground (
  arith,
  digits_id (with_country_code (digits raw)) (with_country_code-All (digits raw) (digits-All raw)),
  with_country_code_idem (digits raw),
)

-- The spellings of one Russian mobile number, as a till, a cashier or the app may send them (ten
-- digits, or eleven with 8 or 7 first, with or without "+"), have one canonical form.
pub normalize_phone_spellings :
    (s : Text)
    → All (λ c. is_digit c ≡ true) s
    → length s ≡ 9
    → let canonical = b'+' ∷ (b'7' ∷ (b'9' ∷ s)) in
      (normalize_phone (b'9' ∷ s) ≡ some canonical)
      × (normalize_phone (b'8' ∷ (b'9' ∷ s)) ≡ some canonical)
      × (normalize_phone (b'7' ∷ (b'9' ∷ s)) ≡ some canonical)
      × (normalize_phone canonical ≡ some canonical)
unfolding normalize_phone
normalize_phone_spellings s a n = (
  ground (arith, digits_id s a),
  ground (arith, digits_id s a),
  ground (arith, digits_id s a),
  ground (arith, digits_id s a),
)

length-drop : (n : ℕ) (s : Text) → length (drop n s) ≡ length s - n
length-drop zero s = omega arith
length-drop (suc n) [] = omega arith
length-drop (suc n) (c ∷ cs) = omega (arith, length-drop n cs)

drop-length : (p : Text) → drop (length p) p ≡ []
drop-length [] = refl
drop-length (c ∷ cs) = drop-length cs

not_leb : (a b : ℕ) → leb a b ≡ false → b < a
not_leb a b h = ground arith

-- A masked phone is as long as the phone, and is some number of "*" and then the rest of the phone,
-- which is at most its last four bytes, and none of it where the phone has four or fewer.
pub mask_phone_shape :
    (p : Text)
    → (n : ℕ) × (mask_phone p ≡ replicate n b'*' ++ drop n p)
      × (length (mask_phone p) ≡ length p)
      × (length p ≤ n + 4)
      × ((n ≡ length p) ⊎ (4 < length p))
unfolding mask_phone
mask_phone_shape p = elim (Bool-cases (leb (length p) 4)) [
  | inl short ↦ rw short (
    length p,
    rw (drop-length p, append-nil),
    length-replicate (length p) b'*',
    omega arith,
    inl refl,
  )
  | inr long ↦ rw long (
    length p - 4,
    refl,
    omega (
      arith,
      length-append (replicate (length p - 4) b'*') (drop (length p - 4) p),
      length-replicate {A = ℕ} (length p - 4) b'*',
      length-drop (length p - 4) p,
      not_leb (length p) 4 long,
    ),
    omega arith,
    inr (not_leb (length p) 4 long),
  )
]

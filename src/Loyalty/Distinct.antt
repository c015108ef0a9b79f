-- ===== src/Loyalty/Distinct.antt =====
-- What the fingerprints of two requests tell.
use promo_go.Base.{ℕ, ◌≡◌, ◌≢◌, refl, sym, [], ◌∷◌, ◌++◌, Text, codes, All}
use promo_go.Base.Int.{ℤ, pos}
use promo_go.Domain.Decimals.{Decimals}
use promo_go.Loyalty.Fingerprints.{accrual_fingerprint, redeem_fingerprint}

-- What is documented of `%d` and of StringFixed: a number has one spelling, and neither writes ";".
pub record FormatLaws (lib : Decimals) : Type 0 where
  pub format_injective : (a b : ℤ) → lib.format_int a ≡ lib.format_int b → a ≡ b
  pub format_plain : (a : ℤ) → All (λ c. c ≢ b';') (lib.format_int a)
  pub fixed_plain : (d : lib.Decimal) (n : ℕ) → All (λ c. c ≢ b';') (lib.string_fixed d n)

head_eq : {a b : ℕ} {s t : Text} → a ∷ s ≡ b ∷ t → a ≡ b
head_eq e = cc

tail_eq : {a b : ℕ} {s t : Text} → a ∷ s ≡ b ∷ t → s ≡ t
tail_eq e = cc

-- Texts without ";" in front of a ";" can be read off.
split_at_semicolon :
    (s t u v : Text)
    → All (λ c. c ≢ b';') s
    → All (λ c. c ≢ b';') t
    → s ++ (b';' ∷ u) ≡ t ++ (b';' ∷ v)
    → (s ≡ t) × (u ≡ v)
split_at_semicolon [] [] u v p q e = (refl, tail_eq e)
split_at_semicolon [] (b ∷ t) u v p q e = absurd (q.0 (sym (head_eq e)))
split_at_semicolon (a ∷ s) [] u v p q e = absurd (p.0 (head_eq e))
split_at_semicolon (a ∷ s) (b ∷ t) u v p q e =
    let (same, rest) = split_at_semicolon s t u v p.1 q.1 (tail_eq e) in
    (cc (same, head_eq e), rest)

cancel : (p s t : Text) → p ++ s ≡ p ++ t → s ≡ t
cancel [] s t e = e
cancel (c ∷ cs) s t e = cancel cs s t (tail_eq e)

pos_injective : (a b : ℕ) → pos a ≡ pos b → a ≡ b
pos_injective a b e = cc

module _ (lib : Decimals) (laws : FormatLaws lib) where
  open lib use {Decimal, format_int, string_fixed}

  number_split :
      (a b : ℕ) (u v : Text)
      → format_int (pos a) ++ (b';' ∷ u) ≡ format_int (pos b) ++ (b';' ∷ v)
      → (a ≡ b) × (u ≡ v)
  number_split a b u v e =
      let (same, rest) =
        split_at_semicolon (format_int (pos a)) (format_int (pos b)) u v (laws.format_plain (pos a))
          (laws.format_plain (pos b)) e in
      (pos_injective a b (laws.format_injective (pos a) (pos b) same), rest)

  -- Two accruals with one fingerprint are for one client and one amount to the cent.
  pub accrual_fingerprint_injective :
      (c d : ℕ) (x y : Decimal)
      → accrual_fingerprint lib c x ≡ accrual_fingerprint lib d y
      → (c ≡ d) × (string_fixed x 2 ≡ string_fixed y 2)
  unfolding accrual_fingerprint
  accrual_fingerprint_injective c d x y e =
      let (same, rest) =
        number_split c d (codes "amount=" ++ string_fixed x 2) (codes "amount=" ++ string_fixed y 2)
          (cancel (codes "client=") _ _ e) in
      (same, cancel (codes "amount=") _ _ rest)

  -- Two redemptions with one fingerprint are for one client, one amount to the cent and the same
  -- points as requested.
  pub redeem_fingerprint_injective :
      (c d : ℕ) (x y : Decimal) (p q : ℤ)
      → redeem_fingerprint lib c x p ≡ redeem_fingerprint lib d y q
      → (c ≡ d) × (string_fixed x 2 ≡ string_fixed y 2) × (p ≡ q)
  unfolding redeem_fingerprint
  redeem_fingerprint_injective c d x y p q e =
      let (same, rest) = number_split c d _ _ (cancel (codes "client=") _ _ e) in
      let (amount, points) =
        split_at_semicolon (string_fixed x 2) (string_fixed y 2) (codes "points=" ++ format_int p)
          (codes "points=" ++ format_int q) (laws.fixed_plain x 2) (laws.fixed_plain y 2)
          (cancel (codes "amount=") _ _ rest) in
      (same, amount, laws.format_injective p q (cancel (codes "points=") _ _ points))

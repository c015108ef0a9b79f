-- ===== src/Admin/CredentialLaws.antt =====
-- Proofs about Admin/Credentials: a generated key parses into its parts.
use promo_go.Base.{
  ℕ, ◌+◌, ◌*◌, ◌/◌, ◌%◌, ◌≡◌, refl, false, some, List, [], ◌∷◌, ◌++◌, Text, text_eq_refl, arith,
  All, ◌==◌, length, take, drop,
}
use promo_go.Admin.Gate.{trim_prefix}
use promo_go.Admin.Credentials.{base64_digit, encode_base64, dot, cut_dot, parse_multi_key_api_key}

abbrev pub NotDot : ℕ → Type 0
NotDot c = (c == dot) ≡ false

pub base64_digit-NotDot : (n : ℕ) → NotDot (base64_digit n)
unfolding base64_digit
base64_digit-NotDot n = ground arith

pub encode_base64-All : (s : List ℕ) → All NotDot (encode_base64 s)
unfolding encode_base64
encode_base64-All [] = tt
encode_base64-All (a ∷ []) = (base64_digit-NotDot (a / 4), (base64_digit-NotDot (a % 4 * 16), tt))
encode_base64-All (a ∷ b ∷ []) = (
  base64_digit-NotDot (a / 4),
  (base64_digit-NotDot (a % 4 * 16 + b / 16), (base64_digit-NotDot (b % 16 * 4), tt)),
)
encode_base64-All (a ∷ b ∷ c ∷ s) = (
  base64_digit-NotDot (a / 4),
  (
    base64_digit-NotDot (a % 4 * 16 + b / 16),
    (
      base64_digit-NotDot (b % 16 * 4 + c / 64),
      (base64_digit-NotDot (c % 64), encode_base64-All s),
    ),
  ),
)

pub cut_dot-append : (s t : Text) → All NotDot s → cut_dot (s ++ dot ∷ t) ≡ some (s, t)
unfolding cut_dot
cut_dot-append [] t h = refl
cut_dot-append (c ∷ s) t (other, h) = ground (arith, cut_dot-append s t h)

-- Some bytes give some characters.
pub encode_base64_cons :
    (a : ℕ) (s : List ℕ) → (c : ℕ) × (t : Text) × (encode_base64 (a ∷ s) ≡ c ∷ t)
unfolding encode_base64
encode_base64_cons a [] = (_, _, refl)
encode_base64_cons a (b ∷ []) = (_, _, refl)
encode_base64_cons a (b ∷ c ∷ s) = (_, _, refl)

pub parse_multi_key_api_key-append :
    (a : ℕ) (s : List ℕ) (b : ℕ) (t : List ℕ)
    → parse_multi_key_api_key (encode_base64 (a ∷ s) ++ dot ∷ encode_base64 (b ∷ t))
      ≡ some (encode_base64 (a ∷ s), encode_base64 (b ∷ t))
unfolding parse_multi_key_api_key
parse_multi_key_api_key-append a s b t =
    let (c, u, e) = encode_base64_cons a s in
    let (x, v, f) = encode_base64_cons b t in
    ground (
      arith,
      cut_dot-append (encode_base64 (a ∷ s)) (encode_base64 (b ∷ t)) (encode_base64-All (a ∷ s)),
    )

pub take-append : (p s : Text) → take (length p) (p ++ s) ≡ p
take-append [] [] = refl
take-append [] (c ∷ s) = refl
take-append (c ∷ p) s = ground (arith, take-append p s)

pub drop-append : (p s : Text) → drop (length p) (p ++ s) ≡ s
drop-append [] s = refl
drop-append (c ∷ p) s = drop-append p s

pub trim_prefix-append : (p s : Text) → trim_prefix p (p ++ s) ≡ s
unfolding trim_prefix
trim_prefix-append p s = ground (arith, take-append p s, drop-append p s, text_eq_refl p)

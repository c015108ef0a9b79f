-- ===== src/Phone.antt =====
-- internal/auth/phone.go. A phone is the list of its bytes; the runes that `NormalizePhone` keeps
-- are ASCII digits, so reading bytes for runes keeps the same ones.
pub mod Laws
use promo_go.Base.{
  ℕ, zero, suc, ◌+◌, ◌-◌, Bool, true, false, ◌&&◌, ◌||◌, Option, none, some, List, [], ◌∷◌, ◌++◌,
  Text, length, drop, replicate, ltb, leb, ◌==◌, if◌then◌else◌,
}

abbrev pub is_digit : ℕ → Bool
is_digit c = leb b'0' c && leb c b'9'

-- The loop over the runes of `raw`.
unfoldable pub digits : Text → Text
digits [] = []
digits (c ∷ cs) = if is_digit c then c ∷ digits cs else digits cs

abbrev pub first_is : (ℕ → Bool) → Text → Bool
first_is p [] = false
first_is p (c ∷ cs) = p c

-- The `switch` that gives Russian numbers their country code.
unfoldable pub with_country_code : Text → Text
with_country_code d =
    if (length d == 11) && first_is (λ c. (c == b'8') || (c == b'7')) d
    then b'7' ∷ drop 1 d
    else if (length d == 10) && first_is (λ c. c == b'9') d
    then b'7' ∷ d
    else d

-- `none` is ErrInvalidPhone.
unfoldable pub normalize_phone : Text → Option Text
unfolding digits with_country_code
normalize_phone raw =
    let d = with_country_code (digits raw) in
    if ltb (length d) 10 || ltb 15 (length d) then none else some (b'+' ∷ d)

unfoldable pub mask_phone : Text → Text
mask_phone phone =
    if leb (length phone) 4
    then replicate (length phone) b'*'
    else replicate (length phone - 4) b'*' ++ drop (length phone - 4) phone

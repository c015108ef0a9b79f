-- ===== src/Redis.antt =====
-- The part of Redis that the code uses: keys with a value and a time of expiry (every key of this
-- program has one). A key whose time has come is as good as absent; a later write hides an
-- earlier one. Times are milliseconds.
use promo_go.Base.{
  ℕ, ◌≡◌, ◌≢◌, refl, false, Option, none, some, List, [], ◌∷◌, Text, text_eq, text_eq_refl, ltb,
  if◌then◌else◌, arith, eq_of_text_eq, ◌≤◌,
}

pub record Slot {ℓ} (V : Type ℓ) : Type ℓ where
  pub key : Text
  pub value : V
  pub expires_at : ℕ

abbrev pub Keys {ℓ} : Type ℓ → Type ℓ
Keys V = List (Slot V)

module _ {ℓ} {V : Type ℓ} where
  -- GET, HMGET and PTTL: the value and when it expires.
  unfoldable pub get : ℕ → Text → Keys V → Option (Slot V)
  get now k [] = none
  get now k (s ∷ m) =
      if text_eq s.key k then (if ltb now s.expires_at then some s else none) else get now k m

  -- SET and HSET with EXPIRE
  unfoldable pub put : Text → V → ℕ → Keys V → Keys V
  put k v e m = record { key = k; value = v; expires_at = e } ∷ m

  -- DEL
  unfoldable pub del : Text → Keys V → Keys V
  del k [] = []
  del k (s ∷ m) = if text_eq s.key k then del k m else s ∷ del k m

  pub get-put_self :
      (now : ℕ) (k : Text) (v : V) (e : ℕ) (m : Keys V)
      → get now k (put k v e m)
        ≡ (if ltb now e then some (record { key = k; value = v; expires_at = e }) else none)
  unfolding get put
  get-put_self now k v e m = ground (arith, text_eq_refl k)

  pub get-del_self : (now : ℕ) (k : Text) (m : Keys V) → get now k (del k m) ≡ none
  unfolding get del
  get-del_self now k [] = refl
  get-del_self now k (s ∷ m) = ground (arith, get-del_self now k m)

  pub get-put_ne :
      (now : ℕ) (j k : Text) (v : V) (e : ℕ) (m : Keys V)
      → text_eq k j ≡ false
      → get now j (put k v e m) ≡ get now j m
  unfolding get put
  get-put_ne now j k v e m h = ground arith

  pub get-del_ne : (now : ℕ) (j k : Text) (m : Keys V) → j ≢ k → get now j (del k m) ≡ get now j m
  unfolding get del
  get-del_ne now j k [] h = refl
  get-del_ne now j k (s ∷ m) h =
      ground (arith, get-del_ne now j k m h, eq_of_text_eq s.key k, eq_of_text_eq s.key j)

  -- What has expired stays expired.
  pub get_expired :
      (now later : ℕ) (k : Text) (m : Keys V)
      → get now k m ≡ none
      → now ≤ later
      → get later k m ≡ none
  unfolding get
  get_expired now later k [] h le = refl
  get_expired now later k (s ∷ m) h le = ground (arith, get_expired now later k m)

-- ===== src/Admin/Credentials.antt =====
-- GenerateAPIKey of internal/auth/tokens.go, with base64.RawURLEncoding, and the parsing of keys in
-- internal/httpserver/middleware.go. The hash is a parameter.
use promo_go.Base.{
  ℕ, ◌+◌, ◌-◌, ◌*◌, ◌/◌, ◌%◌, Option, none, some, List, [], ◌∷◌, ◌++◌, Text, ltb, ◌==◌,
  if◌then◌else◌,
}

-- The URL-safe alphabet.
unfoldable pub base64_digit : ℕ → ℕ
base64_digit n =
    if ltb n 26
    then 65 + n
    else if ltb n 52
    then 71 + n
    else if ltb n 62
    then n - 4
    else if n == 62
    then 45
    else 95

-- base64.RawURLEncoding.EncodeToString
unfoldable pub encode_base64 : List ℕ → Text
unfolding base64_digit
encode_base64 [] = []
encode_base64 (a ∷ []) = base64_digit (a / 4) ∷ base64_digit (a % 4 * 16) ∷ []
encode_base64 (a ∷ b ∷ []) =
    base64_digit (a / 4) ∷ base64_digit (a % 4 * 16 + b / 16) ∷ base64_digit (b % 16 * 4) ∷ []
encode_base64 (a ∷ b ∷ c ∷ s) =
    base64_digit (a / 4)
    ∷ base64_digit (a % 4 * 16 + b / 16)
    ∷ base64_digit (b % 16 * 4 + c / 64)
    ∷ base64_digit (c % 64)
    ∷ encode_base64 s

pub record NewKey : Type 0 where
  pub plaintext : Text
  pub key_id : Text
  pub hash : Text

abbrev pub dot : ℕ
dot = 46

-- GenerateAPIKey, on the random bytes that fill its two buffers.
unfoldable pub generate_api_key : (Text → Text) → List ℕ → List ℕ → NewKey
unfolding encode_base64
generate_api_key hash_token id_bytes secret_bytes = record {
  plaintext = encode_base64 id_bytes ++ dot ∷ encode_base64 secret_bytes;
  key_id = encode_base64 id_bytes;
  hash = hash_token (encode_base64 secret_bytes);
}

abbrev pub put_before : ℕ → Option (Text × Text) → Option (Text × Text)
put_before c none = none
put_before c (some (before, after)) = some (c ∷ before, after)

-- strings.Cut(s, ".")
unfoldable pub cut_dot : Text → Option (Text × Text)
cut_dot [] = none
cut_dot (c ∷ s) = let rest = cut_dot s in if c == dot then some ([], s) else put_before c rest

abbrev pub both_parts : Option (Text × Text) → Option (Text × Text)
both_parts none = none
both_parts (some ([], secret)) = none
both_parts (some (c ∷ id, [])) = none
both_parts (some (c ∷ id, x ∷ secret)) = some (c ∷ id, x ∷ secret)

unfoldable pub parse_multi_key_api_key : Text → Option (Text × Text)
unfolding cut_dot
parse_multi_key_api_key key = both_parts (cut_dot key)

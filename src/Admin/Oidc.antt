-- ===== src/Admin/Oidc.antt =====
-- internal/auth/oidc.go. The JWT library, base64 and the HTTP client are parameters: a token's header,
-- the claims of a token whose signature, issuer, audience and end it accepts, the bytes of a text, and
-- the document served at a time, if any.
use promo_go.Base.{
  ℕ, ◌+◌, ◌*◌, ◌-◌, Bool, true, false, Option, none, some, List, [], ◌∷◌, Text, codes, text_eq, not,
  ltb, if◌then◌else◌, ◌||◌,
}
use promo_go.Base.Int.{ℤ, pos, wrap64}

pub record OidcClaims : Type 0 where
  pub subject : Text
  pub email : Text
  pub name : Text

-- `kid` is empty when the header has none.
pub record TokenHeader : Type 0 where
  pub is_rsa : Bool
  pub kid : Text

pub record Jwk : Type 0 where
  pub kty : Text
  pub kid : Text
  pub n : Text
  pub e : Text

pub record PublicKey : Type 0 where
  pub modulus : ℕ
  pub exponent : ℤ

-- The verifier's cache; the map of keys is an association list, newest entry first.
pub record OidcCache : Type 0 where
  pub keys : List (Text × PublicKey)
  pub fetched_at : ℕ

unfoldable pub lookup_key : Text → List (Text × PublicKey) → Option PublicKey
lookup_key kid [] = none
lookup_key kid ((id, k) ∷ ks) = if text_eq id kid then some k else lookup_key kid ks

-- big.Int.SetBytes
unfoldable pub set_bytes : ℕ → List ℕ → ℕ
set_bytes acc [] = acc
set_bytes acc (b ∷ bs) = set_bytes (acc * 256 + b) bs

module _ (decode : Text → Option (List ℕ)) where
  unfoldable pub rsa_public_key_from_jwk : Text → Text → Option PublicKey
  unfolding set_bytes
  rsa_public_key_from_jwk n e = elim (decode n) [
    | none ↦ none
    | some ns ↦ elim (decode e) [
      | none ↦ none
      | some es ↦
          some (record { modulus = set_bytes 0 ns; exponent = wrap64 (pos (set_bytes 0 es)) })
    ]
  ]

  abbrev pub put_key : Text → Option PublicKey → List (Text × PublicKey) → List (Text × PublicKey)
  put_key kid none acc = acc
  put_key kid (some k) acc = (kid, k) ∷ acc

  -- The loop of refreshKeys; a later key of the same id takes the place of an earlier one.
  unfoldable pub collect_keys : List Jwk → List (Text × PublicKey) → List (Text × PublicKey)
  unfolding rsa_public_key_from_jwk
  collect_keys [] acc = acc
  collect_keys (k ∷ ks) acc = collect_keys ks (
      if not (text_eq k.kty (codes "RSA")) || text_eq k.kid []
      then acc
      else put_key k.kid (rsa_public_key_from_jwk k.n k.e) acc)

  -- refreshKeys: without a document nothing changes.
  unfoldable pub refresh_keys : ℕ → Option (List Jwk) → OidcCache → Bool × OidcCache
  unfolding collect_keys
  refresh_keys now none v = (false, v)
  refresh_keys now (some doc) v = (true, record { keys = collect_keys doc []; fetched_at = now })

  abbrev pub refetched : Text → Bool × OidcCache → Option PublicKey × OidcCache
  refetched kid (false, v) = (none, v)
  refetched kid (true, v) = (lookup_key kid v.keys, v)

  abbrev pub cached_or_refetched :
      ℕ → ℕ → Option (List Jwk) → Text → Option PublicKey → OidcCache → Option PublicKey × OidcCache
  cached_or_refetched ttl now served kid none v = refetched kid (refresh_keys now served v)
  cached_or_refetched ttl now served kid (some k) v =
      if ltb (now - v.fetched_at) ttl
      then (some k, v)
      else refetched kid (refresh_keys now served v)

  -- key
  unfoldable pub signing_key :
      ℕ → ℕ → Option (List Jwk) → Text → OidcCache → Option PublicKey × OidcCache
  unfolding lookup_key refresh_keys
  signing_key ttl now served kid v =
      cached_or_refetched ttl now served kid (lookup_key kid v.keys) v

abbrev pub with_subject : Option OidcClaims → Option OidcClaims
with_subject none = none
with_subject (some c) = if text_eq c.subject [] then none else some c

module _ (decode : Text → Option (List ℕ)) (header_of : Text → Option TokenHeader)
    (claims_of : PublicKey → ℕ → Text → Option OidcClaims) (ttl : ℕ) where
  abbrev pub checked : ℕ → Text → Option PublicKey × OidcCache → Option OidcClaims × OidcCache
  checked now raw (none, v) = (none, v)
  checked now raw (some k, v) = (with_subject (claims_of k now raw), v)

  -- VerifyIDToken, with the document that a fetch would be served.
  unfoldable pub verify_id_token :
      ℕ → Option (List Jwk) → Text → OidcCache → Option OidcClaims × OidcCache
  unfolding signing_key
  verify_id_token now served raw v = elim (header_of raw) [
    | none ↦ (none, v)
    | some h ↦
        (if not h.is_rsa || text_eq h.kid []
          then (none, v)
          else checked now raw (signing_key decode ttl now served h.kid v))
  ]

-- ===== src/Admin/OidcLaws.antt =====
-- Proofs about Admin/Oidc: which keys a token is checked with.
use promo_go.Base.{
  ℕ, ◌-◌, true, false, Option, none, some, List, [], Text, text_eq, ltb, not, ◌||◌, ◌≡◌, ◌⊎◌, refl,
  arith, Bool-cases, Option-cases, inl, inr, subst, sym, if◌then◌else◌,
}
use promo_go.Admin.Oidc.{
  OidcClaims, TokenHeader, Jwk, PublicKey, OidcCache, lookup_key, collect_keys, refresh_keys,
  refetched, cached_or_refetched, signing_key, with_subject, checked, verify_id_token,
}

-- `published` tells the document that the provider serves at a time. The cache is empty or holds the
-- keys of the document of its time.
abbrev pub Cached : (Text → Option (List ℕ)) → (ℕ → Option (List Jwk)) → OidcCache → Type 0
Cached decode published v =
    (v.keys ≡ [])
    ⊎ ((doc : List Jwk) × (published v.fetched_at ≡ some doc)
        × (v.keys ≡ collect_keys decode doc []))

-- The key that a document, not older than the cache may be, has under the id.
abbrev pub Published :
    (Text → Option (List ℕ)) → (ℕ → Option (List Jwk)) → ℕ → ℕ → Text → PublicKey → Type 0
Published decode published ttl now kid k =
    (at : ℕ) × (doc : List Jwk) × ((at ≡ now) ⊎ (ltb (now - at) ttl ≡ true))
    × (published at ≡ some doc)
    × (lookup_key kid (collect_keys decode doc []) ≡ some k)

module _ (decode : Text → Option (List ℕ)) (published : ℕ → Option (List Jwk)) (ttl now : ℕ) where
  -- The key found, if any, is published.
  abbrev pub Found : Text → Option PublicKey × OidcCache → Type 0
  Found kid r =
      Cached decode published r.1
      × ((r.0 ≡ none)
          ⊎ ((k : PublicKey) × (r.0 ≡ some k) × Published decode published ttl now kid k))

  pub refresh_keys-Found :
      (kid : Text) (v : OidcCache) (served : Option (List Jwk))
      → published now ≡ served
      → Cached decode published v
      → Found kid (refetched decode kid (refresh_keys decode now served v))
  unfolding refresh_keys
  refresh_keys-Found kid v none down ok = (ok, inl refl)
  refresh_keys-Found kid v (some doc) up ok = (
    inr (doc, up, refl),
    elim (Option-cases (lookup_key kid (collect_keys decode doc []))) [
      | inl none' ↦ inl none'
      | inr (k, e) ↦ inr (k, e, (now, doc, inl refl, up, e))
    ],
  )

  pub lookup_key-Published :
      (kid : Text) (k : PublicKey) (v : OidcCache)
      → ltb (now - v.fetched_at) ttl ≡ true
      → lookup_key kid v.keys ≡ some k
      → Cached decode published v
      → Published decode published ttl now kid k
  unfolding lookup_key
  lookup_key-Published kid k v fresh found (inl empty) = absurd (grind arith)
  lookup_key-Published kid k v fresh found (inr (doc, served, same)) =
      (v.fetched_at, doc, inr fresh, served, grind arith)

  pub signing_key-Found :
      (kid : Text) (v : OidcCache)
      → Cached decode published v
      → Found kid (signing_key decode ttl now (published now) kid v)
  unfolding signing_key
  signing_key-Found kid v ok = elim (Option-cases (lookup_key kid v.keys)) [
    | inl none' ↦
        subst (λ o. Found kid (cached_or_refetched decode ttl now (published now) kid o v))
          (sym none') (refresh_keys-Found kid v (published now) refl ok)
    | inr (k, e) ↦
        subst (λ o. Found kid (cached_or_refetched decode ttl now (published now) kid o v)) (sym e)
          (elim (Bool-cases (ltb (now - v.fetched_at) ttl)) [
            | inl fresh ↦
                subst
                  (λ b. Found kid (
                    if b
                    then (some k, v)
                    else refetched decode kid (refresh_keys decode now (published now) v)))
                  (sym fresh) (ok, inr (k, refl, lookup_key-Published kid k v fresh e ok))
            | inr stale ↦
                subst
                  (λ b. Found kid (
                    if b
                    then (some k, v)
                    else refetched decode kid (refresh_keys decode now (published now) v)))
                  (sym stale) (refresh_keys-Found kid v (published now) refl ok)
          ])
  ]

-- A token with these claims was accepted.
abbrev pub Accepted :
    (Text → Option (List ℕ))
    → (Text → Option TokenHeader)
    → (PublicKey → ℕ → Text → Option OidcClaims)
    → (ℕ → Option (List Jwk))
    → ℕ
    → ℕ
    → Text
    → OidcClaims
    → Type 0
Accepted decode header_of claims_of published ttl now raw c =
    (h : TokenHeader) × (k : PublicKey) × (header_of raw ≡ some h)
    × (h.is_rsa ≡ true)
    × (text_eq h.kid [] ≡ false)
    × Published decode published ttl now h.kid k
    × (claims_of k now raw ≡ some c)
    × (text_eq c.subject [] ≡ false)

module _ (decode : Text → Option (List ℕ)) (header_of : Text → Option TokenHeader)
    (claims_of : PublicKey → ℕ → Text → Option OidcClaims) (published : ℕ → Option (List Jwk))
    (ttl now : ℕ) where
  -- What a verification ends in.
  abbrev pub Verified : Text → Option OidcClaims × OidcCache → Type 0
  Verified raw r =
      Cached decode published r.1
      × ((r.0 ≡ none)
          ⊎ ((c : OidcClaims) × (r.0 ≡ some c)
              × Accepted decode header_of claims_of published ttl now raw c))

  pub with_subject-some :
      (o : Option OidcClaims)
      → (with_subject o ≡ none)
        ⊎ ((c : OidcClaims) × (with_subject o ≡ some c)
            × (o ≡ some c)
            × (text_eq c.subject [] ≡ false))
  with_subject-some none = inl refl
  with_subject-some (some c) = elim (Bool-cases (text_eq c.subject [])) [
    | inl empty ↦ inl (ground arith)
    | inr given ↦ inr (c, ground arith, refl, given)
  ]

  pub checked-Verified :
      (raw : Text) (h : TokenHeader) (r : Option PublicKey × OidcCache)
      → header_of raw ≡ some h
      → h.is_rsa ≡ true
      → text_eq h.kid [] ≡ false
      → Found decode published ttl now h.kid r
      → Verified raw (checked decode header_of claims_of ttl now raw r)
  checked-Verified raw h (none, v) e rsa named (ok, found) = (ok, inl refl)
  checked-Verified raw h (some k, v) e rsa named (ok, inl none') = absurd (ground arith)
  checked-Verified raw h (some k, v) e rsa named (ok, inr (l, same, there)) = (
    ok,
    elim (with_subject-some (claims_of k now raw)) [
      | inl refused ↦ inl refused
      | inr (c, out, claims, given) ↦
          inr (c, out, (h, k, e, rsa, named, grind arith, claims, given))
    ],
  )

  -- A verification keeps the cache a copy of what the provider published at its time, whatever it
  -- ends in; and a token that it accepts is an RS256 one with a key id that names a subject, and the
  -- JWT library accepts it with the key that the provider published under that id, now or less than
  -- the cache's lifetime ago.
  pub verify_id_token-Verified :
      (raw : Text) (v : OidcCache)
      → Cached decode published v
      → Verified raw (verify_id_token decode header_of claims_of ttl now (published now) raw v)
  unfolding verify_id_token
  verify_id_token-Verified raw v ok = elim (Option-cases (header_of raw)) [
    | inl bad ↦ grind arith
    | inr (h, e) ↦ elim (Bool-cases (not h.is_rsa || text_eq h.kid [])) [
      | inl refused ↦ grind arith
      | inr fine ↦
          let good =
            checked-Verified raw h (signing_key decode ttl now (published now) h.kid v) e
              (ground arith) (ground arith)
              (signing_key-Found decode published ttl now h.kid v ok) in
          grind arith
    ]
  ]

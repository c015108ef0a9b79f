-- ===== src/ClientIp.antt =====
-- internal/httpserver/remoteaddr.go: the address that a request is counted and audited under. Addresses
-- and the prefixes of trusted proxies are parameters, as are their parsers (net and net/netip).
use promo_go.Base.{
  ℕ, ◌≡◌, refl, Bool, true, false, Option, none, some, List, [], ◌∷◌, ◌++◌, Text, ◌||◌, ◌==◌, arith,
  if◌then◌else◌, All, Bool-cases, Option-cases, inl, inr, ◌⊎◌,
}
use promo_go.Admin.Strings.{trim_space}

abbrev pub comma : ℕ
comma = 44

-- The part of strings.Cut(s, ",") before the comma, or all.
unfoldable pub before_comma : Text → Text
before_comma [] = []
before_comma (c ∷ s) = let rest = before_comma s in if c == comma then [] else c ∷ rest

abbrev pub or_host : Text → Text → Text
or_host host [] = host
or_host host (c ∷ s) = c ∷ s

-- The header's first entry, once the peer is trusted.
unfoldable pub forwarded : Text → Text → Text
unfolding before_comma
forwarded host xff = or_host host (trim_space (before_comma xff))

abbrev pub host_or_peer : Text → Option Text → Text
host_or_peer peer none = peer
host_or_peer peer (some host) = host

module _ {Addr Prefix : Type 0} (split_host_port : Text → Option Text)
    (parse_addr : Text → Option Addr) (contains_addr : Prefix → Addr → Bool) where
  -- The loop over the trusted prefixes.
  unfoldable pub is_trusted : List Prefix → Addr → Bool
  is_trusted [] a = false
  is_trusted (p ∷ ps) a = contains_addr p a || is_trusted ps a

  abbrev pub resolve_peer : List Prefix → Text → Text → Option Addr → Text
  resolve_peer proxies host xff none = host
  resolve_peer proxies host xff (some a) = if is_trusted proxies a then forwarded host xff else host

  -- resolveClientIP, on RemoteAddr and X-Forwarded-For.
  unfoldable pub resolve_client_ip : List Prefix → Text → Text → Text
  resolve_client_ip [] remote_addr xff = host_or_peer remote_addr (split_host_port remote_addr)
  resolve_client_ip (p ∷ ps) remote_addr xff =
      let host = host_or_peer remote_addr (split_host_port remote_addr) in
      resolve_peer (p ∷ ps) host xff (parse_addr host)

  abbrev pub peer_trusted : List Prefix → Option Addr → Bool
  peer_trusted proxies none = false
  peer_trusted proxies (some a) = is_trusted proxies a

pub before_comma-append :
    (claimed hops : Text)
    → All (λ c. (c == comma) ≡ false) claimed
    → before_comma (claimed ++ comma ∷ hops) ≡ claimed
unfolding before_comma
before_comma-append [] hops _ = refl
before_comma-append (c ∷ s) hops (other, rest) = ground (arith, before_comma-append s hops rest)

module _ {Addr Prefix : Type 0} (split_host_port : Text → Option Text)
    (parse_addr : Text → Option Addr) (contains_addr : Prefix → Addr → Bool) where
  -- The address of a request depends on the header exactly as far as the peer is a trusted proxy: behind
  -- any other peer the header changes nothing, and behind a trusted one whatever stands before the
  -- first comma is the address, so that what a client sends is taken over the addresses that the
  -- proxies append to it.
  pub resolve_client_ip_forwarded :
      (proxies : List Prefix) (remote_addr claimed hops other : Text)
      → All (λ c. (c == comma) ≡ false) claimed
      → let host = host_or_peer remote_addr (split_host_port remote_addr) in
        ((peer_trusted split_host_port parse_addr contains_addr proxies (parse_addr host) ≡ false)
          × (resolve_client_ip split_host_port parse_addr contains_addr proxies remote_addr
                (claimed ++ comma ∷ hops)
              ≡ resolve_client_ip split_host_port parse_addr contains_addr proxies remote_addr
                  other))
        ⊎ ((peer_trusted split_host_port parse_addr contains_addr proxies (parse_addr host) ≡ true)
            × (resolve_client_ip split_host_port parse_addr contains_addr proxies remote_addr
                  (claimed ++ comma ∷ hops)
                ≡ or_host host (trim_space claimed)))
  unfolding resolve_client_ip forwarded is_trusted
  resolve_client_ip_forwarded [] remote_addr claimed hops other plain = ground arith
  resolve_client_ip_forwarded (p ∷ ps) remote_addr claimed hops other plain =
      let host = host_or_peer remote_addr (split_host_port remote_addr) in
      let first = before_comma-append claimed hops plain in
      elim (Option-cases (parse_addr host)) [
        | inl none' ↦ inl (ground arith, ground arith)
        | inr (a, e) ↦
            elim (Bool-cases (is_trusted split_host_port parse_addr contains_addr (p ∷ ps) a)) [
              | inl trusted ↦ inr (ground arith, ground arith)
              | inr not' ↦ inl (ground arith, ground arith)
            ]
      ]

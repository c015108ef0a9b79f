-- ===== src/Examples/SignIns.antt =====
-- A sign-in of the boss of the small office: the theorem on it at work.
use promo_go.Base.{
  ℕ, ◌+◌, Option, some, [], ◌∷◌, Text, codes, refl, ◌≡◌, true, text_eq, Bool, List, inl,
}
use promo_go.Admin.Handler.{AdminDb, audit_create, modify, pure}
use promo_go.Admin.Gate.{AccessClaims}
use promo_go.Admin.Oidc.{OidcClaims, OidcCache, PublicKey, TokenHeader, Jwk, verify_id_token}
use promo_go.Admin.Staff.{find_by_subject}
use promo_go.Admin.SignIn.{
  Pause, before_update_profile, before_create, before_read_again, before_memberships, before_token,
  before_audit, SignInCall, authenticate_oidc, resolve_or_create_user, sign_in_as,
  save_staff_profile,
}
use promo_go.Admin.SignInLaws.{HasSubject, SignsIn, authenticate_oidc-SignedIn}
use promo_go.Domain.Rbac.{StaffUser}
use promo_go.Staff.Principal.{load_principal}
use promo_go.Examples.Office.{works, office, boss}
use promo_go.Admin.OidcLaws.{Verified, verify_id_token-Verified}

-- ID tokens that are their subject, and access tokens that are theirs.
abbrev open_id : Text → Option OidcClaims
open_id raw = some (record { subject = raw; email = codes "b@n"; name = codes "Boss" })

abbrev digit : ℕ → Text
digit n = (48 + n) ∷ []

abbrev sign_openly : AccessClaims → ℕ → Option Text
sign_openly c ends = some c.subject

abbrev answers : SignInCall → Bool
answers _ = true

-- Before the audit event is written, another request takes all memberships away.
abbrev meddling : Pause → AdminDb → AdminDb
meddling before_audit d = record d { memberships = [] }
meddling before_update_profile d = d
meddling before_create d = d
meddling before_read_again d = d
meddling before_memberships d = d
meddling before_token d = record d { now = 107 }

abbrev signed_office : AdminDb
signed_office =
    (authenticate_oidc open_id digit sign_openly 60 answers works meddling (codes "boss")
      (codes "10.0.0.1") (codes "test") office).1

authenticate_oidc-SignedIn_example :
    (c : OidcClaims) × (u : StaffUser) × (open_id (codes "boss") ≡ some c)
    × HasSubject c.subject u
    × ((resolve_or_create_user answers meddling c office).0 ≡ some u)
    × SignsIn digit sign_openly 60 meddling u
        (codes "2")
        boss.held
        (resolve_or_create_user answers meddling c office).1
        signed_office
unfolding authenticate_oidc resolve_or_create_user sign_in_as save_staff_profile find_by_subject
    load_principal audit_create modify pure text_eq
authenticate_oidc-SignedIn_example =
    authenticate_oidc-SignedIn digit sign_openly 60 open_id answers works meddling (codes "boss")
      (codes "10.0.0.1") (codes "test") (codes "2") boss.held office signed_office refl

abbrev letters : Text → Option (List ℕ)
letters s = some s

abbrev first_key : Text → Option TokenHeader
first_key raw = some (record { is_rsa = true; kid = codes "k1" })

abbrev publish : ℕ → Option (List Jwk)
publish at =
    some (record { kty = codes "RSA"; kid = codes "k1"; n = codes "AQ"; e = codes "Aw" } ∷ [])

abbrev claims_by : PublicKey → ℕ → Text → Option OidcClaims
claims_by k now raw = open_id raw

abbrev no_keys : OidcCache
no_keys = record { keys = []; fetched_at = 0 }

verify_id_token-Verified_example :
    Verified letters first_key claims_by publish 3600 100
      (codes "boss")
      (verify_id_token letters first_key claims_by 3600 100 (publish 100) (codes "boss") no_keys)
verify_id_token-Verified_example =
    verify_id_token-Verified letters first_key claims_by publish 3600 100 (codes "boss") no_keys
      (inl refl)

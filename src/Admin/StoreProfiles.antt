-- ===== src/Admin/StoreProfiles.antt =====
-- Proofs about Admin/Stores: what the handlers check of a store's profile.
use promo_go.Base.{
  ◌≤◌, ◌≡◌, ◌≢◌, refl, Bool, true, Option, none, some, [], ◌∷◌, Text, length, arith, ltb,
  Bool-cases, Option-cases, inl, inr, ◌⊎◌, subst,
}
use promo_go.Domain.{Store}
use promo_go.Admin.Staff.{is_some}
use promo_go.Admin.Strings.{normalize_name, trim_space}
use promo_go.Admin.Stores.{
  StoreProfileBody, apply_name, apply_address, apply_external_code, apply_sms, apply_to, then_apply,
  code_or_none, max_address_length, max_external_code_length,
}

abbrev pub CodeOk : Option Text → Type 0
CodeOk none = Unit
CodeOk (some c) = (c ≢ []) × (length c ≤ 64)

-- The name is a normalized one, the address is at most 500 and a code from 1 to 64 long.
abbrev pub ProfileOk : Store → Type 0
ProfileOk s =
    ((raw : Text) × (normalize_name raw ≡ some s.name))
    × (length s.address ≤ 500)
    × CodeOk s.external_code

-- The same but for the name, which a new store does not have yet.
abbrev pub LimitsOk : Store → Type 0
LimitsOk s = (length s.address ≤ 500) × CodeOk s.external_code

abbrev pub SameRow : Store → Store → Type 0
SameRow s t = (t.id ≡ s.id) × (t.organization_id ≡ s.organization_id)

pub then_apply-some :
    (f : Store → Option Store) (o : Option Store) (t : Store)
    → then_apply f o ≡ some t
    → (s : Store) × (o ≡ some s) × (f s ≡ some t)
then_apply-some f none t h = absurd (ground arith)
then_apply-some f (some s) t h = (s, refl, h)

pub apply_name-ProfileOk :
    (o : Option Text) (s t : Store)
    → apply_name o s ≡ some t
    → ((raw : Text) × (normalize_name raw ≡ some s.name)) ⊎ (is_some o ≡ true)
    → LimitsOk s
    → ProfileOk t × SameRow s t
unfolding apply_name
apply_name-ProfileOk none s t h (inl (raw, named)) (address, code) =
    let same : s ≡ t = ground arith in
    subst (λ x. ProfileOk x × SameRow s x) same (((raw, named), address, code), (refl, refl))
apply_name-ProfileOk none s t h (inr bad) limits = absurd (ground arith)
apply_name-ProfileOk (some raw) s t h _ (address, code) = elim (Option-cases (normalize_name raw)) [
  | inl bad ↦ absurd (ground arith)
  | inr (name, good) ↦
      let same : record s { name = name } ≡ t = ground arith in
      subst (λ x. ProfileOk x × SameRow s x) same (((raw, good), address, code), (refl, refl))
]

pub apply_address-ProfileOk :
    (o : Option Text) (s t : Store)
    → apply_address o s ≡ some t
    → ProfileOk s
    → ProfileOk t × SameRow s t
unfolding apply_address
apply_address-ProfileOk none s t h ok =
    let same : s ≡ t = ground arith in
    subst (λ x. ProfileOk x × SameRow s x) same (ok, (refl, refl))
apply_address-ProfileOk (some raw) s t h (named, address, code) =
    elim (Bool-cases (ltb max_address_length (length (trim_space raw)))) [
      | inl long ↦ absurd (ground arith)
      | inr short ↦
          let same : record s { address = trim_space raw } ≡ t = ground arith in
          subst (λ x. ProfileOk x × SameRow s x) same ((named, ground arith, code), (refl, refl))
    ]

pub code_or_none-CodeOk : (c : Text) → length c ≤ 64 → CodeOk (code_or_none c)
code_or_none-CodeOk [] short = tt
code_or_none-CodeOk (c ∷ s) short = (λ e. absurd (ground arith), short)

pub apply_external_code-ProfileOk :
    (o : Option Text) (s t : Store)
    → apply_external_code o s ≡ some t
    → ProfileOk s
    → ProfileOk t × SameRow s t
unfolding apply_external_code
apply_external_code-ProfileOk none s t h ok =
    let same : s ≡ t = ground arith in
    subst (λ x. ProfileOk x × SameRow s x) same (ok, (refl, refl))
apply_external_code-ProfileOk (some raw) s t h (named, address, code) =
    elim (Bool-cases (ltb max_external_code_length (length (trim_space raw)))) [
      | inl long ↦ absurd (ground arith)
      | inr short ↦
          let same : record s { external_code = code_or_none (trim_space raw) } ≡ t =
            ground arith in
          subst (λ x. ProfileOk x × SameRow s x) same
            ((named, address, code_or_none-CodeOk (trim_space raw) (ground arith)), (refl, refl))
    ]

pub apply_sms-ProfileOk :
    (o : Option Bool) (s : Store)
    → ProfileOk s
    → ProfileOk (apply_sms o s) × SameRow s (apply_sms o s)
apply_sms-ProfileOk none s ok = (ok, (refl, refl))
apply_sms-ProfileOk (some b) s ok = (ok, (refl, refl))

-- A body that is accepted gives a profile within the limits, of the same row.
pub apply_to-ProfileOk :
    (b : StoreProfileBody) (s t : Store)
    → apply_to b s ≡ some t
    → ((raw : Text) × (normalize_name raw ≡ some s.name)) ⊎ (is_some b.name ≡ true)
    → LimitsOk s
    → ProfileOk t × SameRow s t
unfolding apply_to
apply_to-ProfileOk b s t h name limits =
    let (c, first, sms) = then_apply-some _ _ t h in
    let (a, second, coded) = then_apply-some _ _ c first in
    let (n, third, addressed) = then_apply-some _ _ a second in
    let (n_ok, n_row) = apply_name-ProfileOk b.name s n third name limits in
    let (a_ok, a_row) = apply_address-ProfileOk b.address n a addressed n_ok in
    let (c_ok, c_row) = apply_external_code-ProfileOk b.external_code a c coded a_ok in
    let (t_ok, t_row) = apply_sms-ProfileOk b.sms_invite_enabled c c_ok in
    let same : apply_sms b.sms_invite_enabled c ≡ t = ground arith in
    subst (λ x. ProfileOk x × SameRow s x) same (t_ok, (ground arith, ground arith))

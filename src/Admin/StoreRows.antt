-- ===== src/Admin/StoreRows.antt =====
-- Proofs about Admin/Stores: the writes of stores, the profiles, and the stores of one organization.
use promo_go.Base.{
  ℕ, ◌≡◌, ◌≢◌, refl, subst, Bool, false, some, List, [], ◌∷◌, Text, arith, All, ◌==◌, Bool-cases,
  inl, inr, if◌then◌else◌, ◌⊎◌, ◌∙◌,
}
use promo_go.Domain.{Store, AuditEvent}
use promo_go.Admin.Handler.{
  AdminDb, AdminCall, create_organization, insert_event, save_store, create_store,
}
use promo_go.Admin.Keeps.{
  Keeps, Keeps->>=, Keeps-require, Keeps-present, Keeps-gets, Keeps-modify, Keeps-pure,
}
use promo_go.Admin.StoreCodes.{save_profile-All}
use promo_go.Admin.StoreProfiles.{ProfileOk}
use promo_go.Admin.Stores.{
  save_profile, insert_store, add_store, update_profile, store_created, save_organization,
  code_taken,
}
use promo_go.Admin.Staff.{is_some, find_organization}
use promo_go.Loyalty.Queries.{find_store}

unfoldable pub stores_in : ℕ → List Store → List Store
stores_in org [] = []
stores_in org (s ∷ ss) = if s.organization_id == org then s ∷ stores_in org ss else stores_in org ss

-- The profiles are within their limits, and the stores of the organization are these.
abbrev pub Own : ℕ → List Store → AdminDb → Type 0
Own org rows d = All ProfileOk d.stores × (stores_in org d.stores ≡ rows)

-- And the rows of one id are not of that organization.
abbrev pub Away : ℕ → ℕ → List Store → AdminDb → Type 0
Away id org rows d =
    Own org rows d × All (λ t. ((t.id == id) ≡ false) ⊎ (t.organization_id ≢ org)) d.stores

pub stores_in-save_profile :
    (org : ℕ) (s : Store) (ss : List Store)
    → All (λ t. ((t.id == s.id) ≡ false) ⊎ (t.organization_id ≢ org)) ss
    → stores_in org (save_profile s ss) ≡ stores_in org ss
unfolding stores_in save_profile
stores_in-save_profile org s [] all = refl
stores_in-save_profile org s (t ∷ ss) (inl other, all) =
    ground (arith, stores_in-save_profile org s ss all)
stores_in-save_profile org s (t ∷ ss) (inr away, all) = elim (Bool-cases (t.id == s.id)) [
  | inl same ↦ ground (arith, stores_in-save_profile org s ss all)
  | inr other ↦ ground (arith, stores_in-save_profile org s ss all)
]

pub find_store-All :
    (P : Store → Type 0) (id : ℕ) (ss : List Store) (s : Store)
    → All P ss
    → find_store id ss ≡ some s
    → P s
unfolding find_store
find_store-All P id [] s all h = absurd (ground arith)
find_store-All P id (t ∷ ss) s (first, all) h = elim (Bool-cases (t.id == id)) [
  | inl same ↦ let e : t ≡ s = ground arith in subst P e first
  | inr other ↦ find_store-All P id ss s all (ground arith)
]

module _ (up : AdminCall → Bool) (org : ℕ) (rows : List Store) where
  pub save_organization-Own : (name : Text) → Keeps (Own org rows) (save_organization up name)
  unfolding save_organization
  save_organization-Own name = Keeps-require _ (up create_organization) 500 _ λ _.
      Keeps->>= _ _ _ (Keeps-gets _ _)
        λ o. Keeps->>= _ _ _ (Keeps-modify _ _ (λ d p. p)) λ _. Keeps-pure _ o

  pub add_store-Own :
      (s : Store) (d : AdminDb)
      → ProfileOk s
      → s.organization_id ≢ org
      → Own org rows d
      → Own org rows (add_store s d)
  unfolding stores_in
  add_store-Own s d ok away (all, same) = ((ok, all), ground arith)

  pub store_created-Own :
      (draft : Store)
      → ProfileOk draft
      → draft.organization_id ≢ org
      → Keeps (Own org rows) (store_created up draft)
  unfolding Keeps store_created insert_store
  store_created-Own draft ok away d p =
      let s : Store = record draft { id = d.next_id } in
      let next = add_store-Own s d ok away p in
      elim (Bool-cases (up create_store)) [
        | inr down ↦
            (let runs : d ≡ (store_created up draft d).1 = ground arith in
              subst (Own org rows) runs p)
        | inl works ↦ elim (Bool-cases (code_taken s d.stores)) [
          | inl taken ↦
              (let runs : d ≡ (store_created up draft d).1 = ground arith in
                subst (Own org rows) runs p)
          | inr free ↦
              elim (Bool-cases
                (is_some (find_organization draft.organization_id d.organizations))) [
                  | inr missing ↦
                      (let runs : d ≡ (store_created up draft d).1 = ground arith in
                        subst (Own org rows) runs p)
                  | inl there ↦
                      (let runs : add_store s d ≡ (store_created up draft d).1 = ground arith in
                        subst (Own org rows) runs next)
                ]
        ]
      ]

  pub save_profile-Away :
      (s : Store) (d : AdminDb)
      → ProfileOk s
      → Away s.id org rows d
      → Away s.id org rows (record d { stores = save_profile s d.stores })
  save_profile-Away s d ok ((all, same), away) = (
    (
      save_profile-All ProfileOk s d.stores (λ t _. ok) all,
      stores_in-save_profile org s d.stores away ∙ same,
    ),
    save_profile-All (λ t. ((t.id == s.id) ≡ false) ⊎ (t.organization_id ≢ org)) s d.stores
        (λ t h. h) away,
  )

  pub update_profile-Away :
      (s : Store) → ProfileOk s → Keeps (Away s.id org rows) (update_profile up s)
  unfolding update_profile
  update_profile-Away s ok = Keeps-require _ (up save_store) 500 _ λ _.
      Keeps->>= _ _ _ (Keeps-gets _ _) λ found. Keeps-present _ found 404 _ λ row _.
        Keeps->>= _ _ _ (Keeps-gets _ _)
          λ taken. Keeps-require _ _ 409 _ λ _. Keeps-modify _ _ (λ d p. save_profile-Away s d ok p)

  pub audit-Own :
      (event : AdminDb → AuditEvent) (d : AdminDb)
      → Own org rows d
      → Own org rows (insert_event event d)
  audit-Own event d p = p

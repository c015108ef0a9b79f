-- ===== src/Admin/StoresKept.antt =====
-- Proofs about Admin/Stores: every handler keeps external codes unique.
use promo_go.Base.{
  ℕ, suc, ◌<◌, ◌≡◌, refl, subst, Bool, false, Option, some, List, [], ◌∷◌, Text, arith, All, ◌==◌,
  Bool-cases, Option-cases, inl, inr, All-map,
}
use promo_go.Domain.{Store, AuditEvent}
use promo_go.Admin.Handler.{
  AdminDb, AdminCall, Caller, pure, gets, modify, ◌>>=◌, require, present, create_organization,
  refuse, insert_event, load_store, save_store, create_store,
}
use promo_go.Admin.Keeps.{
  Keeps, Keeps->>=, Keeps-require, Keeps-present, Keeps-gets, Keeps-modify, Keeps-run, Keeps-pure,
  Keeps-audit_create,
}
use promo_go.Admin.Requests.{
  StoreRequest, create_organization_request, create_store_request, update_store_request, StoreCall,
  run_store_request, run_store_requests,
}
use promo_go.Admin.Keys.{resolve_scoped_store}
use promo_go.Admin.StoreCodes.{StoresOk, save_profile-Unclashing, save_profile-All, Compatible-new}
use promo_go.Admin.Stores.{
  StoreProfileBody, code_taken, with_profile, save_profile, insert_store, add_store, update_profile,
  store_created, handle_create_store, handle_update_store, handle_create_organization,
  save_organization, apply_to, new_store,
}
use promo_go.Loyalty.Queries.{find_store}
use promo_go.Admin.Gate.{path_id}
use promo_go.Admin.Strings.{normalize_name}
use promo_go.Admin.KeyLaws.{find_store_id}
use promo_go.Admin.Staff.{is_some, find_organization}

pub below_suc : (n : ℕ) (ss : List Store) → All (λ s. s.id < n) ss → All (λ s. s.id < suc n) ss
below_suc n ss all = All-map ss (λ s lt. omega arith) all

pub insert_event-StoresOk :
    (event : AdminDb → AuditEvent) (d : AdminDb) → StoresOk d → StoresOk (insert_event event d)
insert_event-StoresOk event d (ok, below) = (ok, below_suc d.next_id d.stores below)

pub add_store-StoresOk :
    (s : Store) (d : AdminDb)
    → code_taken s d.stores ≡ false
    → d.next_id ≡ s.id
    → StoresOk d
    → StoresOk (add_store s d)
add_store-StoresOk s d free id (ok, below) = (
  (Compatible-new s d.stores free (All-map d.stores (λ t lt. ground arith) below), ok),
  (ground arith, below_suc d.next_id d.stores below),
)

module _ (up : AdminCall → Bool) where
  pub store_created-Keeps : (draft : Store) → Keeps StoresOk (store_created up draft)
  unfolding Keeps store_created insert_store
  store_created-Keeps draft d (ok, below) =
      elim (Bool-cases (code_taken (record draft { id = d.next_id }) d.stores)) [
        | inl taken ↦ ground arith
        | inr free ↦ elim (Bool-cases (up create_store)) [
          | inr down ↦ ground arith
          | inl works ↦
              elim (Bool-cases
                (is_some (find_organization draft.organization_id d.organizations))) [
                  | inr missing ↦ ground arith
                  | inl there ↦
                      let s : Store = record draft { id = d.next_id } in
                      let runs : add_store s d ≡ (store_created up draft d).1 = ground arith in
                      subst StoresOk runs (add_store-StoresOk s d free refl (ok, below))
                ]
        ]
      ]

  pub save_organization-Keeps : (name : Text) → Keeps StoresOk (save_organization up name)
  unfolding save_organization
  save_organization-Keeps name = Keeps-require _ (up create_organization) 500 _ λ _.
      Keeps->>= _ _ _ (Keeps-gets _ _) λ org.
        Keeps->>= _ _ _ (Keeps-modify _ _ (λ d p. (p.0, below_suc d.next_id d.stores p.1)))
          λ _. Keeps-pure _ org

  pub save_profile-StoresOk :
      (s row : Store) (d : AdminDb)
      → find_store s.id d.stores ≡ some row
      → code_taken (with_profile s row) d.stores ≡ false
      → StoresOk d
      → StoresOk (record d { stores = save_profile s d.stores })
  save_profile-StoresOk s row d found free (ok, below) = (
    save_profile-Unclashing s row d.stores ok found free
        (ground (arith, find_store_id s.id d.stores row found)),
    save_profile-All (λ t. t.id < d.next_id) s d.stores (λ t lt. lt) below,
  )

  pub update_profile-Keeps : (s : Store) → Keeps StoresOk (update_profile up s)
  unfolding Keeps update_profile ◌>>=◌ gets require present pure refuse modify
  update_profile-Keeps s d p = elim (Bool-cases (up save_store)) [
    | inr down ↦ ground arith
    | inl works ↦ elim (Option-cases (find_store s.id d.stores)) [
      | inl none' ↦ ground arith
      | inr (row, found) ↦ elim (Bool-cases (code_taken (with_profile s row) d.stores)) [
        | inl taken ↦ ground arith
        | inr free ↦ let next = save_profile-StoresOk s row d found free p in ground arith
      ]
    ]
  ]

  pub resolve_scoped_store-Keeps :
      (P : AdminDb → Type 0) (org_path store_path : Text)
      → Keeps P (resolve_scoped_store up org_path store_path)
  unfolding resolve_scoped_store
  resolve_scoped_store-Keeps P org_path store_path =
      Keeps-present P (path_id org_path) 400 _ λ org _.
        Keeps-present P (path_id store_path) 400 _ λ id _.
          Keeps-require P (up load_store) 500 _ λ _.
            Keeps->>= P _ _ (Keeps-gets P (λ d. find_store id d.stores)) λ found.
              Keeps-present P found 404 _ λ store _.
                Keeps-require P (store.organization_id == org) 404 _ λ _. Keeps-pure P (store, org)

  pub handle_create_organization-Keeps :
      (sent : Option Text) (caller : Caller)
      → Keeps StoresOk (handle_create_organization up sent caller)
  unfolding handle_create_organization
  handle_create_organization-Keeps sent caller = Keeps-present _ sent 400 _ λ raw _.
      Keeps-present _ (normalize_name raw) 400 _ λ name _.
        Keeps->>= _ _ _ (save_organization-Keeps name) λ org.
          Keeps->>= _ _ _ (Keeps-audit_create _ up caller _ _ _ _ _ _ insert_event-StoresOk)
            λ _. Keeps-pure _ org

  pub handle_create_store-Keeps :
      (org_path : Text) (sent : Option StoreProfileBody) (caller : Caller)
      → Keeps StoresOk (handle_create_store up org_path sent caller)
  unfolding handle_create_store
  handle_create_store-Keeps org_path sent caller = Keeps-present _ (path_id org_path) 400 _ λ org _.
      Keeps-present _ sent 400 _ λ body _. Keeps-require _ _ 400 _ λ _.
        Keeps-present _ (apply_to body (new_store org)) 400 _ λ draft _.
          Keeps->>= _ _ _ (store_created-Keeps draft) λ store.
            Keeps->>= _ _ _ (Keeps-audit_create _ up caller _ _ _ _ _ _ insert_event-StoresOk)
              λ _. Keeps-pure _ store

  pub handle_update_store-Keeps :
      (org_path store_path : Text) (sent : Option StoreProfileBody) (caller : Caller)
      → Keeps StoresOk (handle_update_store up org_path store_path sent caller)
  unfolding handle_update_store
  handle_update_store-Keeps org_path store_path sent caller =
      Keeps->>= _ _ _ (resolve_scoped_store-Keeps StoresOk org_path store_path) λ scoped.
        Keeps-present _ sent 400 _ λ body _.
          Keeps-present _ (apply_to body scoped.0) 400 _ λ store _.
            Keeps->>= _ _ _ (update_profile-Keeps store) λ _.
              Keeps->>= _ _ _ (Keeps-audit_create _ up caller _ _ _ _ _ _ insert_event-StoresOk)
                λ _. Keeps-pure _ store

pub run_store_request-StoresOk :
    (up : AdminCall → Bool) (caller : Caller) (r : StoreRequest) (d : AdminDb)
    → StoresOk d
    → StoresOk (run_store_request up caller r d)
unfolding run_store_request
run_store_request-StoresOk up caller (create_organization_request name) d =
    Keeps-run StoresOk _ d (handle_create_organization-Keeps up name caller)
run_store_request-StoresOk up caller (create_store_request org body) d =
    Keeps-run StoresOk _ d (handle_create_store-Keeps up org body caller)
run_store_request-StoresOk up caller (update_store_request org id body) d =
    Keeps-run StoresOk _ d (handle_update_store-Keeps up org id body caller)

-- Requests on organizations and stores, in any number and with any failing calls, keep it so that no
-- external code is used twice in an organization and that ids differ and are below the counter.
pub run_store_requests-StoresOk :
    (cs : List StoreCall) (d : AdminDb) → StoresOk d → StoresOk (run_store_requests cs d)
unfolding run_store_requests
run_store_requests-StoresOk [] d ok = ok
run_store_requests-StoresOk (c ∷ cs) d ok =
    run_store_requests-StoresOk cs (run_store_request c.up c.caller c.request d)
      (run_store_request-StoresOk c.up c.caller c.request d ok)

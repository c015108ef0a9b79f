-- ===== src/Admin/StoresOwn.antt =====
-- Proofs about Admin/Stores: a request keeps the profiles within their limits and reaches only the
-- stores of the organization in its path.
use promo_go.Base.{
  ℕ, ◌≡◌, ◌≢◌, refl, sym, subst, Bool, false, Option, some, List, [], ◌∷◌, Text, arith, All, ◌==◌,
  inl, inr, All-map, ◌⊎◌, ◌∙◌, ap, codes,
}
use promo_go.Domain.{Store}
use promo_go.Admin.Handler.{
  AdminDb, AdminCall, Caller, pure, ◌>>=◌, ◌>>◌, present, refuse, Handler, Reply, audit_create,
  resume, refused, done,
}
use promo_go.Admin.Keeps.{
  Keeps, Keeps->>=, Keeps-require, Keeps-present, Keeps-run, Keeps-pure, Keeps-audit_create,
}
use promo_go.Admin.StoreCodes.{StoresOk, Homed, find_store-Homed}
use promo_go.Admin.StoreRows.{
  stores_in, Own, Away, find_store-All, save_organization-Own, store_created-Own,
  update_profile-Away, audit-Own,
}
use promo_go.Admin.StoreProfiles.{ProfileOk, apply_to-ProfileOk}
use promo_go.Admin.Stores.{
  StoreProfileBody, update_profile, new_store, apply_to, handle_create_store, handle_update_store,
  handle_create_organization, updated_metadata,
}
use promo_go.Admin.Strings.{normalize_name}
use promo_go.Admin.Gate.{path_id}
use promo_go.Admin.Keys.{resolve_scoped_store}
use promo_go.Admin.Requests.{
  StoreRequest, run_store_request, run_store_requests, StoreCall, create_organization_request,
  create_store_request, update_store_request,
}
use promo_go.Admin.StoresKept.{
  resolve_scoped_store-Keeps, run_store_request-StoresOk, run_store_requests-StoresOk,
}
use promo_go.Admin.KeyLaws.{resolve_scoped_store-Runs, find_store_id}

-- handleUpdateStore after resolveScopedStore.
abbrev update_rest :
    (AdminCall → Bool) → Store → ℕ → Option StoreProfileBody → Caller → Handler Store
update_rest up s o sent caller = present 400 sent >>= λ body.
    present 400 (apply_to body s) >>= λ store.
    update_profile up store
    >> (audit_create up caller (codes "store.updated") (some o) (some store.id) (codes "store")
          (some store.id) (updated_metadata store body.sms_invite_enabled)
        >> pure store)

module _ (up : AdminCall → Bool) (org : ℕ) (rows : List Store) where
  pub handle_create_organization-Own :
      (sent : Option Text) (caller : Caller)
      → Keeps (Own org rows) (handle_create_organization up sent caller)
  unfolding handle_create_organization
  handle_create_organization-Own sent caller = Keeps-present _ sent 400 _ λ raw _.
      Keeps-present _ (normalize_name raw) 400 _ λ name _.
        Keeps->>= _ _ _ (save_organization-Own up org rows name) λ o.
          Keeps->>= _ _ _ (Keeps-audit_create _ up caller _ _ _ _ _ _ (audit-Own up org rows))
            λ _. Keeps-pure _ o

  pub handle_create_store-Own :
      (org_path : Text) (sent : Option StoreProfileBody) (caller : Caller)
      → path_id org_path ≢ some org
      → Keeps (Own org rows) (handle_create_store up org_path sent caller)
  unfolding handle_create_store
  handle_create_store-Own org_path sent caller ne =
      Keeps-present _ (path_id org_path) 400 _ λ o here. Keeps-present _ sent 400 _ λ body _.
        Keeps-require _ _ 400 _ λ given.
          Keeps-present _ (apply_to body (new_store o)) 400 _ λ draft applied.
            let (ok, row) =
              apply_to-ProfileOk body (new_store o) draft applied (inr given) (omega arith, tt) in
            Keeps->>= _ _ _
              (store_created-Own up org rows draft ok
                (λ same. ne (here ∙ ap some (sym row.1 ∙ same))))
              λ store.
                Keeps->>= _ _ _ (Keeps-audit_create _ up caller _ _ _ _ _ _ (audit-Own up org rows))
                  λ _. Keeps-pure _ store

  -- From the store that the path names on.
  pub update_rest-Away :
      (s : Store) (o : ℕ) (sent : Option StoreProfileBody) (caller : Caller)
      → ProfileOk s
      → Keeps (Away s.id org rows) (update_rest up s o sent caller)
  update_rest-Away s o sent caller ok = Keeps-present _ sent 400 _ λ body _.
      Keeps-present _ (apply_to body s) 400 _ λ store applied.
        let (named, address, code) = ok in
        let (fine, row) = apply_to-ProfileOk body s store applied (inl named) (address, code) in
        Keeps->>= _ _ _
          (subst (λ i. Keeps (Away i org rows) (update_profile up store)) row.0
            (update_profile-Away up org rows store fine))
          λ _.
            Keeps->>= _ _ _ (Keeps-audit_create _ up caller _ _ _ _ _ _ (λ event d p. p))
              λ _. Keeps-pure _ store

  pub Homed-Away :
      (id o : ℕ) (t : Store)
      → o ≢ org
      → Homed id o t
      → ((t.id == id) ≡ false) ⊎ (t.organization_id ≢ org)
  Homed-Away id o t ne (inl other) = inl other
  Homed-Away id o t ne (inr home) = inr (λ h. ne (sym home ∙ h))

  pub resumed-Own :
      (org_path store_path : Text) (sent : Option StoreProfileBody) (caller : Caller)
      (d e : AdminDb) (r : Reply (Store × ℕ))
      → path_id org_path ≢ some org
      → resolve_scoped_store up org_path store_path d ≡ (r, e)
      → StoresOk d
      → Own org rows d
      → Own org rows e
      → Own org rows (resume (λ scoped. update_rest up scoped.0 scoped.1 sent caller) r e).1
  unfolding refuse
  resumed-Own org_path store_path sent caller d e (refused status) ne ran ok p q = q
  resumed-Own org_path store_path sent caller d e (done (s, o)) ne ran (codes_ok, _) p q =
      let (same, (id, _, found), here, mine) =
        resolve_scoped_store-Runs up org_path store_path d e s o (record { ran = ran }) in
      let away : s.organization_id ≢ org = λ h. ne (here ∙ ap some (sym mine ∙ h)) in
      let homed = find_store-Homed id d.stores s codes_ok found in
      let apart = All-map d.stores (λ t h. Homed-Away id s.organization_id t away h) homed in
      let named : id ≡ s.id = sym (find_store_id id d.stores s found) in
      let profile = find_store-All ProfileOk id d.stores s p.0 found in
      subst (λ x. Own org rows (update_rest up s o sent caller x).1) same
        (Keeps-run (Away s.id org rows) (update_rest up s o sent caller) d
          (update_rest-Away s o sent caller profile)
          (
            p,
            subst (λ i. All (λ t. ((t.id == i) ≡ false) ⊎ (t.organization_id ≢ org)) d.stores) named
                apart,
          )).0

  pub handle_update_store-Own :
      (org_path store_path : Text) (sent : Option StoreProfileBody) (caller : Caller) (d : AdminDb)
      → path_id org_path ≢ some org
      → StoresOk d
      → Own org rows d
      → Own org rows (handle_update_store up org_path store_path sent caller d).1
  unfolding handle_update_store ◌>>=◌
  handle_update_store-Own org_path store_path sent caller d ne ok p =
      let found = resolve_scoped_store up org_path store_path d in
      resumed-Own org_path store_path sent caller d found.1 found.0 ne refl ok p (
        Keeps-run (Own org rows) (resolve_scoped_store up org_path store_path) d
          (resolve_scoped_store-Keeps up (Own org rows) org_path store_path) p)

-- A request that names another organization in its path, or none.
abbrev pub NamesOther : ℕ → StoreRequest → Type 0
NamesOther org (create_organization_request name) = Unit
NamesOther org (create_store_request org_path body) = path_id org_path ≢ some org
NamesOther org (update_store_request org_path id body) = path_id org_path ≢ some org

pub run_store_request-Own :
    (up : AdminCall → Bool) (caller : Caller) (org : ℕ) (rows : List Store) (r : StoreRequest)
    (d : AdminDb)
    → NamesOther org r
    → StoresOk d
    → Own org rows d
    → Own org rows (run_store_request up caller r d)
unfolding run_store_request
run_store_request-Own up caller org rows (create_organization_request name) d ne ok p =
    Keeps-run (Own org rows) _ d (handle_create_organization-Own up org rows name caller) p
run_store_request-Own up caller org rows (create_store_request path body) d ne ok p =
    Keeps-run (Own org rows) _ d (handle_create_store-Own up org rows path body caller ne) p
run_store_request-Own up caller org rows (update_store_request path id body) d ne ok p =
    handle_update_store-Own up org rows path id body caller d ne ok p

pub run_store_requests-Own :
    (cs : List StoreCall) (org : ℕ) (rows : List Store) (d : AdminDb)
    → All (λ c. NamesOther org c.request) cs
    → StoresOk d
    → Own org rows d
    → Own org rows (run_store_requests cs d)
unfolding run_store_requests
run_store_requests-Own [] org rows d _ ok p = p
run_store_requests-Own (c ∷ cs) org rows d (ne, rest) ok p =
    run_store_requests-Own cs org rows (run_store_request c.up c.caller c.request d) rest
      (run_store_request-StoresOk c.up c.caller c.request d ok)
      (run_store_request-Own c.up c.caller org rows c.request d ne ok p)

-- Requests on organizations and stores, in any number and with any failing calls, none of which names
-- a certain organization in its path, leave every store of that organization as it is; every
-- store keeps a normalized name, an address of at most 500 and a code of 1 to 64 characters or none;
-- and external codes stay different within an organization, ids different and below the counter; if
-- the stores were so before.
pub run_store_requests_kept :
    (cs : List StoreCall) (org : ℕ) (d : AdminDb)
    → All (λ c. NamesOther org c.request) cs
    → StoresOk d
    → All ProfileOk d.stores
    → let e = run_store_requests cs d in
      StoresOk e × All ProfileOk e.stores × (stores_in org e.stores ≡ stores_in org d.stores)
run_store_requests_kept cs org d ne ok profiles =
    let (kept, same) =
      run_store_requests-Own cs org (stores_in org d.stores) d ne ok (profiles, refl) in
    (run_store_requests-StoresOk cs d ok, kept, same)

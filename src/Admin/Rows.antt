-- ===== src/Admin/Rows.antt =====
-- Proofs about staff_memberships: selections of rows, and what an update of one row leaves of them.
use promo_go.Base.{
  ℕ, suc, ◌<◌, ◌≤◌, ◌≡◌, ◌≢◌, refl, Bool, true, false, some, List, [], ◌∷◌, ◌⊎◌, inl, inr, arith,
  All, ◌==◌, if◌then◌else◌, Bool-cases,
}
use promo_go.Domain.Rbac.{StaffMembership}
use promo_go.Admin.Staff.{amend, find_membership}

unfoldable pub select : (StaffMembership → Bool) → List StaffMembership → List StaffMembership
select keep [] = []
select keep (m ∷ ms) = if keep m then m ∷ select keep ms else select keep ms

-- Ids fall from the newest row on, below a bound; so they differ.
abbrev pub Below : ℕ → List StaffMembership → Type 0
Below n [] = Unit
Below n (m ∷ ms) = (m.id < n) × Below m.id ms

-- No selected row has the id.
abbrev pub Off : (StaffMembership → Bool) → ℕ → List StaffMembership → Type 0
Off keep id = All (λ m. (m.id ≢ id) ⊎ (keep m ≡ false))

pub Below-suc : (n : ℕ) (ms : List StaffMembership) → Below n ms → Below (suc n) ms
Below-suc n [] h = tt
Below-suc n (m ∷ ms) (lt, h) = (omega arith, h)

-- What an update does not do to a row.
abbrev pub Steady : (StaffMembership → Bool) → (StaffMembership → StaffMembership) → Type 0
Steady keep f = (m : StaffMembership) → ((f m).id ≡ m.id) × ((keep m ≡ true) ⊎ (keep (f m) ≡ false))

module _ (keep : StaffMembership → Bool) where
  pub Below-Off : (n id : ℕ) (ms : List StaffMembership) → n ≤ id → Below n ms → Off keep id ms
  Below-Off n id [] le h = tt
  Below-Off n id (m ∷ ms) le (lt, h) =
      (inl (λ e. omega arith), Below-Off m.id id ms (omega arith) h)

  pub find_membership-Off :
      (n id : ℕ) (ms : List StaffMembership) (t : StaffMembership)
      → Below n ms
      → find_membership id ms ≡ some t
      → keep t ≡ false
      → Off keep id ms
  unfolding find_membership
  find_membership-Off n id [] t b h k = tt
  find_membership-Off n id (m ∷ ms) t (lt, b) h k = elim (Bool-cases (m.id == id)) [
    | inl same ↦ (inr (ground arith), Below-Off m.id id ms (ground arith) b)
    | inr other ↦ (inl (ground arith), find_membership-Off m.id id ms t b (ground arith) k)
  ]

  module _ (id : ℕ) (f : StaffMembership → StaffMembership) (steady : Steady keep f) where
    pub amend-Below : (n : ℕ) (ms : List StaffMembership) → Below n ms → Below n (amend id f ms)
    unfolding amend
    amend-Below n [] b = tt
    amend-Below n (m ∷ ms) (lt, b) = ground (arith, amend-Below m.id ms b, (steady m).0)

    pub amend-Off : (ms : List StaffMembership) → Off keep id ms → Off keep id (amend id f ms)
    unfolding amend
    amend-Off [] h = tt
    amend-Off (m ∷ ms) (o, h) = ground (arith, amend-Off ms h, steady m)

    pub select-amend :
        (ms : List StaffMembership) → Off keep id ms → select keep (amend id f ms) ≡ select keep ms
    unfolding amend select
    select-amend [] h = refl
    select-amend (m ∷ ms) (o, h) = ground (arith, select-amend ms h, steady m)

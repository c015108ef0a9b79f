-- ===== src/Admin/StoreCodes.antt =====
-- Proofs about Admin/Stores: external codes stay unique within an organization.
use promo_go.Base.{
  ℕ, ◌<◌, ◌≡◌, refl, sym, ◌∙◌, subst, true, false, Option, none, some, List, [], ◌∷◌, Text, text_eq,
  arith, All, not, ◌&&◌, ◌==◌, Bool-cases, inl, inr, All-zip, All-map, ◌⊎◌,
}
use promo_go.Domain.{Store}
use promo_go.Admin.Handler.{AdminDb}
use promo_go.Admin.Stores.{clashes, same_code, code_taken, with_profile, save_profile}
use promo_go.Loyalty.Queries.{find_store}

-- Two rows with different ids whose codes do not clash.
abbrev pub Compatible : Store → Store → Type 0
Compatible s t = ((s.id == t.id) ≡ false) × (clashes s t ≡ false)

abbrev pub Unclashing : List Store → Type 0
Unclashing [] = Unit
Unclashing (s ∷ ss) = All (Compatible s) ss × Unclashing ss

-- No code is used twice in an organization, ids differ, and are below the counter.
abbrev pub StoresOk : AdminDb → Type 0
StoresOk d = Unclashing d.stores × All (λ s. s.id < d.next_id) d.stores

pub text_eq_sym : (s t : Text) → text_eq s t ≡ text_eq t s
unfolding text_eq
text_eq_sym [] [] = refl
text_eq_sym [] (b ∷ t) = refl
text_eq_sym (a ∷ s) [] = refl
text_eq_sym (a ∷ s) (b ∷ t) = ground (arith, text_eq_sym s t)

pub same_code_sym : (a b : Option Text) → same_code a b ≡ same_code b a
same_code_sym none none = refl
same_code_sym none (some b) = refl
same_code_sym (some a) none = refl
same_code_sym (some a) (some b) = text_eq_sym a b

pub clashes_sym : (s t : Store) → clashes s t ≡ clashes t s
clashes_sym s t = ground (arith, same_code_sym s.external_code t.external_code)

-- A free code clashes with no other row.
pub code_taken-All :
    (s : Store) (ss : List Store)
    → code_taken s ss ≡ false
    → All (λ t. ((not (s.id == t.id)) && clashes s t) ≡ false) ss
unfolding code_taken
code_taken-All s [] h = tt
code_taken-All s (t ∷ ss) h = (ground arith, code_taken-All s ss (ground arith))

pub Compatible-new :
    (s : Store) (ss : List Store)
    → code_taken s ss ≡ false
    → All (λ t. t.id < s.id) ss
    → All (Compatible s) ss
Compatible-new s ss free below =
    All-zip ss (λ t f lt. (ground arith, ground arith)) (code_taken-All s ss free) below

pub save_profile-All :
    (P : Store → Type 0) (s : Store) (ss : List Store)
    → ((t : Store) → P t → P (with_profile s t))
    → All P ss
    → All P (save_profile s ss)
unfolding save_profile
save_profile-All P s [] keep all = tt
save_profile-All P s (t ∷ ss) keep (here, all) = elim (Bool-cases (t.id == s.id)) [
  | inl same ↦ (ground (arith, keep t here), save_profile-All P s ss keep all)
  | inr other ↦ (ground (arith, here), save_profile-All P s ss keep all)
]

-- Rows with the id are of the organization.
abbrev pub Homed : ℕ → ℕ → Store → Type 0
Homed id org t = ((t.id == id) ≡ false) ⊎ (t.organization_id ≡ org)

pub Compatible-Homed :
    (t : Store) (id org : ℕ) (ss : List Store)
    → (t.id == id) ≡ true
    → All (Compatible t) ss
    → All (Homed id org) ss
Compatible-Homed t id org ss same all = All-map ss (λ x c. inl (ground arith)) all

pub find_store-Homed :
    (id : ℕ) (ss : List Store) (row : Store)
    → Unclashing ss
    → find_store id ss ≡ some row
    → All (Homed id row.organization_id) ss
unfolding find_store
find_store-Homed id [] row ok h = tt
find_store-Homed id (t ∷ ss) row (apart, ok) h = elim (Bool-cases (t.id == id)) [
  | inl same ↦ (inr (ground arith), Compatible-Homed t id row.organization_id ss same apart)
  | inr other ↦ (inl other, find_store-Homed id ss row ok (ground arith))
]

-- Rows of other ids stay as they are.
pub save_profile_absent :
    (s : Store) (ss : List Store) → All (λ t. (t.id == s.id) ≡ false) ss → save_profile s ss ≡ ss
unfolding save_profile
save_profile_absent s [] all = refl
save_profile_absent s (t ∷ ss) (other, all) = ground (arith, save_profile_absent s ss all)

pub Compatible-saved :
    (s t : Store) (org : ℕ) (ss : List Store)
    → (t.id == s.id) ≡ false
    → clashes t (with_profile s (record s { organization_id = org })) ≡ false
    → All (Compatible t) ss
    → All (Homed s.id org) ss
    → All (Compatible t) (save_profile s ss)
unfolding save_profile
Compatible-saved s t org [] other free all homed = tt
Compatible-saved s t org (x ∷ ss) other free (apart, all) (home, homed) = (
  elim (Bool-cases (x.id == s.id)) [ inl same ↦ ground arith | inr differs ↦ ground arith ],
  Compatible-saved s t org ss other free all homed,
)

pub save_profile-Unclashing :
    (s row : Store) (ss : List Store)
    → Unclashing ss
    → find_store s.id ss ≡ some row
    → code_taken (with_profile s row) ss ≡ false
    → (row.id == s.id) ≡ true
    → Unclashing (save_profile s ss)
unfolding save_profile find_store code_taken
save_profile-Unclashing s row [] ok h free id = tt
save_profile-Unclashing s row (t ∷ ss) (apart, ok) h free id = elim (Bool-cases (t.id == s.id)) [
  | inl same ↦
      let is_row : t ≡ row = ground arith in
      let still : save_profile s ss ≡ ss =
        save_profile_absent s ss (All-map ss (λ x c. ground arith) apart) in
      let free_tail : All
          (λ x. ((not ((with_profile s row).id == x.id)) && clashes (with_profile s row) x) ≡ false)
          ss =
        code_taken-All (with_profile s row) ss (ground arith) in
      let head : All (Compatible (with_profile s row)) ss =
        All-zip ss (λ x f c. (ground arith, ground arith)) free_tail apart in
      let saved_list : save_profile s (t ∷ ss) ≡ with_profile s t ∷ ss = ground arith in
      subst Unclashing (sym saved_list)
        (subst (λ x. All (Compatible (with_profile s x)) ss) (sym is_row) head, ok)
  | inr other ↦
      let saved_list : save_profile s (t ∷ ss) ≡ t ∷ save_profile s ss = ground arith in
      let later : find_store s.id ss ≡ some row = ground arith in
      let apart_ids : (row.id == t.id) ≡ false = ground arith in
      let free_head : clashes (with_profile s row) t ≡ false = ground arith in
      let free_new : clashes t (with_profile s (record s { organization_id = row.organization_id }))
          ≡ false =
        clashes_sym t (with_profile s row) ∙ free_head in
      subst Unclashing (sym saved_list) (
        Compatible-saved s t row.organization_id ss other free_new apart
            (find_store-Homed s.id ss row ok later),
        save_profile-Unclashing s row ss ok later (ground arith) id,
      )
]

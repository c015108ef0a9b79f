-- ===== src/RateLimit/Spent.antt =====
-- Proofs about RateLimit/Guard: a counter that is used up stops the request.
use promo_go.Base.{
  ℕ, suc, ◌+◌, ◌<◌, ◌≤◌, Bool, true, false, Option, none, some, List, [], ◌∷◌, Text, text_eq, ◌≡◌,
  ◌≢◌, refl, arith, Bool-cases, Option-cases, inl, inr, eq_of_text_eq, subst, sym, ◌++◌,
}
use promo_go.Redis.{Keys, get, get-put_self, get-put_ne}
use promo_go.RateLimit.{Verdict, allowed, unavailable, limited, allow, check_and_incr}
use promo_go.RateLimit.Guard.{Rule, GuardAnswer, passed, redis_key, go_on, count_rule, wrap}

-- The counter of the key is at the limit or above until the time `e`.
abbrev pub Spent : Text → ℕ → ℕ → Keys ℕ → Type 0
Spent key limit e m =
    (n : ℕ) × (limit ≤ n)
    × ((t : ℕ) → t < e → get t key m ≡ some (record { key = key; value = n; expires_at = e }))

-- Counting for any key leaves the counter used up.
pub check_and_incr-Spent :
    (now window : ℕ) (other key : Text) (limit e : ℕ) (m : Keys ℕ)
    → now < e
    → Spent key limit e m
    → Spent key limit e (check_and_incr now other window m).1
unfolding check_and_incr
check_and_incr-Spent now window other key limit e m lt (n, least, live) =
    elim (Bool-cases (text_eq other key)) [
      | inl same ↦
          let e' : other ≡ key = eq_of_text_eq other key same in
          (
            suc n,
            omega arith,
            λ t before. ground (arith, live now lt, get-put_self t key (suc n) e m),
          )
      | inr differs ↦ elim (Option-cases (get now other m)) [
        | inl none' ↦ (
          n,
          least,
          λ t before.
              ground (arith, live t before, get-put_ne t key other 1 (now + window) m differs),
        )
        | inr (s, found) ↦ (
          n,
          least,
          λ t before.
              ground
                (arith, live t before, get-put_ne t key other (suc s.value) s.expires_at m differs),
        )
      ]
    ]

pub allow-Spent :
    (works : Bool) (now window bound : ℕ) (other key : Text) (limit e : ℕ) (m : Keys ℕ)
    → now < e
    → Spent key limit e m
    → Spent key limit e (allow works now other bound window m).1
unfolding allow
allow-Spent true now window bound other key limit e m lt spent =
    check_and_incr-Spent now window other key limit e m lt spent
allow-Spent false now window bound other key limit e m lt spent = spent

pub allow-refused :
    (works : Bool) (now window : ℕ) (key : Text) (limit e : ℕ) (m : Keys ℕ)
    → now < e
    → Spent key limit e m
    → (allow works now key limit window m).0 ≢ allowed
unfolding allow check_and_incr
allow-refused true now window key limit e m lt (n, least, live) h =
    let there = live now lt in absurd (ground arith)
allow-refused false now window key limit e m lt spent h = absurd (ground arith)

-- The rule stands in the list and counts the request under the key.
abbrev pub CountedBy : {Request : Type 0} → Text → Request → Text → Rule Request → Type 0
CountedBy profile r key rule =
    (raw : Text) × (rule.key_of r ≡ some raw) × (redis_key profile rule.name raw ≡ key)

module _ {Request : Type 0} (up : ℕ → Bool) (at : ℕ → ℕ) (profile : Text) (r : Request) where
  pub go_on-passed :
      (rest : Keys ℕ → GuardAnswer × Keys ℕ) (v : Verdict × Keys ℕ)
      → (go_on rest v).0 ≡ passed
      → (v.0 ≡ allowed) × ((rest v.1).0 ≡ passed)
  go_on-passed rest (allowed, m) h = (refl, h)
  go_on-passed rest (unavailable, m) h = absurd (ground arith)
  go_on-passed rest (limited left, m) h = absurd (ground arith)

  -- The rest of the rules starts with the counter still used up.
  pub count_rule-Spent :
      (i : ℕ) (rule : Rule Request) (rest : Keys ℕ → GuardAnswer × Keys ℕ) (o : Option Text)
      (key : Text) (limit e : ℕ) (m : Keys ℕ)
      → at i < e
      → Spent key limit e m
      → (count_rule up at profile r i rule rest o m).0 ≡ passed
      → (m' : Keys ℕ) × Spent key limit e m' × ((rest m').0 ≡ passed)
  count_rule-Spent i rule rest none key limit e m lt spent h = (m, spent, h)
  count_rule-Spent i rule rest (some raw) key limit e m lt spent h =
      let v = allow (up i) (at i) (redis_key profile rule.name raw) rule.limit rule.window m in
      let (_, more) = go_on-passed rest v h in
      (
        v.1,
        allow-Spent (up i) (at i) rule.window rule.limit (redis_key profile rule.name raw) key limit
            e m lt spent,
        more,
      )

  -- The rule itself does not let the request pass.
  pub count_rule-refused :
      (i : ℕ) (rule : Rule Request) (rest : Keys ℕ → GuardAnswer × Keys ℕ) (key : Text) (e : ℕ)
      (m : Keys ℕ)
      → at i < e
      → CountedBy profile r key rule
      → Spent key rule.limit e m
      → (count_rule up at profile r i rule rest (rule.key_of r) m).0 ≢ passed
  count_rule-refused i rule rest key e m lt (raw, applies, same) spent h =
      let k = redis_key profile rule.name raw in
      let h' : (count_rule up at profile r i rule rest (some raw) m).0 ≡ passed =
        subst (λ o. (count_rule up at profile r i rule rest o m).0 ≡ passed) applies h in
      let (ok, _) = go_on-passed rest (allow (up i) (at i) k rule.limit rule.window m) h' in
      allow-refused (up i) (at i) rule.window k rule.limit e m lt
        (subst (λ x. Spent x rule.limit e m) (sym same) spent) ok

  -- A request that a rule of the profile counts under a key whose counter is at the rule's limit or
  -- above is not let through until the counter ends, whatever the other rules are and whether or not
  -- Redis answers.
  pub wrap-Spent :
      (before : List (Rule Request)) (rule : Rule Request) (after : List (Rule Request)) (i : ℕ)
      (key : Text) (e : ℕ) (m : Keys ℕ)
      → ((j : ℕ) → at j < e)
      → CountedBy profile r key rule
      → Spent key rule.limit e m
      → (wrap up at profile r i (before ++ rule ∷ after) m).0 ≢ passed
  unfolding wrap
  wrap-Spent [] rule after i key e m soon counted spent h =
      count_rule-refused i rule (wrap up at profile r (suc i) after) key e m (soon i) counted spent
        h
  wrap-Spent (first ∷ before) rule after i key e m soon counted spent h =
      let (m', still, more) =
        count_rule-Spent i first (wrap up at profile r (suc i) (before ++ rule ∷ after))
          (first.key_of r) key rule.limit e m (soon i) spent h in
      wrap-Spent before rule after (suc i) key e m' soon counted still more

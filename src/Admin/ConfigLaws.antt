-- ===== src/Admin/ConfigLaws.antt =====
-- Proofs about Admin/Configs: its tables against a log of versions for each store.
use promo_go.Base.{
  ℕ, suc, ◌≤◌, ◌≡◌, refl, sym, ap, ◌∙◌, subst, Bool, true, false, Option, none, some, List, [], ◌∷◌,
  ◌==◌, arith, if◌then◌else◌, length, Bool-cases, inl, inr, ◌⊎◌, ==_refl,
}
use promo_go.Base.Int.{ℤ}
use promo_go.Domain.{LoyaltyConfig, LoyaltyConfigVersion}
use promo_go.Loyalty.Queries.{find_config}
use promo_go.Admin.Configs.{
  ConfigDb, Saved, saved, stale, not_saved, is_expected, put_config, has_version, add_version,
  upsert, version_of,
}

module _ {D : Type 0} where
  -- A store's configurations, newest first.
  unfoldable pub log : ℕ → List (LoyaltyConfigVersion D) → List (LoyaltyConfig D)
  log store [] = []
  log store (v ∷ vs) = if v.config.store_id == store then v.config ∷ log store vs else log store vs

  abbrev pub newest : List (LoyaltyConfig D) → Option (LoyaltyConfig D)
  newest [] = none
  newest (c ∷ cs) = some c

  -- Versions count down to 1.
  abbrev pub Numbered : List (LoyaltyConfig D) → Type 0
  Numbered [] = Unit
  Numbered (c ∷ cs) = (c.version ≡ suc (length cs)) × Numbered cs

  -- What a write does to a log: refuse if the log is longer or shorter than expected, else add the
  -- configuration under the next number.
  abbrev pub append_version :
      LoyaltyConfig D → Option ℤ → List (LoyaltyConfig D) → Option (List (LoyaltyConfig D))
  append_version c expected cs =
      if is_expected (length cs) expected
      then some (record c { version = suc (length cs) } ∷ cs)
      else none

  -- The live configuration of a store is the newest of its log, which is numbered.
  abbrev pub RecordedAt : ℕ → ConfigDb D → Type 0
  RecordedAt store db =
      Numbered (log store db.history)
      × (find_config store db.configs ≡ newest (log store db.history))

  pub find_config-put_config :
      (c : LoyaltyConfig D) (store : ℕ) (cs : List (LoyaltyConfig D))
      → find_config store (put_config c cs)
        ≡ (if c.store_id == store then some c else find_config store cs)
  unfolding find_config put_config
  find_config-put_config c store [] = ground arith
  find_config-put_config c store (x ∷ cs) = ground (arith, find_config-put_config c store cs)

  pub Numbered-has_version :
      (store n : ℕ) (vs : List (LoyaltyConfigVersion D))
      → Numbered (log store vs)
      → has_version store n vs ≡ true
      → n ≤ length (log store vs)
  unfolding log has_version
  Numbered-has_version store n [] numbered h = absurd (ground arith)
  Numbered-has_version store n (v ∷ vs) numbered h = ground (arith, Numbered-has_version store n vs)

  pub version_of-newest :
      (cs : List (LoyaltyConfig D)) → Numbered cs → version_of (newest cs) ≡ length cs
  version_of-newest [] h = refl
  version_of-newest (c ∷ cs) (e, h) = e

  pub current_version :
      (store : ℕ) (db : ConfigDb D)
      → RecordedAt store db
      → version_of (find_config store db.configs) ≡ length (log store db.history)
  current_version store db (numbered, live) =
      ap version_of live ∙ version_of-newest (log store db.history) numbered

  -- The log of a store after a version is added for `c.store_id`.
  pub log-add_version :
      (c : LoyaltyConfig D) (by : Option ℕ) (db : ConfigDb D) (store : ℕ)
      → log store (add_version c by db).history
        ≡ (if c.store_id == store then c ∷ log store db.history else log store db.history)
  unfolding log
  log-add_version c by db store = refl

  pub add_version-RecordedAt :
      (c : LoyaltyConfig D) (by : Option ℕ) (db : ConfigDb D) (store : ℕ)
      → ((c.store_id == store) ≡ true → c.version ≡ suc (length (log store db.history)))
      → RecordedAt store db
      → RecordedAt store (add_version c by db)
  unfolding log
  add_version-RecordedAt c by db store next (numbered, live) =
      elim (Bool-cases (c.store_id == store)) [
        | inl mine ↦
            let number = next mine in
            let row = find_config-put_config c store db.configs in ground arith
        | inr other ↦ let row = find_config-put_config c store db.configs in ground arith
      ]

  -- What Upsert does to the store's log, and to that of any other store.
  abbrev pub Refines :
      LoyaltyConfig D → Option ℤ → Bool → ℕ → ConfigDb D → Saved D × ConfigDb D → Type 0
  Refines cfg expected works other db (saved c, e) =
      (append_version cfg expected (log cfg.store_id db.history)
        ≡ some (log cfg.store_id e.history))
      × (newest (log cfg.store_id e.history) ≡ some c)
      × ((cfg.store_id ≡ other) ⊎ (log other e.history ≡ log other db.history))
      × RecordedAt other e
  Refines cfg expected works other db (stale, e) =
      (append_version cfg expected (log cfg.store_id db.history) ≡ none) × (db ≡ e)
  Refines cfg expected works other db (not_saved, e) = (works ≡ false) × (db ≡ e)

  pub has_version_next :
      (store : ℕ) (db : ConfigDb D)
      → RecordedAt store db
      → has_version store (suc (version_of (find_config store db.configs))) db.history ≡ false
  has_version_next store db recorded =
      elim (Bool-cases
        (has_version store (suc (version_of (find_config store db.configs))) db.history)) [
          | inr no' ↦ no'
          | inl there ↦
              let bound = Numbered-has_version store _ db.history recorded.0 there in
              let here = current_version store db recorded in absurd (omega (arith, bound, here))
        ]

  pub added-Refines :
      (cfg : LoyaltyConfig D) (expected : Option ℤ) (works : Bool) (by : Option ℕ) (other n : ℕ)
      → (db : ConfigDb D) → RecordedAt other db
      → n ≡ length (log cfg.store_id db.history)
      → is_expected n expected ≡ true
      → Refines cfg expected works other db (
        saved (record cfg { version = suc n }),
        add_version (record cfg { version = suc n }) by db,
      )
  unfolding log
  added-Refines cfg expected works by other n db recorded_other current yes' =
      let c : LoyaltyConfig D = record cfg { version = suc n } in
      let cs : List (LoyaltyConfig D) = log cfg.store_id db.history in
      let mine : log cfg.store_id (add_version c by db).history ≡ c ∷ cs =
        ground (arith, ==_refl cfg.store_id) in
      let now_expected : is_expected (length cs) expected ≡ true =
        subst (λ x. is_expected x expected ≡ true) current yes' in
      let numbered : record cfg { version = suc (length cs) } ∷ cs ≡ c ∷ cs =
        ap (λ x. record cfg { version = suc x } ∷ cs) (sym current) in
      let appended : append_version cfg expected cs
          ≡ some (record cfg { version = suc (length cs) } ∷ cs) =
        ground arith in
      (
        appended ∙ ap some (numbered ∙ sym mine),
        ap newest mine,
        elim (Bool-cases (cfg.store_id == other)) [
          | inl same ↦ inl (ground arith)
          | inr apart ↦ inr (ground arith)
        ],
        add_version-RecordedAt c by db other
            (λ same. ap suc (current ∙ ap (λ s. length (log s db.history)) (ground arith)))
            recorded_other,
      )

  -- Upsert is the write of the log: on tables whose live configurations are the newest of numbered
  -- logs, it adds the configuration under the next number of its store, refuses it as stale exactly
  -- when the log's length is not the expected version, or changes nothing because the database
  -- failed; no other store's log changes, and the tables stay so.
  pub upsert-Refines :
      (cfg : LoyaltyConfig D) (expected : Option ℤ) (works : Bool) (by : Option ℕ) (other : ℕ)
      → (db : ConfigDb D) → RecordedAt cfg.store_id db
      → RecordedAt other db
      → Refines cfg expected works other db (upsert works cfg expected by db)
  unfolding upsert
  upsert-Refines cfg expected works by other db recorded recorded_other =
      let current = current_version cfg.store_id db recorded in
      let free = has_version_next cfg.store_id db recorded in
      let c : LoyaltyConfig D = record cfg {
        version = suc (version_of (find_config cfg.store_id db.configs));
      } in
      elim (Bool-cases works) [
        | inr down ↦ ground arith
        | inl up ↦
            elim (Bool-cases
              (is_expected (version_of (find_config cfg.store_id db.configs)) expected)) [
                | inr no' ↦ ground arith
                | inl yes' ↦
                    let n : ℕ = version_of (find_config cfg.store_id db.configs) in
                    let runs : (saved c, add_version c by db) ≡ upsert works cfg expected by db =
                      ground arith in
                    subst (λ r. Refines cfg expected works other db r) runs
                      (added-Refines cfg expected works by other n db recorded_other current yes')
              ]
      ]

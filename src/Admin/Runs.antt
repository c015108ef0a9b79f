-- ===== src/Admin/Runs.antt =====
-- Proofs about handlers: the steps of a run that answers.
use promo_go.Base.{ℕ, Bool, true, false, ◌≡◌, refl, Option, none, some, arith}
use promo_go.Admin.Handler.{
  AdminDb, Reply, done, refused, Handler, pure, refuse, gets, modify, ◌>>=◌, ◌>>◌, require, present,
  resume,
}

-- The handler takes the tables `d` to `e` and answers `a`.
pub record Runs {A : Type 0} (h : Handler A) (d : AdminDb) (a : A) (e : AdminDb) : Type 0 where
  pub ran : h d ≡ (done a, e)

module _ {A B : Type 0} where
  pub done_resume :
      (f : A → Handler B) (r : Reply A) (d : AdminDb) (b : B) (e : AdminDb)
      → resume f r d ≡ (done b, e)
      → (a : A) × (r ≡ done a) × (f a d ≡ (done b, e))
  unfolding refuse
  done_resume f (done a) d b e h = (a, refl, h)
  done_resume f (refused status) d b e h = absurd (ground arith)

  pub Runs->>= :
      {m : Handler A} {f : A → Handler B} {d e : AdminDb} {b : B}
      → Runs (m >>= f) d b e
      → (a : A) × (d' : AdminDb) × Runs m d a d' × Runs (f a) d' b e
  unfolding ◌>>=◌
  Runs->>= {m = m} {f = f} {d = d} {e = e} {b = b} h =
      let (a, ran, rest) = done_resume f (m d).0 (m d).1 b e h.ran in
      (a, (m d).1, record { ran = ground arith }, record { ran = rest })

  pub Runs-present :
      (status : ℕ)
      → {o : Option A} {f : A → Handler B} {d e : AdminDb} {b : B}
      → Runs (present status o >>= f) d b e
      → (a : A) × (o ≡ some a) × Runs (f a) d b e
  unfolding ◌>>=◌ present pure refuse
  Runs-present status {o = some a} h = (a, refl, record { ran = h.ran })
  Runs-present status {o = none} h = let bad = h.ran in absurd (ground arith)

  pub Runs-present-some :
      (status : ℕ) (a : A) (f : A → Handler B)
      → {d e : AdminDb} {b : B} → Runs (present status (some a) >>= f) d b e
      → Runs (f a) d b e
  unfolding ◌>>=◌ present pure refuse
  Runs-present-some status a f h = record { ran = h.ran }

  pub Runs-gets :
      (g : AdminDb → A) (f : A → Handler B)
      → {d e : AdminDb} {b : B} → Runs (gets g >>= f) d b e
      → Runs (f (g d)) d b e
  unfolding ◌>>=◌ gets
  Runs-gets g f h = record { ran = h.ran }

module _ {B : Type 0} where
  pub Runs-require :
      (status : ℕ)
      → {test : Bool} {k : Handler B} {d e : AdminDb} {b : B}
      → Runs (require test status >> k) d b e
      → (test ≡ true) × Runs k d b e
  unfolding ◌>>=◌ require pure refuse
  Runs-require status {test = true} h = (refl, record { ran = h.ran })
  Runs-require status {test = false} h = let bad = h.ran in absurd (ground arith)

  pub Runs-modify :
      (g : AdminDb → AdminDb)
      → {k : Handler B} {d e : AdminDb} {b : B} → Runs (modify g >> k) d b e
      → Runs k (g d) b e
  unfolding ◌>>=◌ modify
  Runs-modify g h = record { ran = h.ran }

pub Runs-pure : {A : Type 0} {a b : A} {d e : AdminDb} → Runs (pure a) d b e → (a ≡ b) × (d ≡ e)
unfolding pure
Runs-pure h = let same = h.ran in ground arith

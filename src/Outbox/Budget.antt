-- ===== src/Outbox/Budget.antt =====
-- The attempts of the entries under a poll of the worker.
use promo_go.Base.{
  ℕ, ◌<◌, ◌≡◌, ◌≢◌, sym, Bool, true, false, List, [], ◌∷◌, arith, take, All, All-zip, All-map, ◌⊎◌,
  inl, inr, Bool-cases,
}
use promo_go.Domain.{OutboxEntry, Client}
use promo_go.Outbox.Queue.{Outbox, claim_batch, candidates, has_id, due, lease, leased, returned}
use promo_go.Outbox.Lease.{NotDue, has_id-candidates, has_id-take}
use promo_go.Outbox.Attempts.{Budget, Agrees, UniqueIds, deliver-Budget, deliver-Agrees}
use promo_go.Outbox.Worker.{WorkerConfig, World, deliver, deliver_all, poll_once}

-- The row is due, or no id of it is chosen.
abbrev pub RightlyChosen : ℕ → Outbox → OutboxEntry → Type 0
RightlyChosen now chosen r = (due now r ≡ true) ⊎ (has_id r.id chosen ≡ false)

pub UniqueIds-NotDue :
    (now : ℕ) (box : Outbox)
    → UniqueIds box
    → All (λ r. due now r ≡ false → NotDue now r.id box) box
UniqueIds-NotDue now [] _ = tt
UniqueIds-NotDue now (e ∷ es) (other, u) = (
  λ late. (λ _. late, All-map es (λ r ne same. absurd (ne same)) other),
  All-zip es (λ r ne ih late. (λ same. absurd (ne (sym same)), ih late)) other
      (UniqueIds-NotDue now es u),
)

pub candidates-RightlyChosen :
    (now n : ℕ) (box : Outbox)
    → UniqueIds box
    → All (RightlyChosen now (take n (candidates now box))) box
candidates-RightlyChosen now n box u =
    All-map box
      (λ r skip. elim (Bool-cases (due now r)) [
        | inl late ↦ inl late
        | inr early ↦
            inr (
              has_id-take n r.id (candidates now box) (has_id-candidates now r.id box (skip early)))
      ])
      (UniqueIds-NotDue now box u)

pub Agrees-cons :
    (h : OutboxEntry) (rows cs : Outbox)
    → All (λ c. c.id ≢ h.id) cs
    → All (Agrees rows) cs
    → All (Agrees (h ∷ rows)) cs
Agrees-cons h rows cs other agree =
    All-zip cs (λ c ne a. (λ same. absurd (ne (sym same)), a)) other agree

pub Agrees-other : (h : OutboxEntry) (rows : Outbox) → All (λ r. r.id ≢ h.id) rows → Agrees rows h
Agrees-other h rows other = All-map rows (λ r ne same. absurd (ne same)) other

module _ (limit now : ℕ) (chosen : Outbox) where
  pub returned-Budget :
      (box : Outbox)
      → Budget limit box
      → All (RightlyChosen now chosen) box
      → All (λ c. c.attempts < limit) (returned now chosen box)
  unfolding returned due
  returned-Budget [] _ _ = tt
  returned-Budget (e ∷ es) (b, bs) (c, cs) = ground (arith, returned-Budget es bs cs)

  pub lease-Budget :
      (box : Outbox)
      → Budget limit box
      → All (RightlyChosen now chosen) box
      → Budget limit (lease now chosen box)
  unfolding lease due
  lease-Budget [] _ _ = tt
  lease-Budget (e ∷ es) (b, bs) (c, cs) = (ground arith, lease-Budget es bs cs)

  pub returned-other :
      (id : ℕ) (box : Outbox)
      → All (λ r. r.id ≢ id) box
      → All (λ r. r.id ≢ id) (returned now chosen box)
  unfolding returned
  returned-other id [] _ = tt
  returned-other id (e ∷ es) (ne, nes) = ground (arith, returned-other id es nes)

  pub lease-other :
      (id : ℕ) (box : Outbox)
      → All (λ r. r.id ≢ id) box
      → All (λ r. r.id ≢ id) (lease now chosen box)
  unfolding lease
  lease-other id [] _ = tt
  lease-other id (e ∷ es) (ne, nes) = (ground arith, lease-other id es nes)

  pub returned-UniqueIds : (box : Outbox) → UniqueIds box → UniqueIds (returned now chosen box)
  unfolding returned
  returned-UniqueIds [] _ = tt
  returned-UniqueIds (e ∷ es) (ne, u) =
      ground (arith, returned-UniqueIds es u, returned-other e.id es ne)

  pub returned-Agrees :
      (box : Outbox) → UniqueIds box → All (Agrees (lease now chosen box)) (returned now chosen box)
  unfolding returned lease
  returned-Agrees [] _ = tt
  returned-Agrees (e ∷ es) (ne, u) = elim (Bool-cases (has_id e.id chosen)) [
    | inr skip ↦ ground (
      arith,
      returned-Agrees es u,
      returned-other e.id es ne,
      Agrees-cons e (lease now chosen es) (returned now chosen es),
    )
    | inl take ↦ ground (
      arith,
      Agrees-other (leased now e) (lease now chosen es) (lease-other e.id es ne),
      Agrees-cons (leased now e) (lease now chosen es) (returned now chosen es)
          (returned-other e.id es ne) (returned-Agrees es u),
    )
  ]

pub deliver_all-Budget :
    (cfg : WorkerConfig) (w : World) (clients : List Client) (now : ℕ) (entries box : Outbox)
    → All (λ c. c.attempts < cfg.max_attempts) entries
    → UniqueIds entries
    → All (Agrees box) entries
    → Budget cfg.max_attempts box
    → Budget cfg.max_attempts (deliver_all cfg w clients now entries box)
unfolding deliver_all
deliver_all-Budget cfg w clients now [] box _ _ _ b = b
deliver_all-Budget cfg w clients now (e ∷ es) box (lt, lts) (other, u) (a, as') b =
    deliver_all-Budget cfg w clients now es (deliver cfg w clients now e box) lts u
      (All-zip es (λ d ne agree. deliver-Agrees cfg w clients now e d box ne agree) other as')
      (deliver-Budget cfg w clients now e box lt a b)

-- A poll keeps the outbox within its attempts: no entry gets more than the limit, and one that is
-- still to be delivered has at least one left; ids are unique.
pub poll_once-Budget :
    (cfg : WorkerConfig) (w : World) (claims : Bool) (clients : List Client) (now : ℕ)
    (box : Outbox)
    → UniqueIds box
    → Budget cfg.max_attempts box
    → Budget cfg.max_attempts (poll_once cfg w claims clients now box)
unfolding poll_once claim_batch
poll_once-Budget cfg w false clients now box u b = b
poll_once-Budget cfg w true clients now box u b =
    let chosen = take cfg.batch_size (candidates now box) in
    let right = candidates-RightlyChosen now cfg.batch_size box u in
    let limit = cfg.max_attempts in
    deliver_all-Budget cfg w clients now (returned now chosen box) (lease now chosen box)
      (returned-Budget limit now chosen box b right) (returned-UniqueIds limit now chosen box u)
      (returned-Agrees limit now chosen box u) (lease-Budget limit now chosen box b right)

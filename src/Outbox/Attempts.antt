-- ===== src/Outbox/Attempts.antt =====
-- The delays of `backoffFor`, and the attempts that a delivery counts.
use promo_go.Base.{
  ℕ, suc, ◌+◌, ◌-◌, ◌*◌, ◌^◌, ◌%◌, ◌<◌, ◌≤◌, ◌≡◌, ◌≢◌, true, List, [], ◌∷◌, Text, arith, All,
  if◌then◌else◌, ltb, Bool-cases, inr, inl, Option-cases,
}
use promo_go.Domain.{OutboxEntry, Client}
use promo_go.Outbox.Queue.{Outbox, is_open, mark_delivered, mark_failed, mark_dead_letter}
use promo_go.Outbox.Worker.{WorkerConfig, World, backoff_for, send, deliver}

pub small-mod : (x : ℕ) → x < 2 ^ 63 → x % 2 ^ 64 ≡ x
small-mod x h = omega arith

-- The delay before a retry is positive and at most the maximum, whatever the shift loses.
pub backoff_for_bounds :
    (cfg : WorkerConfig) (attempts : ℕ)
    → 0 < cfg.max_backoff
    → (0 < backoff_for cfg attempts) × (backoff_for cfg attempts ≤ cfg.max_backoff)
unfolding backoff_for
backoff_for_bounds cfg attempts pos = ground arith

-- Where the shift stays below 2 ^ 63, the delay is the base doubled with each attempt, up to the
-- maximum.
pub backoff_for_doubles :
    (cfg : WorkerConfig) (attempts : ℕ)
    → 0 < cfg.base_backoff * 2 ^ (attempts - 1)
    → cfg.base_backoff * 2 ^ (attempts - 1) < 2 ^ 63
    → backoff_for cfg attempts ≡ (
        if ltb cfg.max_backoff (cfg.base_backoff * 2 ^ (attempts - 1))
        then cfg.max_backoff
        else cfg.base_backoff * 2 ^ (attempts - 1))
unfolding backoff_for
backoff_for_doubles cfg attempts pos small =
    ground (arith, small-mod (cfg.base_backoff * 2 ^ (attempts - 1)))

module _ (limit : ℕ) where
  -- An entry still to be delivered has an attempt left, and none had more than the limit.
  abbrev pub InBudget : OutboxEntry → Type 0
  InBudget e = (is_open e.status ≡ true → e.attempts < limit) × (e.attempts ≤ limit)

  abbrev pub Budget : Outbox → Type 0
  Budget box = All InBudget box

-- The rows of `box` with an entry's id have had as many attempts as it says.
abbrev pub Agrees : Outbox → OutboxEntry → Type 0
Agrees box e = All (λ r. r.id ≡ e.id → r.attempts ≡ e.attempts) box

abbrev pub UniqueIds : Outbox → Type 0
UniqueIds [] = Unit
UniqueIds (e ∷ es) = All (λ r. r.id ≢ e.id) es × UniqueIds es

pub mark_delivered-Budget :
    (limit now id : ℕ) (box : Outbox) → Budget limit box → Budget limit (mark_delivered now id box)
unfolding mark_delivered
mark_delivered-Budget limit now id [] _ = tt
mark_delivered-Budget limit now id (r ∷ rs) (b, bs) =
    (ground arith, mark_delivered-Budget limit now id rs bs)

pub mark_failed-Budget :
    (limit : ℕ) (e : OutboxEntry) (reason : Text) (next : ℕ) (box : Outbox)
    → suc e.attempts < limit
    → Agrees box e
    → Budget limit box
    → Budget limit (mark_failed e.id reason next box)
unfolding mark_failed
mark_failed-Budget limit e reason next [] lt _ _ = tt
mark_failed-Budget limit e reason next (r ∷ rs) lt (a, as') (b, bs) =
    (ground arith, mark_failed-Budget limit e reason next rs lt as' bs)

pub mark_dead_letter-Budget :
    (limit : ℕ) (e : OutboxEntry) (reason : Text) (box : Outbox)
    → suc e.attempts ≤ limit
    → Agrees box e
    → Budget limit box
    → Budget limit (mark_dead_letter e.id reason box)
unfolding mark_dead_letter
mark_dead_letter-Budget limit e reason [] lt _ _ = tt
mark_dead_letter-Budget limit e reason (r ∷ rs) lt (a, as') (b, bs) =
    (ground arith, mark_dead_letter-Budget limit e reason rs lt as' bs)

pub deliver-Budget :
    (cfg : WorkerConfig) (w : World) (clients : List Client) (now : ℕ) (e : OutboxEntry)
    (box : Outbox)
    → e.attempts < cfg.max_attempts
    → Agrees box e
    → Budget cfg.max_attempts box
    → Budget cfg.max_attempts (deliver cfg w clients now e box)
unfolding deliver
deliver-Budget cfg w clients now e box lt agree b = elim (Bool-cases (w.marks now e)) [
  | inr off ↦ ground arith
  | inl on ↦ elim (Option-cases (send w clients now e)) [
    | inl sent ↦ ground (arith, mark_delivered-Budget cfg.max_attempts now e.id box b)
    | inr (reason, failed) ↦ ground (
      arith,
      mark_dead_letter-Budget cfg.max_attempts e reason box lt agree b,
      mark_failed-Budget cfg.max_attempts e reason (now + backoff_for cfg (suc e.attempts)) box,
    )
  ]
]

-- A delivery leaves other entries' attempts as they are.
pub mark_delivered-Agrees :
    (now id : ℕ) (e : OutboxEntry) (box : Outbox)
    → Agrees box e
    → Agrees (mark_delivered now id box) e
unfolding mark_delivered
mark_delivered-Agrees now id e [] _ = tt
mark_delivered-Agrees now id e (r ∷ rs) (a, as') =
    (ground arith, mark_delivered-Agrees now id e rs as')

pub mark_failed-Agrees :
    (id : ℕ) (reason : Text) (next : ℕ) (e : OutboxEntry) (box : Outbox)
    → e.id ≢ id
    → Agrees box e
    → Agrees (mark_failed id reason next box) e
unfolding mark_failed
mark_failed-Agrees id reason next e [] ne _ = tt
mark_failed-Agrees id reason next e (r ∷ rs) ne (a, as') =
    (ground arith, mark_failed-Agrees id reason next e rs ne as')

pub mark_dead_letter-Agrees :
    (id : ℕ) (reason : Text) (e : OutboxEntry) (box : Outbox)
    → e.id ≢ id
    → Agrees box e
    → Agrees (mark_dead_letter id reason box) e
unfolding mark_dead_letter
mark_dead_letter-Agrees id reason e [] ne _ = tt
mark_dead_letter-Agrees id reason e (r ∷ rs) ne (a, as') =
    (ground arith, mark_dead_letter-Agrees id reason e rs ne as')

pub deliver-Agrees :
    (cfg : WorkerConfig) (w : World) (clients : List Client) (now : ℕ) (d e : OutboxEntry)
    (box : Outbox)
    → e.id ≢ d.id
    → Agrees box e
    → Agrees (deliver cfg w clients now d box) e
unfolding deliver
deliver-Agrees cfg w clients now d e box ne agree = elim (Bool-cases (w.marks now d)) [
  | inr off ↦ ground arith
  | inl on ↦ elim (Option-cases (send w clients now d)) [
    | inl sent ↦ ground (arith, mark_delivered-Agrees now d.id e box agree)
    | inr (reason, failed) ↦ ground (
      arith,
      mark_dead_letter-Agrees d.id reason e box ne agree,
      mark_failed-Agrees d.id reason (now + backoff_for cfg (suc d.attempts)) e box ne agree,
    )
  ]
]

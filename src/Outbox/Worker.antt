-- ===== src/Outbox/Worker.antt =====
-- `OutboxWorker`: `backoffFor`, `send`, `deliver` and one poll. Durations are positive and counted
-- in nanoseconds as int64; the goroutines of a batch write rows of their own, so they run in turn.
use promo_go.Base.{
  ℕ, suc, ◌+◌, ◌-◌, ◌*◌, ◌%◌, ◌^◌, Bool, true, false, Option, none, some, List, [], ◌∷◌, Text, leb,
  ltb, ◌||◌, ◌==◌, if◌then◌else◌,
}
use promo_go.Domain.{Client, OutboxEntry, push, sms, unset}
use promo_go.Loyalty.Queries.{find_client_by_id}
use promo_go.Outbox.Queue.{Outbox, claim_batch, mark_delivered, mark_failed, mark_dead_letter}

pub record WorkerConfig : Type 0 where
  pub batch_size : ℕ
  pub max_attempts : ℕ
  pub base_backoff : ℕ
  pub max_backoff : ℕ

-- The parts outside this file, for one delivery: the push channel's and the SMS sender's error,
-- if any, whether the client can be read and what the error says, and whether a mark is written.
-- Each may depend on the entry and on the time.
pub record World : Type 0 where
  pub notify : ℕ → OutboxEntry → Option Text
  pub send_sms : ℕ → Text → OutboxEntry → Option Text
  pub load_client : ℕ → OutboxEntry → Bool
  pub load_error : OutboxEntry → Text
  pub marks : ℕ → OutboxEntry → Bool

-- BaseBackoff << (attempts - 1): the low 64 bits; those from 2 ^ 63 on are negative.
abbrev pub shifted : ℕ → ℕ → ℕ
shifted base attempts = (base * 2 ^ (attempts - 1)) % 2 ^ 64

unfoldable pub backoff_for : WorkerConfig → ℕ → ℕ
backoff_for cfg attempts =
    let backoff = shifted cfg.base_backoff attempts in
    if leb (2 ^ 63) backoff || (ltb cfg.max_backoff backoff || (backoff == 0))
    then cfg.max_backoff
    else backoff

unfoldable pub send : World → List Client → ℕ → OutboxEntry → Option Text
send w clients now e = elim e.channel [
  | sms ↦ elim (w.load_client now e) [
    | false ↦ some (w.load_error e)
    | true ↦ elim (find_client_by_id e.client_id clients) [
      | none ↦ some (w.load_error e)
      | some client ↦ w.send_sms now client.phone e
    ]
  ]
  | push ↦ w.notify now e
  | unset ↦ w.notify now e
]

-- `now` in nanoseconds. A mark that fails is logged and changes nothing.
unfoldable pub deliver : WorkerConfig → World → List Client → ℕ → OutboxEntry → Outbox → Outbox
unfolding backoff_for send
deliver cfg w clients now e box = elim (w.marks now e) [
  | false ↦ box
  | true ↦ elim (send w clients now e) [
    | none ↦ mark_delivered now e.id box
    | some reason ↦
        (if leb cfg.max_attempts (suc e.attempts)
          then mark_dead_letter e.id reason box
          else mark_failed e.id reason (now + backoff_for cfg (suc e.attempts)) box)
  ]
]

unfoldable pub deliver_all :
    WorkerConfig → World → List Client → ℕ → List OutboxEntry → Outbox → Outbox
unfolding deliver
deliver_all cfg w clients now [] box = box
deliver_all cfg w clients now (e ∷ es) box =
    deliver_all cfg w clients now es (deliver cfg w clients now e box)

-- `claims` tells whether the claim's statement runs.
unfoldable pub poll_once : WorkerConfig → World → Bool → List Client → ℕ → Outbox → Outbox
unfolding deliver_all
poll_once cfg w claims clients now box = elim claims [
  | false ↦ box
  | true ↦
      (let (entries, box') = claim_batch now cfg.batch_size box in
        deliver_all cfg w clients now entries box')
]

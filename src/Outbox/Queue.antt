-- ===== src/Outbox/Queue.antt =====
-- `NotificationOutboxRepository`: one function for each SQL statement. Times are nanoseconds.
use promo_go.Base.{
  ℕ, suc, ◌+◌, Bool, true, false, some, List, [], ◌∷◌, Text, take, leb, ◌||◌, ◌&&◌, ◌==◌,
  if◌then◌else◌,
}
use promo_go.Domain.{OutboxEntry, OutboxStatus, pending, processing, delivered, dead_letter}

abbrev pub Outbox : Type 0
Outbox = List OutboxEntry

-- claimLease, 60 seconds in nanoseconds
abbrev pub claim_lease : ℕ
claim_lease = 60000000000

abbrev pub is_open : OutboxStatus → Bool
is_open pending = true
is_open processing = true
is_open delivered = false
is_open dead_letter = false

-- WHERE (status = 'pending' OR status = 'processing') AND next_attempt_at <= now()
unfoldable pub due : ℕ → OutboxEntry → Bool
due now e = is_open e.status && leb e.next_attempt_at now

-- ORDER BY next_attempt_at
unfoldable pub insert : OutboxEntry → Outbox → Outbox
insert e [] = e ∷ []
insert e (f ∷ fs) = if leb e.next_attempt_at f.next_attempt_at then e ∷ f ∷ fs else f ∷ insert e fs

unfoldable pub candidates : ℕ → Outbox → Outbox
unfolding insert
candidates now [] = []
candidates now (e ∷ es) = if due now e then insert e (candidates now es) else candidates now es

unfoldable pub has_id : ℕ → Outbox → Bool
has_id id [] = false
has_id id (e ∷ es) = (e.id == id) || has_id id es

abbrev pub leased : ℕ → OutboxEntry → OutboxEntry
leased now e = record e { status = processing; next_attempt_at = now + claim_lease }

-- SET status = 'processing', next_attempt_at = now() + lease WHERE id IN (...)
unfoldable pub lease : ℕ → Outbox → Outbox → Outbox
lease now chosen [] = []
lease now chosen (e ∷ es) = (if has_id e.id chosen then leased now e else e) ∷ lease now chosen es

-- RETURNING
unfoldable pub returned : ℕ → Outbox → Outbox → Outbox
returned now chosen [] = []
returned now chosen (e ∷ es) =
    if has_id e.id chosen then leased now e ∷ returned now chosen es else returned now chosen es

unfoldable pub claim_batch : ℕ → ℕ → Outbox → Outbox × Outbox
unfolding candidates lease returned
claim_batch now limit box =
    let chosen = take limit (candidates now box) in (returned now chosen box, lease now chosen box)

unfoldable pub mark_delivered : ℕ → ℕ → Outbox → Outbox
mark_delivered now id [] = []
mark_delivered now id (e ∷ es) =
    (if e.id == id then record e { status = delivered; delivered_at = some now } else e)
    ∷ mark_delivered now id es

unfoldable pub mark_failed : ℕ → Text → ℕ → Outbox → Outbox
mark_failed id reason next [] = []
mark_failed id reason next (e ∷ es) =
    (if e.id == id
      then record e {
        status = pending;
        attempts = suc e.attempts;
        last_error = reason;
        next_attempt_at = next;
      }
      else e)
    ∷ mark_failed id reason next es

unfoldable pub mark_dead_letter : ℕ → Text → Outbox → Outbox
mark_dead_letter id reason [] = []
mark_dead_letter id reason (e ∷ es) =
    (if e.id == id
      then record e { status = dead_letter; attempts = suc e.attempts; last_error = reason }
      else e)
    ∷ mark_dead_letter id reason es

unfoldable pub count_pending : Outbox → ℕ
count_pending [] = 0
count_pending (e ∷ es) = if is_open e.status then suc (count_pending es) else count_pending es

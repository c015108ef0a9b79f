-- ===== src/Outbox/Lease.antt =====
-- Claims of the outbox, one after another.
use promo_go.Base.{
  ℕ, zero, suc, ◌+◌, ◌<◌, ◌≡◌, refl, true, false, [], ◌∷◌, arith, take, All, Bool-cases, Text, inl,
  inr, ◌≢◌,
}
use promo_go.Domain.{OutboxEntry}
use promo_go.Outbox.Queue.{
  Outbox, claim_batch, candidates, insert, has_id, due, lease, returned, claim_lease,
  mark_dead_letter, mark_delivered, mark_failed,
}

-- No row of `box` with this id is due.
abbrev pub NotDue : ℕ → ℕ → Outbox → Type 0
NotDue now id box = All (λ e. e.id ≡ id → due now e ≡ false) box

pub has_id-insert_other :
    (id : ℕ) (e : OutboxEntry) (box : Outbox)
    → has_id id (e ∷ box) ≡ false
    → has_id id (insert e box) ≡ false
unfolding insert has_id
has_id-insert_other id e [] h = h
has_id-insert_other id e (f ∷ fs) h = ground (arith, has_id-insert_other id e fs)

pub has_id-candidates :
    (now id : ℕ) (box : Outbox) → NotDue now id box → has_id id (candidates now box) ≡ false
unfolding candidates has_id
has_id-candidates now id [] _ = refl
has_id-candidates now id (e ∷ es) (h, hs) =
    ground (arith, has_id-candidates now id es hs, has_id-insert_other id e (candidates now es))

pub has_id-take : (n id : ℕ) (box : Outbox) → has_id id box ≡ false → has_id id (take n box) ≡ false
unfolding has_id
has_id-take zero id box h = refl
has_id-take (suc n) id [] h = refl
has_id-take (suc n) id (e ∷ es) h = ground (arith, has_id-take n id es)

pub has_id-returned :
    (now id : ℕ) (chosen box : Outbox)
    → has_id id chosen ≡ false
    → has_id id (returned now chosen box) ≡ false
unfolding returned has_id
has_id-returned now id chosen [] h = refl
has_id-returned now id chosen (e ∷ es) h = ground (arith, has_id-returned now id chosen es h)

pub chosen-of_returned :
    (now id : ℕ) (chosen box : Outbox)
    → has_id id (returned now chosen box) ≡ true
    → has_id id chosen ≡ true
unfolding returned has_id
chosen-of_returned now id chosen [] h = absurd (ground arith)
chosen-of_returned now id chosen (e ∷ es) h = ground (arith, chosen-of_returned now id chosen es)

pub lease-NotDue :
    (now later id : ℕ) (chosen box : Outbox)
    → has_id id chosen ≡ true
    → later < now + claim_lease
    → NotDue later id (lease now chosen box)
unfolding lease due
lease-NotDue now later id chosen [] h lt = tt
lease-NotDue now later id chosen (e ∷ es) h lt =
    (λ same. ground arith, lease-NotDue now later id chosen es h lt)

pub lease-NotDue_other :
    (now later id : ℕ) (chosen box : Outbox)
    → has_id id chosen ≡ false
    → NotDue later id box
    → NotDue later id (lease now chosen box)
unfolding lease
lease-NotDue_other now later id chosen [] h _ = tt
lease-NotDue_other now later id chosen (e ∷ es) h (first, rest) = (
  elim (Bool-cases (has_id e.id chosen)) [
    | inl in' ↦ (λ same. absurd (ground arith))
    | inr out ↦ (λ same. ground (arith, first))
  ],
  lease-NotDue_other now later id chosen es h rest,
)

pub mark_delivered-NotDue :
    (now later id other : ℕ) (box : Outbox)
    → NotDue later id box
    → NotDue later id (mark_delivered now other box)
unfolding mark_delivered due
mark_delivered-NotDue now later id other [] _ = tt
mark_delivered-NotDue now later id other (e ∷ es) (first, rest) =
    (λ same. ground (arith, first), mark_delivered-NotDue now later id other es rest)

pub mark_dead_letter-NotDue :
    (later id other : ℕ) (reason : Text) (box : Outbox)
    → NotDue later id box
    → NotDue later id (mark_dead_letter other reason box)
unfolding mark_dead_letter due
mark_dead_letter-NotDue later id other reason [] _ = tt
mark_dead_letter-NotDue later id other reason (e ∷ es) (first, rest) =
    (λ same. ground (arith, first), mark_dead_letter-NotDue later id other reason es rest)

pub mark_failed-NotDue :
    (later id other next : ℕ) (reason : Text) (box : Outbox)
    → other ≢ id
    → NotDue later id box
    → NotDue later id (mark_failed other reason next box)
unfolding mark_failed
mark_failed-NotDue later id other next reason [] ne _ = tt
mark_failed-NotDue later id other next reason (e ∷ es) ne (first, rest) =
    (λ same. ground (arith, first), mark_failed-NotDue later id other next reason es ne rest)

-- What happens to the outbox before `end`, but for a failed delivery of the entry `id`: claims by any
-- worker, marks of any other kind or entry, and new entries.
pub data Step (id end : ℕ) : Outbox → Outbox → Type 0 where
  claims :
      (box : Outbox) (now limit : ℕ) → now < end → Step id end box (claim_batch now limit box).1
  delivers : (box : Outbox) (now other : ℕ) → Step id end box (mark_delivered now other box)
  buries :
      (box : Outbox) (other : ℕ) (reason : Text)
      → Step id end box (mark_dead_letter other reason box)
  fails :
      (box : Outbox) (other next : ℕ) (reason : Text)
      → other ≢ id
      → Step id end box (mark_failed other reason next box)
  enqueues : (box : Outbox) (e : OutboxEntry) → e.id ≢ id → Step id end box (e ∷ box)

pub data Steps (id end : ℕ) (box : Outbox) : Outbox → Type 0 where
  here : Steps id end box box
  next :
      {mid after : Outbox} → Steps id end box mid → Step id end mid after → Steps id end box after

-- The entry is not due at any time before `end`.
abbrev pub Leased : ℕ → ℕ → Outbox → Type 0
Leased id end box = (t : ℕ) → t < end → NotDue t id box

pub claim_batch-unclaimed :
    (now limit id : ℕ) (box : Outbox)
    → NotDue now id box
    → has_id id (claim_batch now limit box).0 ≡ false
unfolding claim_batch
claim_batch-unclaimed now limit id box h =
    has_id-returned now id (take limit (candidates now box)) box
      (has_id-take limit id (candidates now box) (has_id-candidates now id box h))

pub Step-Leased :
    (id end : ℕ) {box after : Outbox}
    → Step id end box after
    → Leased id end box
    → Leased id end after
unfolding claim_batch
Step-Leased id end (claims box now limit lt) held t early =
    lease-NotDue_other now t id (take limit (candidates now box)) box
      (has_id-take limit id (candidates now box) (has_id-candidates now id box (held now lt)))
      (held t early)
Step-Leased id end (delivers box now other) held t early =
    mark_delivered-NotDue now t id other box (held t early)
Step-Leased id end (buries box other reason) held t early =
    mark_dead_letter-NotDue t id other reason box (held t early)
Step-Leased id end (fails box other later reason ne) held t early =
    mark_failed-NotDue t id other later reason box ne (held t early)
Step-Leased id end (enqueues box e ne) held t early = (λ same. absurd (ne same), held t early)

pub Steps-Leased :
    (id end : ℕ) {box after : Outbox}
    → Steps id end box after
    → Leased id end box
    → Leased id end after
Steps-Leased id end here held = held
Steps-Leased id end (next before step) held =
    Step-Leased id end step (Steps-Leased id end before held)

-- An entry that one claim returns is in no claim made before its lease ends, whatever claims, marks
-- and new entries come in between, as long as none of them marks that entry's delivery as failed,
-- which puts it back in the queue.
pub claim_batch_exclusive :
    (now later limit limit' id : ℕ) (box after : Outbox)
    → has_id id (claim_batch now limit box).0 ≡ true
    → Steps id (now + claim_lease) (claim_batch now limit box).1 after
    → later < now + claim_lease
    → has_id id (claim_batch later limit' after).0 ≡ false
unfolding claim_batch
claim_batch_exclusive now later limit limit' id box after h steps lt =
    let chosen = take limit (candidates now box) in
    let first = chosen-of_returned now id chosen box h in
    claim_batch-unclaimed later limit' id after (
      Steps-Leased id (now + claim_lease) steps
        (λ t early. lease-NotDue now t id chosen box first early) later lt)

-- ===== src/Store/Writer.antt =====
-- internal/server/store.go: QueueSample and the goroutine that writes samples in batches. A step is one
-- case of its select; `transactions` lists the calls of insertBatch, oldest first, each with the samples
-- it got and whether it was committed, and `dropped` counts the samples that found the channel full.
pub mod Order
pub mod Drain
use dingzi.Base.{ℕ, suc, Bool, List, [], ◌∷◌, ◌++◌, ltb, leb, if◌then◌else◌, length}

abbrev pub batch_max : ℕ
batch_max = 256

abbrev pub write_queue : ℕ
write_queue = 4096

pub record Transaction (A : Type 0) : Type 0 where
  pub committed : Bool
  pub samples : List A

pub record Writer (A : Type 0) : Type 0 where
  pub queue : List A
  pub batch : List A
  pub transactions : List (Transaction A)
  pub dropped : ℕ

module _ {A : Type 0} where
  unfoldable pub new_writer : Writer A
  new_writer = record { queue = []; batch = []; transactions = []; dropped = 0 }

  unfoldable pub queue_sample : A → Writer A → Writer A
  queue_sample q w =
      if ltb (length w.queue) write_queue
      then record w { queue = w.queue ++ q ∷ [] }
      else record w { dropped = suc w.dropped }

  -- `works` says whether the transaction commits.
  abbrev pub insert_batch : Bool → Writer A → Writer A
  insert_batch works w = record w {
    transactions = w.transactions ++ (record { committed = works; samples = w.batch }) ∷ [];
    batch = [];
  }

  unfoldable pub flush : Bool → Writer A → Writer A
  flush works w = elim w.batch [ [] ↦ w | q ∷ qs ↦ insert_batch works w ]

  -- `case q := <-s.writeC`
  unfoldable pub receive : Bool → Writer A → Writer A
  unfolding flush
  receive works w = elim w.queue [
    | [] ↦ w
    | q ∷ queue ↦
        let taken = record w { queue = queue; batch = w.batch ++ q ∷ [] } in
        if leb batch_max (length taken.batch) then flush works taken else taken
  ]

  -- The loop over what is in the channel once the store is closed; `works` has a result for each
  -- transaction that it may make.
  unfoldable pub drain : List A → (ℕ → Bool) → Writer A → Writer A
  unfolding receive flush
  drain [] works w = flush (works 0) w
  drain (q ∷ queue) works w = drain queue works (receive (works (suc (length queue))) w)

  unfoldable pub stop : (ℕ → Bool) → Writer A → Writer A
  unfolding drain
  stop works w = drain w.queue works w

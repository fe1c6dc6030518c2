-- ===== src/Store/Writer/Drain.antt =====
-- The writer over every history, and what a close leaves.
use dingzi.Base.{
  ℕ, suc, ◌≡◌, refl, sym, ap, ◌∙◌, inl, inr, Bool, List, [], ◌∷◌, ◌++◌, arith, ltb, leb,
  if◌then◌else◌, length, length-append, Bool-cases,
}
use mathlib.Core.List.{append_assoc, append-nil}
use dingzi.Store.Writer.{
  Writer, new_writer, queue_sample, flush, receive, drain, stop, batch_max, write_queue,
}
use dingzi.Store.Writer.Order.{
  samples_of, IsOrdered, flush-cases, flush-IsOrdered, taken, receive-IsOrdered,
}

pub data Event (A : Type 0) : Type 0 where
  queues : A → Event A
  receives : Bool → Event A
  ticks : Bool → Event A

module _ {A : Type 0} where
  unfoldable pub step : Writer A → Event A → Writer A
  step w (queues q) = queue_sample q w
  step w (receives works) = receive works w
  step w (ticks works) = flush works w

  -- The samples for which the channel had room, oldest first.
  abbrev pub accepts : List A → Writer A → Event A → List A
  accepts acc w (queues q) = if ltb (length w.queue) write_queue then acc ++ q ∷ [] else acc
  accepts acc w (receives works) = acc
  accepts acc w (ticks works) = acc

  pub data Reachable : List A → Writer A → Type 0 where
    start : Reachable [] new_writer
    next :
        {acc : List A} {w : Writer A}
        → Reachable acc w
        → (e : Event A) → Reachable (accepts acc w e) (step w e)

  queue_sample-IsOrdered :
      (acc : List A) (q : A) (w : Writer A)
      → IsOrdered acc w
      → IsOrdered (accepts acc w (queues q)) (queue_sample q w)
  unfolding queue_sample
  queue_sample-IsOrdered acc q w v = elim (Bool-cases (ltb (length w.queue) write_queue)) [
    | inr full ↦
        rw (full, queue_sample)
          (record { order = v.order; batches = v.batches; batch = v.batch; queue = v.queue })
    | inl room ↦
        rw (room, queue_sample)
          (record {
            order =
                sym
                  (ap (λ r. samples_of w.transactions ++ r) (append_assoc w.batch w.queue (q ∷ [])))
                ∙ (sym (append_assoc (samples_of w.transactions) (w.batch ++ w.queue) (q ∷ []))
                    ∙ ap (λ r. r ++ q ∷ []) v.order);
            batches = v.batches;
            batch = v.batch;
            queue = ground (arith, room, length-append w.queue (q ∷ []));
          })
  ]

  -- In every history the samples that the channel took are, in their order, those of the
  -- transactions, of the batch and of the channel; a transaction has at most 256, the batch fewer and
  -- the channel at most 4096.
  pub Reachable-IsOrdered : {acc : List A} {w : Writer A} → Reachable acc w → IsOrdered acc w
  unfolding step new_writer
  Reachable-IsOrdered start = record {
    order = refl;
    batches = tt;
    batch = omega arith;
    queue = omega arith;
  }
  Reachable-IsOrdered (next {acc = acc} {w = w} r (queues q)) =
      queue_sample-IsOrdered acc q w (Reachable-IsOrdered r)
  Reachable-IsOrdered (next {acc = acc} {w = w} r (receives works)) =
      receive-IsOrdered acc works w (Reachable-IsOrdered r)
  Reachable-IsOrdered (next {acc = acc} {w = w} r (ticks works)) =
      let v = Reachable-IsOrdered r in
      flush-IsOrdered acc works w v.order v.batches (omega (arith, v.batch)) v.queue

  flush-empty :
      (works : Bool) (w : Writer A)
      → ((flush works w).batch ≡ []) × ((flush works w).queue ≡ w.queue)
  flush-empty works w = elim (flush-cases works w) [
    | inl (e, same) ↦ (rw same e, rw same refl)
    | inr same ↦ (rw same refl, rw same refl)
  ]

  receive-queue :
      (works : Bool) (q : A) (rest : List A) (w : Writer A)
      → w.queue ≡ q ∷ rest
      → (receive works w).queue ≡ rest
  unfolding receive
  receive-queue works q rest w e =
      elim (Bool-cases (leb batch_max (length (taken q rest w).batch))) [
        | inl full ↦ rw (e, receive, full) (flush-empty works (taken q rest w)).1
        | inr room ↦ rw (e, receive, room) refl
      ]

  drain-IsOrdered :
      (acc queue : List A) (works : ℕ → Bool) (w : Writer A)
      → w.queue ≡ queue
      → IsOrdered acc w
      → IsOrdered acc (drain queue works w)
        × ((drain queue works w).batch ≡ [])
        × ((drain queue works w).queue ≡ [])
  unfolding drain
  drain-IsOrdered acc [] works w e v =
      let (batch, queue) = flush-empty (works 0) w in
      (
        flush-IsOrdered acc (works 0) w v.order v.batches (omega (arith, v.batch)) v.queue,
        batch,
        queue ∙ e,
      )
  drain-IsOrdered acc (q ∷ queue) works w e v =
      let ok = works (suc (length queue)) in
      drain-IsOrdered acc queue works (receive ok w) (receive-queue ok q queue w e)
        (receive-IsOrdered acc ok w v)

  -- When the store is closed, after any history, the writer stops with nothing in hand: the
  -- transactions have been given exactly the samples that the channel took, in their order.
  pub stop-Reachable :
      {acc : List A} {w : Writer A}
      → Reachable acc w
      → (works : ℕ → Bool)
      → let after = stop works w in
        (samples_of after.transactions ≡ acc) × (after.batch ≡ []) × (after.queue ≡ [])
  unfolding stop
  stop-Reachable {acc = acc} {w = w} r works =
      let (v, batch, queue) = drain-IsOrdered acc w.queue works w refl (Reachable-IsOrdered r) in
      let whole : samples_of (drain w.queue works w).transactions ++ ([] ++ []) ≡ acc =
        rw (batch, queue) at v.order in
      (sym (append-nil _) ∙ whole, batch, queue)

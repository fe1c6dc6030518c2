-- ===== src/Store/Writer/Order.antt =====
-- What becomes of the samples that the channel took.
use dingzi.Base.{
  suc, ◌≤◌, ◌<◌, ◌≡◌, ◌⊎◌, refl, sym, ap, ◌∙◌, inl, inr, Bool, List, [], ◌∷◌, ◌++◌, arith, leb,
  length, length-append, Bool-cases, List-cases, All,
}
use mathlib.Core.List.{append_assoc, append-nil}
use dingzi.Store.Writer.{Transaction, Writer, insert_batch, flush, receive, batch_max, write_queue}

module _ {A : Type 0} where
  abbrev pub samples_of : List (Transaction A) → List A
  samples_of [] = []
  samples_of (t ∷ ts) = t.samples ++ samples_of ts

  -- What the writer has got, oldest first.
  abbrev pub content : Writer A → List A
  content w = samples_of w.transactions ++ (w.batch ++ w.queue)

  pub record IsOrdered (accepted : List A) (w : Writer A) : Type 0 where
    pub order : content w ≡ accepted
    pub batches : All (λ t. length t.samples ≤ batch_max) w.transactions
    pub batch : length w.batch < batch_max
    pub queue : length w.queue ≤ write_queue

  samples_of-append :
      (ts : List (Transaction A)) (t : Transaction A)
      → samples_of (ts ++ t ∷ []) ≡ samples_of ts ++ t.samples
  samples_of-append [] t = append-nil t.samples
  samples_of-append (s ∷ ts) t =
      ap (λ r. s.samples ++ r) (samples_of-append ts t) ∙ sym (append_assoc s.samples _ _)

  insert_batch-content : (works : Bool) (w : Writer A) → content (insert_batch works w) ≡ content w
  insert_batch-content works w =
      let t : Transaction A = record { committed = works; samples = w.batch } in
      rw (samples_of-append w.transactions t)
        (append_assoc (samples_of w.transactions) w.batch w.queue)

  pub flush-cases :
      (works : Bool) (w : Writer A)
      → ((w.batch ≡ []) × (flush works w ≡ w)) ⊎ (flush works w ≡ insert_batch works w)
  unfolding flush
  flush-cases works w = elim (List-cases w.batch) [
    | inl e ↦ inl (e, simp (e, flush) refl)
    | inr (q, qs, e) ↦ inr (simp (e, flush) refl)
  ]

  -- The writer with the first sample of the channel in its batch.
  abbrev pub taken : A → List A → Writer A → Writer A
  taken q rest w = record w { queue = rest; batch = w.batch ++ q ∷ [] }

  pub receive-cases :
      (works : Bool) (w : Writer A)
      → (receive works w ≡ w)
        ⊎ ((q : A) × (rest : List A) × (w.queue ≡ q ∷ rest)
            × (((length (taken q rest w).batch < batch_max) × (receive works w ≡ taken q rest w))
                ⊎ (receive works w ≡ flush works (taken q rest w))))
  unfolding receive
  receive-cases works w = elim (List-cases w.queue) [
    | inl e ↦ inl (simp (e, receive) refl)
    | inr (q, rest, e) ↦ elim (Bool-cases (leb batch_max (length (taken q rest w).batch))) [
      | inl full ↦ inr (q, rest, e, inr (rw (e, receive, full) refl))
      | inr room ↦ inr (q, rest, e, inl (ground (arith, room), rw (e, receive, room) refl))
    ]
  ]

  insert_batch-IsOrdered :
      (accepted : List A) (works : Bool) (w : Writer A)
      → (content w ≡ accepted)
      → All (λ t. length t.samples ≤ batch_max) w.transactions
      → length w.batch ≤ batch_max
      → length w.queue ≤ write_queue
      → IsOrdered accepted (insert_batch works w)
  insert_batch-IsOrdered accepted works w o b short q = record {
    order = insert_batch-content works w ∙ o;
    batches = All-append w.transactions b;
    batch = omega arith;
    queue = q;
  }
    where
      All-append :
          (ts : List (Transaction A))
          → All (λ t. length t.samples ≤ batch_max) ts
          → All
              (λ t. length t.samples ≤ batch_max)
              (ts ++ (record { committed = works; samples = w.batch }) ∷ [])
      All-append [] a = (short, tt)
      All-append (t ∷ ts) a = (a.0, All-append ts a.1)

  pub flush-IsOrdered :
      (accepted : List A) (works : Bool) (w : Writer A)
      → content w ≡ accepted
      → All (λ t. length t.samples ≤ batch_max) w.transactions
      → length w.batch ≤ batch_max
      → length w.queue ≤ write_queue
      → IsOrdered accepted (flush works w)
  flush-IsOrdered accepted works w o b short q = elim (flush-cases works w) [
    | inl (e, same) ↦
        rw same (record { order = o; batches = b; batch = rw e (omega arith); queue = q })
    | inr same ↦ rw same (insert_batch-IsOrdered accepted works w o b short q)
  ]

  pub receive-IsOrdered :
      (accepted : List A) (works : Bool) (w : Writer A)
      → IsOrdered accepted w
      → IsOrdered accepted (receive works w)
  receive-IsOrdered accepted works w v = elim (receive-cases works w) [
    | inl same ↦ rw same v
    | inr (q, rest, e, moved) ↦
        let shorter : suc (length rest) ≤ write_queue = rw e at v.queue in
        let order : content (taken q rest w) ≡ accepted =
          ap (λ r. samples_of w.transactions ++ r) (append_assoc w.batch (q ∷ []) rest)
          ∙ (rw e at v.order) in
        let longer = length-append w.batch (q ∷ []) in
        elim moved [
          | inl (room, same) ↦ rw same (record {
            order = order;
            batches = v.batches;
            batch = room;
            queue = omega (arith, shorter);
          })
          | inr same ↦ rw same (
              flush-IsOrdered accepted works (taken q rest w) order v.batches
                (omega (arith, longer, v.batch)) (omega (arith, shorter)))
        ]
  ]

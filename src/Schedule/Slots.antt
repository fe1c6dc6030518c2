-- ===== src/Schedule/Slots.antt =====
-- The slots: how many checks run at once, and never two of one monitor.
use dingzi.Base.{
  ℕ, suc, ◌+◌, ◌≤◌, ◌≡◌, ◌≢◌, inl, inr, ap, true, false, Bool-cases, Option, none, some, List, [],
  ◌∷◌, arith, length, ltb, number_key,
}
use dingzi.Base.Table.{
  lookup, IsUnique, erase-IsUnique, insert-IsUnique, lookup-erase, erase_absent,
}
use dingzi.Base.Table.Counts.{length-erase_present}
use dingzi.Schedule.{
  ServiceEngine, Monitor, new_service_engine, acquire, unmark, free_slot, visit, visit_all,
  schedule, max_slots, or_false, is_due,
}

-- `leaving` checks have ended and have yet to receive from the channel.
pub record IsValid (leaving : ℕ) (e : ServiceEngine) : Type 0 where
  pub unique : IsUnique e.running
  pub marked : (id : ℕ) → lookup id e.running ≢ some false
  pub counted : e.slots ≡ length e.running + leaving
  pub bounded : e.slots ≤ max_slots

new-IsValid : IsValid 0 new_service_engine
unfolding new_service_engine
new-IsValid = record {
  unique = tt;
  marked = λ id h. absurd (ground arith);
  counted = omega arith;
  bounded = omega arith;
}

pub acquire-IsValid :
    {n : ℕ} (id : ℕ) (e : ServiceEngine) → IsValid n e → IsValid n (acquire id e).0
unfolding acquire
acquire-IsValid id e v = elim (Bool-cases (or_false (lookup id e.running))) [
  | inl busy ↦ rw (busy, acquire) v
  | inr idle ↦ elim (Bool-cases (ltb e.slots max_slots)) [
    | inr full ↦ rw (idle, acquire, full) v
    | inl room ↦
        let absent : lookup id e.running ≡ none = ground (arith, v.marked id) in
        rw (idle, acquire, room)
          (record {
            unique = insert-IsUnique id true e.running v.unique;
            marked = λ j h. ground (arith, v.marked j, lookup-erase j id e.running);
            counted = omega (arith, v.counted, ap length (erase_absent id e.running absent));
            bounded = ground (arith, v.bounded);
          })
  ]
]

-- A check that ends was started.
unmark-IsValid :
    {n : ℕ} (id : ℕ) (e : ServiceEngine)
    → lookup id e.running ≡ some true
    → IsValid n e
    → IsValid (suc n) (unmark id e)
unfolding unmark
unmark-IsValid id e h v = record {
  unique = erase-IsUnique id e.running v.unique;
  marked = λ j g. ground (arith, v.marked j, lookup-erase j id e.running);
  counted = omega (arith, v.counted, length-erase_present id true e.running v.unique h);
  bounded = v.bounded;
}

free_slot-IsValid : {n : ℕ} (e : ServiceEngine) → IsValid (suc n) e → IsValid n (free_slot e)
unfolding free_slot
free_slot-IsValid e v = record {
  unique = v.unique;
  marked = v.marked;
  counted = omega (arith, v.counted);
  bounded = omega (arith, v.bounded);
}

visit-IsValid :
    {n : ℕ} (now : ℕ) (m : Monitor) (e : ServiceEngine) → IsValid n e → IsValid n (visit now m e).0
unfolding visit
visit-IsValid now m e v = elim (Bool-cases (is_due now m e)) [
  | inr wait ↦ rw (wait, visit) v
  | inl due ↦
      let w = acquire-IsValid m.id e v in
      elim (Bool-cases (acquire m.id e).1) [
        | inr busy ↦ rw (due, visit, busy) w
        | inl free ↦
            rw (due, visit, free)
              (record {
                unique = w.unique;
                marked = w.marked;
                counted = w.counted;
                bounded = w.bounded;
              })
      ]
]

visit_all-IsValid :
    {n : ℕ} (now : ℕ) (items : List Monitor) (e : ServiceEngine)
    → IsValid n e
    → IsValid n (visit_all now items e).0
unfolding visit_all
visit_all-IsValid now [] e v = v
visit_all-IsValid now (m ∷ items) e v =
    visit_all-IsValid now items (visit now m e).0 (visit-IsValid now m e v)

-- The histories: ticks of the scheduler, checks asked for by hand, and the two steps of a check that
-- ends. The number counts the checks between their two steps.
pub data Reachable : ℕ → ServiceEngine → Type 0 where
  start : Reachable 0 new_service_engine
  ticks :
      {n : ℕ} {e : ServiceEngine}
      → Reachable n e
      → (now : ℕ) → (items : Option (List Monitor)) → Reachable n (schedule now items e).0
  asks : {n : ℕ} {e : ServiceEngine} → Reachable n e → (id : ℕ) → Reachable n (acquire id e).0
  ends :
      {n : ℕ} {e : ServiceEngine}
      → Reachable n e
      → (id : ℕ) → lookup id e.running ≡ some true
      → Reachable (suc n) (unmark id e)
  frees : {n : ℕ} {e : ServiceEngine} → Reachable (suc n) e → Reachable n (free_slot e)

schedule-IsValid :
    {n : ℕ} (now : ℕ) (items : Option (List Monitor)) (e : ServiceEngine)
    → IsValid n e
    → IsValid n (schedule now items e).0
unfolding schedule
schedule-IsValid now none e v = v
schedule-IsValid now (some items) e v =
    let w = visit_all-IsValid now items e v in
    record { unique = w.unique; marked = w.marked; counted = w.counted; bounded = w.bounded }

-- After any history of ticks, checks asked for and checks that end, in whatever order the steps of
-- `release` fall among the other calls, the slots taken are the monitors that are being checked, each
-- once, and the checks that have yet to give their slot back, and they are at most 16.
pub Reachable-IsValid_slots : {n : ℕ} {e : ServiceEngine} → Reachable n e → IsValid n e
Reachable-IsValid_slots start = new-IsValid
Reachable-IsValid_slots (ticks {e = e} r now items) =
    schedule-IsValid now items e (Reachable-IsValid_slots r)
Reachable-IsValid_slots (asks {e = e} r id) = acquire-IsValid id e (Reachable-IsValid_slots r)
Reachable-IsValid_slots (ends {e = e} r id h) = unmark-IsValid id e h (Reachable-IsValid_slots r)
Reachable-IsValid_slots (frees {e = e} r) = free_slot-IsValid e (Reachable-IsValid_slots r)

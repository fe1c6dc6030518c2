-- ===== src/Alerts/Queue.antt =====
-- The queue of notifications: its bound, the number of attempts, and which event is next.
use dingzi.Base.{
  ℕ, ◌+◌, ◌≤◌, ◌≡◌, inl, inr, Option, none, some, List, [], ◌∷◌, ◌++◌, arith, Bool, true, false,
  Bool-cases, Option-cases, String, if◌then◌else◌, All, number_key,
}
use dingzi.Base.Table.{lookup}
use dingzi.Alerts.{
  AlertRule, AlertEvent, AlertState, Tables, Transition, is_pending, pending_count, max_pending,
  record_event, write, evaluate, judge, or_zero_state,
}
use dingzi.Alerts.Notify.{
  NotificationChannel, Found, Sent, attempt, deliver_next, is_due, tested_event, record_test,
  test_channel, handle_test_channel, found, missing, broken, accepted, cancelled, refused,
}

-- No event counts more than three attempts, and one that waits counts at most two.
abbrev pub Tried : AlertEvent → Type 0
Tried e = (e.attempts ≤ 3) × (is_pending e ≡ true → e.attempts ≤ 2)

pub record IsBounded (events : List AlertEvent) : Type 0 where
  pub tried : All Tried events
  pub pending_bounded : pending_count events ≤ max_pending

pending_count-append :
    (l : List AlertEvent) (e : AlertEvent)
    → pending_count (l ++ e ∷ []) ≡ pending_count l + (if is_pending e then 1 else 0)
unfolding pending_count
pending_count-append [] e = omega arith
pending_count-append (x ∷ l) e = omega (arith, pending_count-append l e)

append-Tried :
    (l : List AlertEvent) (e : AlertEvent) → All Tried l → Tried e → All Tried (l ++ e ∷ [])
append-Tried [] e a t = (t, tt)
append-Tried (x ∷ l) e a t = (a.0, append-Tried l e a.1 t)

module _ {Value : Type 0} (reaches : Value → Value → Bool)
    (describe : Transition → AlertRule Value → Option Value → String) where
  record_event-IsBounded :
      (a : AlertRule Value) (now : ℕ) (value : Option Value) (state : Option Transition)
      (events : List AlertEvent)
      → IsBounded events
      → IsBounded (record_event reaches describe a now value state events)
  unfolding record_event
  record_event-IsBounded a now value none events v = v
  record_event-IsBounded a now value (some state) events v = record {
    tried = append-Tried events _ v.tried (omega arith, λ p. omega arith);
    pending_bounded = rw (pending_count-append events) (ground (arith, v.pending_bounded));
  }

  write-IsBounded :
      (a : AlertRule Value) (now : ℕ) (value : Option Value) (st : AlertState)
      (state : Option Transition) (t : Tables)
      → IsBounded t.events
      → IsBounded (write reaches describe a now value st state t).events
  unfolding write
  write-IsBounded a now value st state t v = record_event-IsBounded a now value state t.events v

  pub evaluate-IsBounded :
      (commits : ℕ → Bool) (observation : AlertRule Value → Option Value) (now : ℕ)
      (rules : List (AlertRule Value)) (t : Tables)
      → IsBounded t.events
      → IsBounded (evaluate reaches describe commits observation now rules t).0.events
  unfolding evaluate
  evaluate-IsBounded commits observation now [] t v = v
  evaluate-IsBounded commits observation now (a ∷ rules) t v = elim (Bool-cases a.enabled) [
    | inr off ↦ simp (off, evaluate) (evaluate-IsBounded commits observation now rules t v)
    | inl on ↦
        elim (Option-cases
          (judge reaches a now (observation a) (or_zero_state (lookup a.id t.states)))) [
            | inl same ↦
                simp (same, evaluate, on) (evaluate-IsBounded commits observation now rules t v)
            | inr ((st, state), changed) ↦ elim (Bool-cases (commits a.id)) [
              | inl fine ↦
                  simp (changed, evaluate, on, fine)
                    (evaluate-IsBounded commits observation now rules
                      (write reaches describe a now (observation a) st state t)
                      (write-IsBounded a now (observation a) st state t v))
              | inr fails ↦ simp (changed, evaluate, on, fails) v
            ]
          ]
  ]

module _ (channel : ℕ → Found) (send : NotificationChannel → AlertEvent → Sent) where
  attempt-Tried :
      (later : ℕ) (e after : AlertEvent)
      → Tried e
      → is_pending e ≡ true
      → attempt channel send later e ≡ some after
      → Tried after
  unfolding attempt
  attempt-Tried later e after t p h = ground arith

  deliver_next-Tried :
      (now later : ℕ) (saves : Bool) (events : List AlertEvent)
      → All Tried events
      → All Tried (deliver_next channel send now later saves events).0
        × (pending_count (deliver_next channel send now later saves events).0
            ≤ pending_count events)
  unfolding deliver_next pending_count
  deliver_next-Tried now later saves [] a = (tt, omega arith)
  deliver_next-Tried now later saves (e ∷ l) a = elim (Bool-cases (is_due now e)) [
    | inr wait ↦
        let (rest, le) = deliver_next-Tried now later saves l a.1 in
        rw (wait, deliver_next) ((a.0, rest), omega (arith, le))
    | inl due ↦
        let p : is_pending e ≡ true = ground (arith, due) in
        elim (Option-cases (attempt channel send later e)) [
          | inl stuck ↦ rw (due, deliver_next, stuck) (a, omega arith)
          | inr (x, made) ↦ elim (Bool-cases saves) [
            | inr lost ↦ rw (due, deliver_next, made, lost) (a, omega arith)
            | inl saved ↦
                rw (due, deliver_next, made, saved)
                  ((attempt-Tried later e x a.0 p made, a.1), ground (arith, p))
          ]
        ]
  ]

  deliver_next-IsBounded :
      (now later : ℕ) (saves : Bool) (events : List AlertEvent)
      → IsBounded events
      → IsBounded (deliver_next channel send now later saves events).0
  deliver_next-IsBounded now later saves events v =
      let (tried, le) = deliver_next-Tried now later saves events v.tried in
      record { tried = tried; pending_bounded = omega (arith, le, v.pending_bounded) }

  tested-IsBounded :
      (id now : ℕ) (error : Option String) (events : List AlertEvent)
      → IsBounded events
      → IsBounded (events ++ tested_event id now error ∷ [])
  unfolding tested_event
  tested-IsBounded id now none events v = record {
    tried = append-Tried events _ v.tried (omega arith, λ p. omega arith);
    pending_bounded = rw (pending_count-append events) (ground (arith, v.pending_bounded));
  }
  tested-IsBounded id now (some detail) events v = record {
    tried = append-Tried events _ v.tried (omega arith, λ p. omega arith);
    pending_bounded = rw (pending_count-append events) (ground (arith, v.pending_bounded));
  }

  record_test-IsBounded :
      (id now : ℕ) (saves : Bool) (events : List AlertEvent) (sent : Sent)
      → IsBounded events
      → IsBounded (record_test id now saves events sent).0
  unfolding record_test
  record_test-IsBounded id now saves events cancelled v = v
  record_test-IsBounded id now false events accepted v = v
  record_test-IsBounded id now true events accepted v = tested-IsBounded id now none events v
  record_test-IsBounded id now false events (refused detail) v = v
  record_test-IsBounded id now true events (refused detail) v =
      tested-IsBounded id now (some detail) events v

  test_channel-IsBounded :
      (id now : ℕ) (saves : Bool) (events : List AlertEvent) (c : Found)
      → IsBounded events
      → IsBounded (test_channel send id now saves events c).0
  unfolding test_channel
  test_channel-IsBounded id now saves events missing v = v
  test_channel-IsBounded id now saves events broken v = v
  test_channel-IsBounded id now saves events (found c) v = elim (Bool-cases c.enabled) [
    | inr off ↦ simp off v
    | inl on ↦
        simp on (record_test-IsBounded id now saves events (send c (tested_event id now none)) v)
  ]

  handle_test_channel-IsBounded :
      (id now : ℕ) (saves : Bool) (events : List AlertEvent)
      → IsBounded events
      → IsBounded (handle_test_channel channel send id now saves events).0
  unfolding handle_test_channel
  handle_test_channel-IsBounded id now saves events v =
      test_channel-IsBounded id now saves events (channel id) v

-- The histories of the queue: evaluations, deliveries, and tests of channels.
module _ {Value : Type 0} (reaches : Value → Value → Bool)
    (describe : Transition → AlertRule Value → Option Value → String) where
  pub data Reachable : List AlertEvent → Type 0 where
    start : Reachable []
    evaluates :
        {events : List AlertEvent}
        → Reachable events
        → (states : List (ℕ × AlertState)) → (commits : ℕ → Bool)
        → (observation : AlertRule Value → Option Value) → (now : ℕ)
        → (rules : List (AlertRule Value))
        → Reachable
            (evaluate reaches describe commits observation now rules
              (record { states = states; events = events })).0.events
    delivers :
        {events : List AlertEvent}
        → Reachable events
        → (channel : ℕ → Found) → (send : NotificationChannel → AlertEvent → Sent) → (now later : ℕ)
        → (saves : Bool) → Reachable (deliver_next channel send now later saves events).0
    tests :
        {events : List AlertEvent}
        → Reachable events
        → (channel : ℕ → Found) → (send : NotificationChannel → AlertEvent → Sent) → (id now : ℕ)
        → (saves : Bool) → Reachable (handle_test_channel channel send id now saves events).0

  -- After any history of evaluations, deliveries and tests of channels, whichever statements of the
  -- database fail, at most 1000 events wait for delivery; no event counts more than three attempts,
  -- and one that waits counts at most two.
  pub Reachable-IsBounded_queue : {events : List AlertEvent} → Reachable events → IsBounded events
  unfolding pending_count
  Reachable-IsBounded_queue start = record { tried = tt; pending_bounded = omega arith }
  Reachable-IsBounded_queue (evaluates {events = events} r states commits observation now rules) =
      evaluate-IsBounded reaches describe commits observation now rules
        (record { states = states; events = events }) (Reachable-IsBounded_queue r)
  Reachable-IsBounded_queue (delivers {events = events} r channel send now later saves) =
      deliver_next-IsBounded channel send now later saves events (Reachable-IsBounded_queue r)
  Reachable-IsBounded_queue (tests {events = events} r channel send id now saves) =
      handle_test_channel-IsBounded channel send id now saves events (Reachable-IsBounded_queue r)

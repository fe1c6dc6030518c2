-- ===== src/Alerts.antt =====
-- internal/server/alerts.go: the evaluation of alert rules and the queue of notifications. Times
-- are Unix seconds. A row of `alert_states` is an AlertState, absent as zeros (COALESCE); the rows
-- of `alert_events` are listed by rising id. `reaches` is `>=` on float64, `describe` the text made
-- by fmt.Sprintf. A transaction that the database refuses leaves the tables as they were.
pub mod Duration
pub mod Notify
pub mod Alternation
pub mod Queue
mod Tests
use dingzi.Base.{
  ℕ, ◌+◌, ◌*◌, ◌^◌, Bool, true, false, not, ◌&&◌, ◌||◌, Option, none, some, List, [], ◌∷◌, ◌++◌,
  String, ltb, leb, eqb, if◌then◌else◌, is_some, number_key, text_key, length,
}
use dingzi.Base.Table.{Table, lookup, insert}

abbrev pub max_pending : ℕ
max_pending = 1000

pub record AlertState : Type 0 where
  pub since : ℕ
  pub active : Bool
  pub last_eval : ℕ

abbrev pub zero_state : AlertState
zero_state = record { since = 0; active = false; last_eval = 0 }

pub record AlertRule (Value : Type 0) : Type 0 where
  pub id : ℕ
  pub name : String
  pub server_id : ℕ
  pub monitor_id : ℕ
  pub metric : String
  pub threshold : Value
  pub duration_seconds : ℕ
  pub channel_id : ℕ
  pub enabled : Bool
  pub revision : ℕ

pub data Transition : Type 0 where
  firing recovered : Transition

pub data Delivery : Type 0 where
  pending delivered skipped failed : Delivery

-- The event of a tested channel has no rule, and for its state "test" no transition.
pub record AlertEvent : Type 0 where
  pub rule_id : Option ℕ
  pub at : ℕ
  pub state : Option Transition
  pub message : String
  pub channel_id : Option ℕ
  pub delivery : Delivery
  pub attempts : ℕ
  pub delivery_error : String
  pub next_attempt : ℕ

pub record Tables : Type 0 where
  pub states : Table ℕ AlertState
  pub events : List AlertEvent

abbrev pub same_bool : Bool → Bool → Bool
same_bool true b = b
same_bool false b = not b

abbrev pub is_pending : AlertEvent → Bool
is_pending e = elim e.delivery [ pending ↦ true | _ ↦ false ]

-- SELECT COUNT(*) FROM alert_events WHERE delivery='pending'
unfoldable pub pending_count : List AlertEvent → ℕ
pending_count [] = 0
pending_count (e ∷ l) = (if is_pending e then 1 else 0) + pending_count l

-- The row of a rule, with zeros where there is none.
abbrev pub or_zero_state : Option AlertState → AlertState
or_zero_state none = zero_state
or_zero_state (some st) = st

module _ {Value : Type 0} (reaches : Value → Value → Bool) where
  -- `known && value >= a.Threshold`
  abbrev pub is_firing : AlertRule Value → Option Value → Bool
  is_firing a none = false
  is_firing a (some value) = reaches value a.threshold

  -- The two settings of `since`.
  unfoldable pub since_of : AlertRule Value → ℕ → Option Value → AlertState → ℕ
  since_of a now value st =
      let since =
        if not st.active && (eqb st.last_eval 0 || ltb (st.last_eval + 15) now)
        then 0
        else st.since in
      if not (is_firing a value) then 0 else if eqb since 0 then now else since

  -- The new `active` and the transition, none for the empty text.
  unfoldable pub transition :
      AlertRule Value → ℕ → Option Value → AlertState → Bool × Option Transition
  unfolding since_of
  transition a now value st =
      if is_firing a value
        && (not st.active && leb (since_of a now value st + a.duration_seconds) now)
      then (true, some firing)
      else if is_some value && (not (is_firing a value) && st.active)
      then (false, some recovered)
      else (st.active, none)

  -- The row to write and the transition, none when nothing changed (`continue`).
  unfoldable pub judge :
      AlertRule Value → ℕ → Option Value → AlertState → Option (AlertState × Option Transition)
  unfolding since_of transition
  judge a now value st =
      let since = since_of a now value st in
      let (active, state) = transition a now value st in
      if eqb since st.since && (same_bool active st.active && (active || eqb since 0))
      then none
      else some (record { since = since; active = active; last_eval = now }, state)

  module _ (describe : Transition → AlertRule Value → Option Value → String) where
    unfoldable pub record_event :
        AlertRule Value → ℕ → Option Value → Option Transition → List AlertEvent → List AlertEvent
    unfolding pending_count
    record_event a now value none events = events
    record_event a now value (some state) events =
        let full = leb max_pending (pending_count events) in
        events
        ++ record {
          rule_id = some a.id;
          at = now;
          state = some state;
          message = describe state a value;
          channel_id = some a.channel_id;
          delivery = if full then failed else pending;
          attempts = 0;
          delivery_error = if full then "待发送通知超过 1000 条" else "";
          next_attempt = 0;
        }
          ∷ []

    -- The transaction of one rule.
    unfoldable pub write :
        AlertRule Value → ℕ → Option Value → AlertState → Option Transition → Tables → Tables
    unfolding record_event
    write a now value st state t = record {
      states = insert a.id st t.states;
      events = record_event a now value state t.events;
    }

    -- The loop over the rules; it ends with an error at the first transaction that is refused.
    unfoldable pub evaluate :
        (ℕ → Bool)
        → (AlertRule Value → Option Value)
        → ℕ
        → List (AlertRule Value)
        → Tables
        → Tables × Bool
    evaluate commits observation now [] t = (t, true)
    evaluate commits observation now (a ∷ rules) t =
        let rest = evaluate commits observation now rules in
        let value = observation a in
        if not a.enabled
        then rest t
        else elim (judge a now value (or_zero_state (lookup a.id t.states))) [
          | none ↦ rest t
          | some (st, state) ↦
              if commits a.id then rest (write a now value st state t) else (t, false)
        ]

-- ===== src/Alerts/Tests.antt =====
-- Runs of rules and of the queue, and each theorem at a concrete input. Percentages stand in for
-- float64.
use dingzi.Base.{
  ℕ, ◌+◌, ◌≤◌, ◌≡◌, refl, Option, none, some, List, [], ◌∷◌, ◌++◌, String, Bool, true, leb,
  number_key,
}
use dingzi.Alerts.{
  AlertRule, AlertEvent, AlertState, Transition, zero_state, firing, recovered, judge, transition,
  since_of, evaluate, write, record_event, pending_count,
}
use dingzi.Alerts.Duration.{Trace, start, next, kept, emitted, Held, fires_after}
use dingzi.Alerts.Alternation.{
  Log, Alternating, latest_is_firing, alternates, start as log_start, next as log_next,
}
use dingzi.Alerts.Notify.{
  NotificationChannel, Found, Sent, found, refused, accepted, attempt, deliver_next, tested_event,
  record_test, test_channel, handle_test_channel,
}
use dingzi.Alerts.Queue.{
  IsBounded, Reachable, start as queue_start, evaluates, delivers, Reachable-IsBounded_queue,
}

abbrev reaches : ℕ → ℕ → Bool
reaches value threshold = leb threshold value

abbrev cpu : AlertRule ℕ
cpu = record {
  id = 1;
  name = "cpu";
  server_id = 2;
  monitor_id = 0;
  metric = "cpu";
  threshold = 90;
  duration_seconds = 20;
  channel_id = 5;
  enabled = true;
  revision = 1;
}

abbrev describe : Transition → AlertRule ℕ → Option ℕ → String
describe state rule value = rule.name

-- The rule is over its threshold at 100, 110 and 120.
abbrev waiting_row : AlertState
waiting_row =
    kept (kept zero_state (judge reaches cpu 100 (some 95) zero_state)) (
      judge reaches cpu 110 (some 97)
        (kept zero_state (judge reaches cpu 100 (some 95) zero_state)))

waiting-Trace : Trace reaches cpu waiting_row ((110, some 97) ∷ (100, some 95) ∷ [])
waiting-Trace = next (next start 100 (some 95)) 110 (some 97)

fires_runs : emitted (judge reaches cpu 120 (some 91) waiting_row) ≡ some firing
unfolding judge transition since_of
fires_runs = refl

-- A gap of more than 15 seconds starts the count again.
gap_runs : emitted (judge reaches cpu 130 (some 91) waiting_row) ≡ none
unfolding judge transition since_of
gap_runs = refl

fires_after_example :
    (since : ℕ) × (since + 20 ≤ 120)
    × Held reaches cpu since 120 ((120, some 91) ∷ (110, some 97) ∷ (100, some 95) ∷ [])
fires_after_example = fires_after reaches cpu waiting-Trace 120 (some 91) fires_runs

-- The rule fires at 120 and recovers at 130.
abbrev fired_row : AlertState
fired_row = kept waiting_row (judge reaches cpu 120 (some 91) waiting_row)

abbrev recovered_row : AlertState
recovered_row = kept fired_row (judge reaches cpu 130 (some 40) fired_row)

recovered-Log : Log reaches cpu recovered_row (recovered ∷ firing ∷ [])
unfolding judge transition since_of
recovered-Log =
    log_next (log_next (log_next (log_next log_start 100 (some 95)) 110 (some 97)) 120 (some 91))
      130 (some 40)

alternates_example :
    Alternating (recovered ∷ firing ∷ [])
    × (recovered_row.active ≡ latest_is_firing (recovered ∷ firing ∷ []))
alternates_example = alternates reaches cpu recovered-Log

abbrev hook : NotificationChannel
hook = record {
  id = 5;
  name = "hook";
  type = "webhook";
  url = "https://example.org";
  token = "";
  chat_id = "";
  enabled = true;
}

abbrev channels : ℕ → Found
channels id = found hook

abbrev down : NotificationChannel → AlertEvent → Sent
down c e = refused "down"

-- An evaluation at 120 fires and the delivery at 121 is refused.
abbrev after_firing : List AlertEvent
after_firing =
    (evaluate reaches describe (λ id. true) (λ rule. some 91) 120 (cpu ∷ [])
      (record { states = (1, waiting_row) ∷ []; events = [] })).0.events

abbrev queue : List AlertEvent
queue = (deliver_next channels down 121 122 true after_firing).0

queue-Reachable : Reachable reaches describe queue
queue-Reachable =
    delivers
      (evaluates queue_start ((1, waiting_row) ∷ []) (λ id. true) (λ rule. some 91) 120 (cpu ∷ []))
      channels down 121 122 true

queue_runs : pending_count queue ≡ 1
unfolding evaluate write record_event judge transition since_of deliver_next attempt pending_count
queue_runs = refl

Reachable-IsBounded_queue_example : IsBounded queue
Reachable-IsBounded_queue_example = Reachable-IsBounded_queue reaches describe queue-Reachable

-- A test that reaches its channel appends an event that has been delivered.
tested :
    (handle_test_channel channels (λ c e. accepted) 5 130 true queue).0
    ≡ queue ++ tested_event 5 130 none ∷ []
unfolding handle_test_channel test_channel record_test
tested = refl

-- ===== src/Alerts/Notify.antt =====
-- internal/server/alerts.go: deliverNext and handleTestChannel. `channel` reads the row of a channel,
-- `send` is the result of sendNotification; `later` is the clock after it, and `saves` says whether the
-- statement that writes the row works.
use dingzi.Base.{
  ℕ, ◌+◌, ◌*◌, ◌^◌, Bool, true, false, not, ◌&&◌, Option, none, some, List, [], ◌∷◌, ◌++◌, String,
  leb, if◌then◌else◌,
}
use dingzi.Alerts.{AlertEvent, Delivery, pending, delivered, skipped, failed, is_pending}

pub record NotificationChannel : Type 0 where
  pub id : ℕ
  pub name : String
  pub type : String
  pub url : String
  pub token : String
  pub chat_id : String
  pub enabled : Bool

-- The row, sql.ErrNoRows, or another error of the database.
pub data Found : Type 0 where
  found : NotificationChannel → Found
  missing broken : Found

-- `cancelled` is a context that ended while sending.
pub data Sent : Type 0 where
  accepted cancelled : Sent
  refused : String → Sent

abbrev pub is_due : ℕ → AlertEvent → Bool
is_due now e = is_pending e && leb e.next_attempt now

-- The UPDATE after an attempt.
abbrev pub settle : Delivery → String → ℕ → AlertEvent → AlertEvent
settle delivery detail later e = record e {
  delivery = delivery;
  attempts = e.attempts + 1;
  delivery_error = detail;
  next_attempt = later + 30 * 2 ^ e.attempts;
}

module _ (channel : ℕ → Found) (send : NotificationChannel → AlertEvent → Sent) where
  abbrev pub channel_of : Option ℕ → Found
  channel_of none = missing
  channel_of (some id) = channel id

  -- The row written for an event, none when deliverNext returns an error before it.
  unfoldable pub attempt : ℕ → AlertEvent → Option AlertEvent
  attempt later e =
      let skip = some (settle skipped "通知渠道已删除或停用" later e) in
      elim (channel_of e.channel_id) [
        | missing ↦ skip
        | broken ↦ none
        | found c ↦ if not c.enabled then skip else elim (send c e) [
          | accepted ↦ some (settle delivered "" later e)
          | cancelled ↦ none
          | refused detail ↦
              some (settle (if leb 2 e.attempts then failed else pending) detail later e)
        ]
      ]

  abbrev pub written :
      Bool → List AlertEvent → AlertEvent → Option AlertEvent → List AlertEvent × Bool
  written saves l e none = (e ∷ l, false)
  written saves l e (some after) = if saves then (after ∷ l, true) else (e ∷ l, false)

  -- The first event that is due, by rising id, is attempted.
  unfoldable pub deliver_next : ℕ → ℕ → Bool → List AlertEvent → List AlertEvent × Bool
  unfolding attempt
  deliver_next now later saves [] = ([], true)
  deliver_next now later saves (e ∷ l) =
      let (rest, fine) = deliver_next now later saves l in
      if is_due now e then written saves l e (attempt later e) else (e ∷ rest, fine)

pub data Tested : Type 0 where
  works no_channel disabled database_error : Tested
  unreachable : String → Tested

-- The event of a test, with the error of sending where there was one.
unfoldable pub tested_event : ℕ → ℕ → Option String → AlertEvent
tested_event id now error = record {
  rule_id = none;
  at = now;
  state = none;
  message = "测试通知: Dingzi 通知渠道连接正常";
  channel_id = some id;
  delivery = elim error [ none ↦ delivered | some detail ↦ failed ];
  attempts = 1;
  delivery_error = elim error [ none ↦ "" | some detail ↦ detail ];
  next_attempt = 0;
}

-- The row of a test and the answer, once it was sent. A request that is cancelled cannot write its
-- row either.
unfoldable pub record_test : ℕ → ℕ → Bool → List AlertEvent → Sent → List AlertEvent × Tested
unfolding tested_event
record_test id now saves events cancelled = (events, database_error)
record_test id now saves events accepted =
    if saves then (events ++ tested_event id now none ∷ [], works) else (events, database_error)
record_test id now saves events (refused detail) =
    if saves
    then (events ++ tested_event id now (some detail) ∷ [], unreachable detail)
    else (events, database_error)

module _ (send : NotificationChannel → AlertEvent → Sent) where
  unfoldable pub test_channel : ℕ → ℕ → Bool → List AlertEvent → Found → List AlertEvent × Tested
  unfolding record_test
  test_channel id now saves events missing = (events, no_channel)
  test_channel id now saves events broken = (events, database_error)
  test_channel id now saves events (found c) =
      if c.enabled
      then record_test id now saves events (send c (tested_event id now none))
      else (events, disabled)

module _ (channel : ℕ → Found) (send : NotificationChannel → AlertEvent → Sent) where
  unfoldable pub handle_test_channel : ℕ → ℕ → Bool → List AlertEvent → List AlertEvent × Tested
  unfolding test_channel
  handle_test_channel id now saves events = test_channel send id now saves events (channel id)

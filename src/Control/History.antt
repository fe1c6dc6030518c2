-- ===== src/Control/History.antt =====
-- The configuration over every history of the handlers, checks and deletions of machines.
use dingzi.Base.{ℕ, Bool, Option, String, number_key, ℤ}
use dingzi.Fleet.{Hub, Sample}
use dingzi.Schedule.{Monitor}
use dingzi.Control.{Control, MonitorResult, new_control, drop_server}
use dingzi.Control.Monitors.{Text, handle_save_monitor, handle_delete_monitor}
use dingzi.Control.Channels.{ChannelForm, handle_save_channel, handle_delete_channel}
use dingzi.Control.Rules.{Scale, RuleForm, handle_save_rule, handle_delete_rule}
use dingzi.Control.Checks.{store_result}
use dingzi.Control.Tables.{IsSound}
use dingzi.Control.Sound.{new-IsSound, drop_server-IsSound, store_result-IsSound}
use dingzi.Control.Handlers.{
  save_monitor-IsSound, delete_monitor-IsSound, delete_channel-IsSound, delete_rule-IsSound,
  save_rule-IsSound, save_channel-IsSound,
}

-- The functions of other packages that the handlers use.
pub record Tools (Value Float : Type 0) : Type 0 where
  pub text : Text
  pub scale : Scale Value
  pub blank : Sample Float
  pub parse_int : String → Option ℤ
  pub is_telegram_token : String → Bool

pub data Event (Value Float : Type 0) : Type 0 where
  saves_monitor : Bool → String → Option Monitor → ℕ → Bool → Hub Float → Event Value Float
  deletes_monitor : String → Bool → Event Value Float
  saves_channel : Bool → String → Option ChannelForm → Bool → Event Value Float
  deletes_channel : String → Bool → Event Value Float
  saves_rule : Bool → String → Option (RuleForm Value) → ℕ → Bool → Hub Float → Event Value Float
  deletes_rule : String → Bool → Event Value Float
  stores : Monitor → MonitorResult Value → Event Value Float
  drops_server : ℕ → Event Value Float

module _ {Value Float : Type 0} (t : Tools Value Float) where
  unfoldable pub step : Control Value → Event Value Float → Control Value
  step c (saves_monitor post text form now works hub) =
      (handle_save_monitor t.text t.blank t.parse_int post text form now works hub c).0
  step c (deletes_monitor text works) = (handle_delete_monitor t.parse_int text works c).0
  step c (saves_channel post text form works) =
      (handle_save_channel t.text t.is_telegram_token t.parse_int post text form works c).0
  step c (deletes_channel text works) = (handle_delete_channel t.parse_int text works c).0
  step c (saves_rule post text form now works hub) =
      (handle_save_rule t.text t.scale t.blank t.parse_int post text form now works hub c).0
  step c (deletes_rule text works) = (handle_delete_rule t.parse_int text works c).0
  step c (stores m p) = store_result m p c
  step c (drops_server id) = drop_server id c

  pub data Reachable : Control Value → Type 0 where
    start : Reachable new_control
    next : {c : Control Value} → Reachable c → (e : Event Value Float) → Reachable (step c e)

  step-IsSound : (c : Control Value) (e : Event Value Float) → IsSound c → IsSound (step c e)
  unfolding step
  step-IsSound c (saves_monitor post text form now works hub) v =
      save_monitor-IsSound t.text t.blank t.parse_int post text form now works hub c v
  step-IsSound c (deletes_monitor text works) v = delete_monitor-IsSound t.parse_int text works c v
  step-IsSound c (saves_channel post text form works) v =
      save_channel-IsSound t.parse_int t.text t.is_telegram_token post text form works c v
  step-IsSound c (deletes_channel text works) v = delete_channel-IsSound t.parse_int text works c v
  step-IsSound c (saves_rule post text form now works hub) v =
      save_rule-IsSound t.parse_int t.text t.scale t.blank post text form now works hub c v
  step-IsSound c (deletes_rule text works) v = delete_rule-IsSound t.parse_int text works c v
  step-IsSound c (stores m p) v = store_result-IsSound m p c v
  step-IsSound c (drops_server id) v = drop_server-IsSound id c v

  -- After any calls there are at most 200 monitors, 50 channels and 200 rules, no id twice, every rule
  -- has a channel that exists, and the interval and the timeout of every monitor are within the limits
  -- of validation, the timeout no longer than the interval.
  pub Reachable-IsSound : {c : Control Value} → Reachable c → IsSound c
  Reachable-IsSound start = new-IsSound
  Reachable-IsSound (next {c = before} r e) = step-IsSound before e (Reachable-IsSound r)

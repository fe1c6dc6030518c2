-- ===== src/Control/Channels.antt =====
-- internal/server/alerts.go: the handlers that save and delete a notification channel.
-- `is_telegram_token` is the regular expression for bot tokens.
use dingzi.Base.{
  ℕ, ◌+◌, Bool, false, not, ◌||◌, ◌&&◌, Option, none, some, [], ◌∷◌, String, ltb, leb, eqb,
  if◌then◌else◌, length, number_key, text_key, ◌==◌, ℤ, is_some,
}
use dingzi.Base.Table.{Table, lookup, insert, erase}
use dingzi.Alerts.{AlertRule}
use dingzi.Alerts.Notify.{NotificationChannel}
use dingzi.Server.Admin.{Status, ok, bad_request, not_found, server_error, path_id}
use dingzi.Control.{Control}
use dingzi.Control.Monitors.{Text, valid_http_url}

abbrev pub max_channels : ℕ
max_channels = 50

-- The body of the request; `clear_token` asks to drop the secret.
pub record ChannelForm : Type 0 where
  pub channel : NotificationChannel
  pub clear_token : Bool

pub data Answer : Type 0 where
  plain : Status → Answer
  conflict : Answer

module _ (x : Text) where
  abbrev pub trimmed : NotificationChannel → NotificationChannel
  trimmed c = record c { name = x.trim c.name; url = x.trim c.url; chat_id = x.trim c.chat_id }

  unfoldable pub has_bad_length : NotificationChannel → Bool
  has_bad_length c =
      ltb (x.runes c.name) 1
      || ltb 64 (x.runes c.name)
      || ltb 2048 (x.len c.url)
      || ltb 512 (x.len c.token)
      || ltb 128 (x.len c.chat_id)

  module _ (is_telegram_token : String → Bool) where
    unfoldable pub channel_shape : NotificationChannel → Option NotificationChannel
    channel_shape c =
        if c.type == "webhook"
        then (if not (valid_http_url x c.url false) || x.contains_any c.token "\r\n"
            then none
            else some (record c { chat_id = "" }))
        else (if c.type == "telegram"
            then (if not (is_telegram_token c.token) || c.chat_id == ""
                then none
                else some (record c { url = "" }))
            else none)

-- A secret that the form leaves out is kept, unless it is to be dropped or the type changes.
abbrev pub keep_token : Bool → NotificationChannel → NotificationChannel → NotificationChannel
keep_token clear old c =
    if c.token == "" && not clear && c.type == old.type then record c { token = old.token } else c

module _ {Value : Type 0} where
  unfoldable pub add_channel : NotificationChannel → Control Value → Control Value
  add_channel n c = record c {
    channels = insert c.next_channel (record n { id = c.next_channel }) c.channels;
    next_channel = c.next_channel + 1;
  }

  unfoldable pub update_channel : ℕ → NotificationChannel → Control Value → Control Value
  update_channel id n c = record c { channels = insert id (record n { id = id }) c.channels }

  -- `SELECT COUNT(*) FROM alert_rules WHERE channel_id=?`
  unfoldable pub rules_using : ℕ → Table ℕ (AlertRule Value) → ℕ
  rules_using id [] = 0
  rules_using id ((rule, a) ∷ rest) = (if eqb a.channel_id id then 1 else 0) + rules_using id rest

  module _ (x : Text) (is_telegram_token : String → Bool) (parse_int : String → Option ℤ) where
    unfoldable pub create_channel :
        NotificationChannel → Bool → Control Value → Control Value × Status
    unfolding add_channel
    create_channel n works c = elim (channel_shape x is_telegram_token n) [
      | none ↦ (c, bad_request)
      | some shaped ↦
          if works
          then (if leb max_channels (length c.channels)
              then (c, bad_request)
              else (add_channel shaped c, ok))
          else (c, server_error)
    ]

    unfoldable pub replace_channel :
        String → Bool → NotificationChannel → Bool → Control Value → Control Value × Status
    unfolding update_channel
    replace_channel text clear n works c = elim (path_id parse_int text) [
      | none ↦ (c, bad_request)
      | some id ↦
          if works
          then elim (lookup id c.channels) [
            | none ↦ (c, not_found)
            | some old ↦ elim (channel_shape x is_telegram_token (keep_token clear old n)) [
              | none ↦ (c, bad_request)
              | some shaped ↦ (update_channel id shaped c, ok)
            ]
          ]
          else (c, server_error)
    ]

    unfoldable pub handle_save_channel :
        Bool → String → Option ChannelForm → Bool → Control Value → Control Value × Status
    unfolding create_channel replace_channel
    handle_save_channel post text none works c = (c, bad_request)
    handle_save_channel post text (some form) works c =
        let n = trimmed x form.channel in
        if has_bad_length x n
        then (c, bad_request)
        else (if post
            then create_channel n works c
            else replace_channel text form.clear_token n works c)

  unfoldable pub handle_delete_channel :
      (String → Option ℤ) → String → Bool → Control Value → Control Value × Answer
  handle_delete_channel parse_int text works c = elim (path_id parse_int text) [
    | none ↦ (c, plain bad_request)
    | some id ↦
        if works
        then (if ltb 0 (rules_using id c.rules)
            then (c, conflict)
            else (if is_some (lookup id c.channels)
                then (record c { channels = erase id c.channels }, plain ok)
                else (c, plain not_found)))
        else (c, plain server_error)
  ]

-- ===== src/Control/Handlers.antt =====
-- What the handlers leave of a sound configuration.
use dingzi.Base.{
  ℕ, ◌≡◌, inl, inr, refl, Bool, true, false, Option, none, some, String, arith, ltb, leb, length,
  number_key, Bool-cases, Option-cases, is_some, ℤ,
}
use dingzi.Base.Table.{lookup}
use dingzi.Fleet.{Hub, Sample}
use dingzi.Fleet.Reports.{view}
use dingzi.Schedule.{Monitor}
use dingzi.Alerts.{AlertRule}
use dingzi.Alerts.Notify.{NotificationChannel}
use dingzi.Server.Admin.{path_id}
use dingzi.Control.{Control}
use dingzi.Control.Monitors.{
  Text, validate, handle_save_monitor, handle_delete_monitor, max_monitors,
}
use dingzi.Control.Channels.{
  ChannelForm, trimmed, has_bad_length, channel_shape, keep_token, rules_using, create_channel,
  replace_channel, handle_save_channel, handle_delete_channel, max_channels,
}
use dingzi.Control.Rules.{
  Scale, RuleForm, checked_form, aim, store_rule, handle_save_rule, handle_delete_rule, max_rules,
}
use dingzi.Control.Tables.{IsSound, validate-IsTimed}
use dingzi.Control.Sound.{
  add_monitor-IsSound, update_monitor-IsSound, drop_monitor-IsSound, add_channel-IsSound,
  update_channel-IsSound, erase_channel-IsSound, add_rule-IsSound, update_rule-IsSound,
  erase_rule-IsSound,
}

some_of : {A : Type 0} (o : Option A) → is_some o ≡ true → (a : A) × (o ≡ some a)
some_of none h = absurd (ground (arith, h))
some_of (some a) h = (a, refl)

module _ {Value Float : Type 0} (x : Text) (blank : Sample Float)
    (parse_int : String → Option ℤ) where
  pub save_monitor-IsSound :
      (post : Bool) (text : String) (form : Option Monitor) (now : ℕ) (works : Bool)
      (hub : Hub Float) (c : Control Value)
      → IsSound c
      → IsSound (handle_save_monitor x blank parse_int post text form now works hub c).0
  unfolding handle_save_monitor
  save_monitor-IsSound post text none now works hub c v = v
  save_monitor-IsSound post text (some form) now works hub c v =
      elim (Option-cases (validate x form)) [
        | inl e ↦ rw (e, handle_save_monitor) v
        | inr (m, e) ↦ elim (Option-cases (view blank m.server_id now hub)) [
          | inl f ↦ rw (e, handle_save_monitor, f) v
          | inr (w, f) ↦ elim (Bool-cases post) [
            | inl creates ↦ elim (Bool-cases works) [
              | inr bad ↦ rw (e, handle_save_monitor, f, creates, bad) v
              | inl good ↦ elim (Bool-cases (leb max_monitors (length c.monitors))) [
                | inl full ↦ rw (e, handle_save_monitor, f, creates, good, full) v
                | inr room ↦
                    rw (e, handle_save_monitor, f, creates, good, room)
                      (add_monitor-IsSound m c (validate-IsTimed x form m e) (ground (arith, room))
                        v)
              ]
            ]
            | inr updates ↦ elim (Option-cases (path_id parse_int text)) [
              | inl g ↦ rw (e, handle_save_monitor, f, updates, g) v
              | inr (id, g) ↦ elim (Bool-cases works) [
                | inr bad ↦ rw (e, handle_save_monitor, f, updates, g, bad) v
                | inl good ↦ elim (Option-cases (lookup id c.monitors)) [
                  | inl k ↦ rw (e, handle_save_monitor, f, updates, g, good, k) v
                  | inr (old, k) ↦
                      rw (e, handle_save_monitor, f, updates, g, good, k)
                        (update_monitor-IsSound id m old c (validate-IsTimed x form m e) k v)
                ]
              ]
            ]
          ]
        ]
      ]

module _ {Value : Type 0} (parse_int : String → Option ℤ) where
  pub delete_monitor-IsSound :
      (text : String) (works : Bool) (c : Control Value)
      → IsSound c
      → IsSound (handle_delete_monitor parse_int text works c).0
  unfolding handle_delete_monitor
  delete_monitor-IsSound text works c v = elim (Option-cases (path_id parse_int text)) [
    | inl e ↦ rw (e, handle_delete_monitor) v
    | inr (id, e) ↦ elim (Bool-cases works) [
      | inr bad ↦ rw (e, handle_delete_monitor, bad) v
      | inl good ↦ elim (Bool-cases (is_some (lookup id c.monitors))) [
        | inr absent ↦ rw (e, handle_delete_monitor, good, absent) v
        | inl there ↦ rw (e, handle_delete_monitor, good, there) (drop_monitor-IsSound id c v)
      ]
    ]
  ]

  pub delete_channel-IsSound :
      (text : String) (works : Bool) (c : Control Value)
      → IsSound c
      → IsSound (handle_delete_channel parse_int text works c).0
  unfolding handle_delete_channel
  delete_channel-IsSound text works c v = elim (Option-cases (path_id parse_int text)) [
    | inl e ↦ rw (e, handle_delete_channel) v
    | inr (id, e) ↦ elim (Bool-cases works) [
      | inr bad ↦ rw (e, handle_delete_channel, bad) v
      | inl good ↦ elim (Bool-cases (ltb 0 (rules_using id c.rules))) [
        | inl used ↦ rw (e, handle_delete_channel, good, used) v
        | inr unused ↦ elim (Bool-cases (is_some (lookup id c.channels))) [
          | inr absent ↦ rw (e, handle_delete_channel, good, unused, absent) v
          | inl there ↦
              rw (e, handle_delete_channel, good, unused, there)
                (erase_channel-IsSound id c (ground (arith, unused)) v)
        ]
      ]
    ]
  ]

  pub delete_rule-IsSound :
      (text : String) (works : Bool) (c : Control Value)
      → IsSound c
      → IsSound (handle_delete_rule parse_int text works c).0
  unfolding handle_delete_rule
  delete_rule-IsSound text works c v = elim (Option-cases (path_id parse_int text)) [
    | inl e ↦ rw (e, handle_delete_rule) v
    | inr (id, e) ↦ elim (Bool-cases works) [
      | inr bad ↦ rw (e, handle_delete_rule, bad) v
      | inl good ↦ elim (Bool-cases (is_some (lookup id c.rules))) [
        | inr absent ↦ rw (e, handle_delete_rule, good, absent) v
        | inl there ↦ rw (e, handle_delete_rule, good, there) (erase_rule-IsSound id c v)
      ]
    ]
  ]

  pub store_rule-IsSound :
      (post : Bool) (text : String) (a : AlertRule Value) (n : NotificationChannel) (works : Bool)
      (c : Control Value)
      → lookup a.channel_id c.channels ≡ some n
      → IsSound c
      → IsSound (store_rule parse_int post text a works c).0
  unfolding store_rule
  store_rule-IsSound true text a n false c has v = v
  store_rule-IsSound true text a n true c has v =
      elim (Bool-cases (leb max_rules (length c.rules))) [
        | inl full ↦ rw (store_rule, full) v
        | inr room ↦ rw (store_rule, room) (add_rule-IsSound a n c has (ground (arith, room)) v)
      ]
  store_rule-IsSound false text a n works c has v = elim (Option-cases (path_id parse_int text)) [
    | inl e ↦ rw (e, store_rule) v
    | inr (id, e) ↦ elim (Bool-cases works) [
      | inr bad ↦ rw (e, store_rule, bad) v
      | inl good ↦ elim (Option-cases (lookup id c.rules)) [
        | inl f ↦ rw (e, store_rule, good, f) v
        | inr (old, f) ↦ rw (e, store_rule, good, f) (update_rule-IsSound id a old n c has f v)
      ]
    ]
  ]

  module _ {Float : Type 0} (x : Text) (scale : Scale Value) (blank : Sample Float) where
    pub save_rule-IsSound :
        (post : Bool) (text : String) (form : Option (RuleForm Value)) (now : ℕ) (works : Bool)
        (hub : Hub Float) (c : Control Value)
        → IsSound c
        → IsSound (handle_save_rule x scale blank parse_int post text form now works hub c).0
    unfolding handle_save_rule
    save_rule-IsSound post text none now works hub c v = v
    save_rule-IsSound post text (some form) now works hub c v =
        elim (Option-cases (checked_form x scale form)) [
          | inl e ↦ rw (e, handle_save_rule) v
          | inr (a, e) ↦
              elim (Option-cases (aim x scale (is_some (view blank a.server_id now hub)) c a)) [
                | inl f ↦ rw (e, handle_save_rule, f) v
                | inr (aimed, f) ↦
                    elim (Bool-cases (is_some (lookup aimed.channel_id c.channels))) [
                      | inr absent ↦ rw (e, handle_save_rule, f, absent) v
                      | inl there ↦
                          let (n, has) = some_of (lookup aimed.channel_id c.channels) there in
                          rw (e, handle_save_rule, f, there)
                            (store_rule-IsSound post text aimed n works c has v)
                    ]
              ]
        ]

  module _ (x : Text) (is_telegram_token : String → Bool) where
    pub create_channel-IsSound :
        (n : NotificationChannel) (works : Bool) (c : Control Value)
        → IsSound c
        → IsSound (create_channel x is_telegram_token parse_int n works c).0
    unfolding create_channel
    create_channel-IsSound n works c v = elim (Option-cases (channel_shape x is_telegram_token n)) [
      | inl e ↦ rw (e, create_channel) v
      | inr (shaped, e) ↦ elim (Bool-cases works) [
        | inr bad ↦ rw (e, create_channel, bad) v
        | inl good ↦ elim (Bool-cases (leb max_channels (length c.channels))) [
          | inl full ↦ rw (e, create_channel, good, full) v
          | inr room ↦
              rw (e, create_channel, good, room)
                (add_channel-IsSound shaped c (ground (arith, room)) v)
        ]
      ]
    ]

    pub replace_channel-IsSound :
        (text : String) (clear : Bool) (n : NotificationChannel) (works : Bool) (c : Control Value)
        → IsSound c
        → IsSound (replace_channel x is_telegram_token parse_int text clear n works c).0
    unfolding replace_channel
    replace_channel-IsSound text clear n works c v = elim (Option-cases (path_id parse_int text)) [
      | inl e ↦ rw (e, replace_channel) v
      | inr (id, e) ↦ elim (Bool-cases works) [
        | inr bad ↦ rw (e, replace_channel, bad) v
        | inl good ↦ elim (Option-cases (lookup id c.channels)) [
          | inl f ↦ rw (e, replace_channel, good, f) v
          | inr (old, f) ↦
              elim (Option-cases (channel_shape x is_telegram_token (keep_token clear old n))) [
                | inl g ↦ rw (e, replace_channel, good, f, g) v
                | inr (shaped, g) ↦
                    rw (e, replace_channel, good, f, g) (update_channel-IsSound id shaped old c f v)
              ]
        ]
      ]
    ]

    pub save_channel-IsSound :
        (post : Bool) (text : String) (form : Option ChannelForm) (works : Bool) (c : Control Value)
        → IsSound c
        → IsSound (handle_save_channel x is_telegram_token parse_int post text form works c).0
    unfolding handle_save_channel
    save_channel-IsSound post text none works c v = v
    save_channel-IsSound post text (some form) works c v =
        elim (Bool-cases (has_bad_length x (trimmed x form.channel))) [
          | inl bad ↦ rw (bad, handle_save_channel) v
          | inr good ↦ elim (Bool-cases post) [
            | inl creates ↦
                rw (good, handle_save_channel, creates)
                  (create_channel-IsSound (trimmed x form.channel) works c v)
            | inr updates ↦
                rw (good, handle_save_channel, updates)
                  (replace_channel-IsSound text form.clear_token (trimmed x form.channel) works c v)
          ]
        ]

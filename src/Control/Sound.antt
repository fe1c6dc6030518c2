-- ===== src/Control/Sound.antt =====
-- What each call leaves of the configuration.
use dingzi.Base.{
  ℕ, ◌+◌, ◌≤◌, ◌<◌, ◌≡◌, inl, inr, refl, some, arith, eqb, length, number_key, text_key, Bool-cases,
  Option-cases,
}
use dingzi.Base.Table.{
  lookup, erase, insert, IsUnique, lookup-erase, erase-IsUnique, insert-IsUnique, length-erase-le,
}
use dingzi.Base.Table.Sweep.{sweep, length-sweep-le, sweep-IsUnique}
use dingzi.Schedule.{Monitor}
use dingzi.Alerts.{AlertRule}
use dingzi.Alerts.Notify.{NotificationChannel}
use dingzi.Control.{
  Control, new_control, MonitorResult, drop_monitor, drop_server, is_orphan, watches,
}
use dingzi.Control.Monitors.{add_monitor, update_monitor, revise, is_moved, max_monitors}
use dingzi.Control.Channels.{add_channel, update_channel, rules_using, max_channels}
use dingzi.Control.Rules.{add_rule, update_rule, max_rules}
use dingzi.Control.Checks.{store_result}
use dingzi.Control.Tables.{
  AllTimed, IsSound, IsTimed, insert-HaveChannels, insert-all, length-insert_present,
  rules_using-zero, same_times-IsTimed, lookup-kept,
}

module _ {Value : Type 0} where
  pub new-IsSound : IsSound (new_control {Value = Value})
  unfolding new_control
  new-IsSound = record {
    monitors_unique = tt;
    channels_unique = tt;
    rules_unique = tt;
    monitors_bounded = omega arith;
    channels_bounded = omega arith;
    rules_bounded = omega arith;
    timed = λ k m h. absurd (ground (arith, h));
    channelled = λ k a h. absurd (ground (arith, h));
  }

  pub add_monitor-IsSound :
      (m : Monitor) (c : Control Value)
      → IsTimed m
      → length c.monitors < max_monitors
      → IsSound c
      → IsSound (add_monitor m c)
  unfolding add_monitor
  add_monitor-IsSound m c t room v =
      let new : Monitor = record m { id = c.next_monitor; revision = 1 } in
      record {
        monitors_unique = insert-IsUnique c.next_monitor new c.monitors v.monitors_unique;
        channels_unique = v.channels_unique;
        rules_unique = v.rules_unique;
        monitors_bounded = omega (arith, room, length-erase-le c.next_monitor c.monitors);
        channels_bounded = v.channels_bounded;
        rules_bounded = v.rules_bounded;
        timed =
            insert-all IsTimed c.next_monitor new c.monitors (same_times-IsTimed m new t refl refl)
              v.timed;
        channelled = v.channelled;
      }

  pub update_monitor-IsSound :
      (id : ℕ) (m old : Monitor) (c : Control Value)
      → IsTimed m
      → lookup id c.monitors ≡ some old
      → IsSound c
      → IsSound (update_monitor id m old c)
  unfolding update_monitor
  update_monitor-IsSound id m old c t there v = elim (Bool-cases (is_moved old m)) [
    | inl moved ↦
        rw (moved, update_monitor)
          (record {
            monitors_unique = unique;
            channels_unique = v.channels_unique;
            rules_unique = v.rules_unique;
            monitors_bounded = bounded;
            channels_bounded = v.channels_bounded;
            rules_bounded = v.rules_bounded;
            timed = timed;
            channelled = v.channelled;
          })
    | inr stayed ↦
        rw (stayed, update_monitor)
          (record {
            monitors_unique = unique;
            channels_unique = v.channels_unique;
            rules_unique = v.rules_unique;
            monitors_bounded = bounded;
            channels_bounded = v.channels_bounded;
            rules_bounded = v.rules_bounded;
            timed = timed;
            channelled = v.channelled;
          })
  ]
    where
      new : Monitor
      new = revise id m old

      unique : IsUnique (insert id new c.monitors)
      unique = insert-IsUnique id new c.monitors v.monitors_unique

      bounded : length (insert id new c.monitors) ≤ max_monitors
      bounded = omega (
        arith,
        length-insert_present id old new c.monitors v.monitors_unique there,
        v.monitors_bounded,
      )

      timed : AllTimed (insert id new c.monitors)
      timed = insert-all IsTimed id new c.monitors (same_times-IsTimed m new t refl refl) v.timed

  pub drop_monitor-IsSound : (id : ℕ) (c : Control Value) → IsSound c → IsSound (drop_monitor id c)
  unfolding drop_monitor
  drop_monitor-IsSound id c v = record {
    monitors_unique = erase-IsUnique id c.monitors v.monitors_unique;
    channels_unique = v.channels_unique;
    rules_unique = sweep-IsUnique (watches id) c.rules v.rules_unique;
    monitors_bounded = omega (arith, length-erase-le id c.monitors, v.monitors_bounded);
    channels_bounded = v.channels_bounded;
    rules_bounded = omega (arith, length-sweep-le (watches id) c.rules, v.rules_bounded);
    timed = λ k m h. v.timed k m (ground (arith, h, lookup-erase k id c.monitors));
    channelled = λ k a h. v.channelled k a (lookup-kept (watches id) k a c.rules v.rules_unique h);
  }

  pub add_channel-IsSound :
      (n : NotificationChannel) (c : Control Value)
      → length c.channels < max_channels
      → IsSound c
      → IsSound (add_channel n c)
  unfolding add_channel
  add_channel-IsSound n c room v =
      let new : NotificationChannel = record n { id = c.next_channel } in
      record {
        monitors_unique = v.monitors_unique;
        channels_unique = insert-IsUnique c.next_channel new c.channels v.channels_unique;
        rules_unique = v.rules_unique;
        monitors_bounded = v.monitors_bounded;
        channels_bounded = omega (arith, room, length-erase-le c.next_channel c.channels);
        rules_bounded = v.rules_bounded;
        timed = v.timed;
        channelled = insert-HaveChannels c.next_channel new c.rules c.channels v.channelled;
      }

  pub update_channel-IsSound :
      (id : ℕ) (n old : NotificationChannel) (c : Control Value)
      → lookup id c.channels ≡ some old
      → IsSound c
      → IsSound (update_channel id n c)
  unfolding update_channel
  update_channel-IsSound id n old c there v =
      let new : NotificationChannel = record n { id = id } in
      record {
        monitors_unique = v.monitors_unique;
        channels_unique = insert-IsUnique id new c.channels v.channels_unique;
        rules_unique = v.rules_unique;
        monitors_bounded = v.monitors_bounded;
        channels_bounded = omega (
          arith,
          length-insert_present id old new c.channels v.channels_unique there,
          v.channels_bounded,
        );
        rules_bounded = v.rules_bounded;
        timed = v.timed;
        channelled = insert-HaveChannels id new c.rules c.channels v.channelled;
      }

  pub erase_channel-IsSound :
      (id : ℕ) (c : Control Value)
      → rules_using id c.rules ≡ 0
      → IsSound c
      → IsSound (record c { channels = erase id c.channels })
  erase_channel-IsSound id c unused v = record {
    monitors_unique = v.monitors_unique;
    channels_unique = erase-IsUnique id c.channels v.channels_unique;
    rules_unique = v.rules_unique;
    monitors_bounded = v.monitors_bounded;
    channels_bounded = omega (arith, length-erase-le id c.channels, v.channels_bounded);
    rules_bounded = v.rules_bounded;
    timed = v.timed;
    channelled = λ k a h.
        let (n, found) = v.channelled k a h in
        let other = rules_using-zero id k a c.rules unused h in
        (
          n,
          ground (
            arith,
            found,
            lookup-erase a.channel_id id c.channels,
            number_key.same_iff id a.channel_id,
            other,
          ),
        );
  }

  pub add_rule-IsSound :
      (a : AlertRule Value) (n : NotificationChannel) (c : Control Value)
      → lookup a.channel_id c.channels ≡ some n
      → length c.rules < max_rules
      → IsSound c
      → IsSound (add_rule a c)
  unfolding add_rule
  add_rule-IsSound a n c has room v =
      let new : AlertRule Value = record a { id = c.next_rule; revision = 1 } in
      record {
        monitors_unique = v.monitors_unique;
        channels_unique = v.channels_unique;
        rules_unique = insert-IsUnique c.next_rule new c.rules v.rules_unique;
        monitors_bounded = v.monitors_bounded;
        channels_bounded = v.channels_bounded;
        rules_bounded = omega (arith, room, length-erase-le c.next_rule c.rules);
        timed = v.timed;
        channelled =
            insert-all (λ b. (w : NotificationChannel) × (lookup b.channel_id c.channels ≡ some w))
              c.next_rule new c.rules (n, has) v.channelled;
      }

  pub update_rule-IsSound :
      (id : ℕ) (a old : AlertRule Value) (n : NotificationChannel) (c : Control Value)
      → lookup a.channel_id c.channels ≡ some n
      → lookup id c.rules ≡ some old
      → IsSound c
      → IsSound (update_rule id a old c)
  unfolding update_rule
  update_rule-IsSound id a old n c has there v =
      let new : AlertRule Value = record a { id = id; revision = old.revision + 1 } in
      record {
        monitors_unique = v.monitors_unique;
        channels_unique = v.channels_unique;
        rules_unique = insert-IsUnique id new c.rules v.rules_unique;
        monitors_bounded = v.monitors_bounded;
        channels_bounded = v.channels_bounded;
        rules_bounded =
            omega (
              arith,
              length-insert_present id old new c.rules v.rules_unique there,
              v.rules_bounded,
            );
        timed = v.timed;
        channelled =
            insert-all (λ b. (w : NotificationChannel) × (lookup b.channel_id c.channels ≡ some w))
              id new c.rules (n, has) v.channelled;
      }

  pub erase_rule-IsSound :
      (id : ℕ) (c : Control Value)
      → IsSound c
      → IsSound (record c { rules = erase id c.rules; states = erase id c.states })
  erase_rule-IsSound id c v = record {
    monitors_unique = v.monitors_unique;
    channels_unique = v.channels_unique;
    rules_unique = erase-IsUnique id c.rules v.rules_unique;
    monitors_bounded = v.monitors_bounded;
    channels_bounded = v.channels_bounded;
    rules_bounded = omega (arith, length-erase-le id c.rules, v.rules_bounded);
    timed = v.timed;
    channelled = λ k a h. v.channelled k a (ground (arith, h, lookup-erase k id c.rules));
  }

  pub drop_server-IsSound : (id : ℕ) (c : Control Value) → IsSound c → IsSound (drop_server id c)
  unfolding drop_server
  drop_server-IsSound id c v =
      let runs = λ (m : Monitor). eqb m.server_id id in
      let monitors = sweep runs c.monitors in
      let gone = λ (a : AlertRule Value). is_orphan id monitors a in
      record {
        monitors_unique = sweep-IsUnique runs c.monitors v.monitors_unique;
        channels_unique = v.channels_unique;
        rules_unique = sweep-IsUnique gone c.rules v.rules_unique;
        monitors_bounded = omega (arith, length-sweep-le runs c.monitors, v.monitors_bounded);
        channels_bounded = v.channels_bounded;
        rules_bounded = omega (arith, length-sweep-le gone c.rules, v.rules_bounded);
        timed = λ k m h. v.timed k m (lookup-kept runs k m c.monitors v.monitors_unique h);
        channelled = λ k a h. v.channelled k a (lookup-kept gone k a c.rules v.rules_unique h);
      }

  pub store_result-IsSound :
      (m : Monitor) (p : MonitorResult Value) (c : Control Value)
      → IsSound c
      → IsSound (store_result m p c)
  unfolding store_result
  store_result-IsSound m p c v = elim (Option-cases (lookup m.id c.monitors)) [
    | inl e ↦ rw (e, store_result) v
    | inr (row, e) ↦ elim (Bool-cases (eqb row.revision m.revision)) [
      | inr stale ↦ rw (e, store_result, stale) v
      | inl fresh ↦
          rw (e, store_result, fresh)
            (record {
              monitors_unique = v.monitors_unique;
              channels_unique = v.channels_unique;
              rules_unique = v.rules_unique;
              monitors_bounded = v.monitors_bounded;
              channels_bounded = v.channels_bounded;
              rules_bounded = v.rules_bounded;
              timed = v.timed;
              channelled = v.channelled;
            })
    ]
  ]

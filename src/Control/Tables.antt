-- ===== src/Control/Tables.antt =====
-- What a sound configuration is, and lemmas on its tables.
use dingzi.Base.{
  ℕ, ◌*◌, ◌≤◌, ◌≡◌, ◌≢◌, inl, inr, refl, sym, ap, subst, ◌∙◌, Bool, true, false, not, ◌||◌, ◌&&◌,
  Option, none, some, [], ◌∷◌, arith, ltb, length, number_key, text_key, Bool-cases, ◌==◌,
}
use dingzi.Base.Table.{Table, lookup, insert, IsUnique, lookup-erase}
use dingzi.Base.Table.Counts.{length-erase_present}
use dingzi.Base.Table.Sweep.{sweep, lookup-sweep, unless}
use dingzi.Schedule.{Monitor}
use dingzi.Alerts.{AlertRule}
use dingzi.Alerts.Notify.{NotificationChannel}
use dingzi.Control.{Control}
use dingzi.Control.Monitors.{Text, validate, is_valid, is_target, max_monitors}
use dingzi.Control.Channels.{rules_using, max_channels}
use dingzi.Control.Rules.{max_rules}

-- The limits that `validate` sets to the times of a monitor.
pub record IsTimed (m : Monitor) : Type 0 where
  pub interval_low : 10 ≤ m.interval_seconds
  pub interval_high : m.interval_seconds ≤ 86400
  pub timeout_low : 100 ≤ m.timeout_ms
  pub timeout_high : m.timeout_ms ≤ 60000
  pub within : m.timeout_ms ≤ m.interval_seconds * 1000

pub and_true : (a b : Bool) → (a && b) ≡ true → (a ≡ true) × (b ≡ true)
and_true true true h = (refl, refl)
and_true true false h = absurd (ground (arith, h))
and_true false b h = absurd (ground (arith, h))

pub times-IsTimed :
    (m : Monitor)
    → not (ltb m.interval_seconds 10 || ltb 86400 m.interval_seconds) ≡ true
    → not (
        ltb m.timeout_ms 100
        || ltb 60000 m.timeout_ms
        || ltb (m.interval_seconds * 1000) m.timeout_ms)
      ≡ true
    → IsTimed m
times-IsTimed m h k = record {
  interval_low = ground (arith, h);
  interval_high = ground (arith, h);
  timeout_low = ground (arith, k);
  timeout_high = ground (arith, k);
  within = ground (arith, k);
}

pub is_valid-IsTimed : (x : Text) (m : Monitor) → is_valid x m ≡ true → IsTimed m
unfolding is_valid
is_valid-IsTimed x m h =
    let (first_five, _) = and_true _ (is_target x m.type m.target) h in
    let (first_four, timeout) = and_true _ _ first_five in
    let (_, interval) = and_true _ _ first_four in times-IsTimed m interval timeout

-- What validate gives passes its tests.
pub validate-is_valid :
    (x : Text) (form m : Monitor) → validate x form ≡ some m → is_valid x m ≡ true
unfolding validate
validate-is_valid x form m h =
    let trimmed : Monitor = record form { name = x.trim form.name; target = x.trim form.target } in
    elim (Bool-cases (is_valid x trimmed)) [
      | inr bad ↦ absurd (ground (arith, (rw (validate, bad) at h)))
      | inl good ↦
          let same : trimmed ≡ m = ground (arith, (rw (validate, good) at h)) in
          subst (λ v. is_valid x v ≡ true) same good
    ]

pub validate-IsTimed : (x : Text) (form m : Monitor) → validate x form ≡ some m → IsTimed m
validate-IsTimed x form m h = is_valid-IsTimed x m (validate-is_valid x form m h)

abbrev pub AllTimed : Table ℕ Monitor → Type 0
AllTimed t = (k : ℕ) (m : Monitor) → lookup k t ≡ some m → IsTimed m

pub same_times-IsTimed :
    (m n : Monitor)
    → IsTimed m
    → m.interval_seconds ≡ n.interval_seconds
    → m.timeout_ms ≡ n.timeout_ms
    → IsTimed n
same_times-IsTimed m n t same same' = record {
  interval_low = omega (arith, same, t.interval_low);
  interval_high = omega (arith, same, t.interval_high);
  timeout_low = omega (arith, same', t.timeout_low);
  timeout_high = omega (arith, same', t.timeout_high);
  within = omega (arith, same, same', t.within);
}

-- Every rule has its channel.
abbrev pub HaveChannels :
    {Value : Type 0} → Table ℕ (AlertRule Value) → Table ℕ NotificationChannel → Type 0
HaveChannels {Value = Value} rules channels =
    (k : ℕ) (a : AlertRule Value)
    → lookup k rules ≡ some a
    → (n : NotificationChannel) × (lookup a.channel_id channels ≡ some n)

pub record IsSound {Value : Type 0} (c : Control Value) : Type 0 where
  pub monitors_unique : IsUnique c.monitors
  pub channels_unique : IsUnique c.channels
  pub rules_unique : IsUnique c.rules
  pub monitors_bounded : length c.monitors ≤ max_monitors
  pub channels_bounded : length c.channels ≤ max_channels
  pub rules_bounded : length c.rules ≤ max_rules
  pub timed : AllTimed c.monitors
  pub channelled : HaveChannels c.rules c.channels

pub length-insert_present :
    {V : Type 0} (k : ℕ) (old new : V) (t : Table ℕ V)
    → IsUnique t
    → lookup k t ≡ some old
    → length (insert k new t) ≡ length t
length-insert_present k old new t u h = omega (arith, length-erase_present k old t u h)

-- A property of the values of a table, when a value that has it is put in.
pub insert-all :
    {V : Type 0} (P : V → Type 0) (k : ℕ) (new : V) (t : Table ℕ V)
    → P new
    → ((j : ℕ) (v : V) → lookup j t ≡ some v → P v)
    → (j : ℕ) (v : V) → lookup j (insert k new t) ≡ some v
    → P v
insert-all P k new t p all j v h = elim (Bool-cases (k == j)) [
  | inl here ↦ let is : new ≡ v = ground (arith, h, here) in subst P is p
  | inr there ↦ all j v (ground (arith, h, there, lookup-erase j k t))
]

pub insert-HaveChannels :
    {Value : Type 0} (k : ℕ) (new : NotificationChannel) (rules : Table ℕ (AlertRule Value))
    (t : Table ℕ NotificationChannel)
    → HaveChannels rules t
    → HaveChannels rules (insert k new t)
insert-HaveChannels k new rules t all j a h = elim (Bool-cases (k == a.channel_id)) [
  | inl here ↦ (new, ground (arith, here))
  | inr there ↦
      let (n, found) = all j a h in (n, ground (arith, there, found, lookup-erase a.channel_id k t))
]

-- No rule uses a channel that none is counted for.
pub rules_using-zero :
    {Value : Type 0} (id k : ℕ) (a : AlertRule Value) (rules : Table ℕ (AlertRule Value))
    → rules_using id rules ≡ 0
    → lookup k rules ≡ some a
    → a.channel_id ≢ id
unfolding rules_using
rules_using-zero id k a [] z h e = absurd (ground (arith, h))
rules_using-zero id k a ((j, b) ∷ rules) z h e = elim (Bool-cases (j == k)) [
  | inl here ↦
      let is : b ≡ a = ground (arith, h, here) in
      absurd (ground (arith, z, ap AlertRule.channel_id is ∙ e))
  | inr there ↦ rules_using-zero id k a rules (ground (arith, z)) (ground (arith, h, there)) e
]

pub unless_kept :
    {V : Type 0} (p : V → Bool) (v : V) (o : Option V) → unless p o ≡ some v → o ≡ some v
unless_kept p v none h = absurd (ground (arith, h))
unless_kept p v (some w) h = elim (Bool-cases (p w)) [
  | inl gone ↦ absurd (ground (arith, (rw gone at h)))
  | inr there ↦ (rw there at h)
]

-- What a `DELETE` with a test leaves was there.
pub lookup-kept :
    {V : Type 0} (p : V → Bool) (k : ℕ) (v : V) (t : Table ℕ V)
    → IsUnique t
    → lookup k (sweep p t) ≡ some v
    → lookup k t ≡ some v
lookup-kept p k v t u h = unless_kept p v (lookup k t) (sym (lookup-sweep k p t u) ∙ h)

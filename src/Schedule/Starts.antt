-- ===== src/Schedule/Starts.antt =====
-- Which checks a tick starts.
use dingzi.Base.{
  ℕ, ◌+◌, ◌*◌, ◌≤◌, ◌<◌, ◌≡◌, ◌≢◌, ◌⊎◌, inl, inr, refl, sym, subst, true, false, Bool-cases, none,
  some, List, [], ◌∷◌, arith, number_key, ==_refl, if◌then◌else◌, ◌∙◌,
}
use dingzi.Base.Table.{lookup, lookup-erase}
use dingzi.Schedule.{
  ServiceEngine, Monitor, ScheduledMonitor, acquire, unmark, free_slot, visit, visit_all, schedule,
  is_due, is_known, forget_gone,
}

-- Membership, as an alternative for each entry.
abbrev pub In : Monitor → List Monitor → Type 0
In m [] = ⊥
In m (x ∷ l) = (m ≡ x) ⊎ In m l

-- The ids of a list of monitors are different, as primary keys are.
abbrev pub Apart : List Monitor → Type 0
Apart [] = Unit
Apart (m ∷ l) = (is_known l m.id ≡ false) × Apart l

abbrev pub scheduled : Monitor → ℕ → ScheduledMonitor
scheduled m now = record { revision = m.revision; at = now + m.interval_seconds * 1_000_000_000 }

In-is_known : (m : Monitor) (l : List Monitor) → In m l → is_known l m.id ≡ true
In-is_known m [] i = absurd i
In-is_known m (x ∷ l) (inl e) = rw e (ground arith)
In-is_known m (x ∷ l) (inr i) = ground (arith, In-is_known m l i)

visit_other :
    (now j : ℕ) (m : Monitor) (e : ServiceEngine)
    → m.id ≢ j
    → lookup j (visit now m e).0.next ≡ lookup j e.next
unfolding visit acquire
visit_other now j m e ne = ground (arith, lookup-erase j m.id e.next)

visit_all_other :
    (now j : ℕ) (items : List Monitor) (e : ServiceEngine)
    → is_known items j ≡ false
    → lookup j (visit_all now items e).0.next ≡ lookup j e.next
unfolding visit_all
visit_all_other now j [] e h = refl
visit_all_other now j (m ∷ items) e h =
    visit_all_other now j items (visit now m e).0 (ground arith)
    ∙ visit_other now j m e (ground arith)

visit_cases :
    (now : ℕ) (m : Monitor) (e : ServiceEngine)
    → ((visit now m e).1 ≡ true)
    → (is_due now m e ≡ true) × (lookup m.id (visit now m e).0.next ≡ some (scheduled m now))
unfolding visit acquire
visit_cases now m e h = ground (arith, ==_refl m.id)

-- What the loop starts.
started_lem :
    (now : ℕ) (items : List Monitor) (e : ServiceEngine) (m : Monitor)
    → Apart items
    → In m (visit_all now items e).1
    → In m items
      × (is_due now m e ≡ true)
      × (lookup m.id (visit_all now items e).0.next ≡ some (scheduled m now))
unfolding visit_all
started_lem now [] e m a i = absurd i
started_lem now (x ∷ items) e m a i = elim (Bool-cases (visit now x e).1) [
  | inr quiet ↦ later (started_lem now items (visit now x e).0 m a.1 (rw quiet at i))
  | inl starts ↦ elim (rw starts at i) [
    | inl same ↦
        let (due, set) = visit_cases now x e starts in
        rw same (inl refl, due, visit_all_other now x.id items (visit now x e).0 a.0 ∙ set)
    | inr i' ↦ later (started_lem now items (visit now x e).0 m a.1 i')
  ]
]
  where
    later :
        In m items
          × (is_due now m (visit now x e).0 ≡ true)
          × (lookup m.id (visit_all now items (visit now x e).0).0.next ≡ some (scheduled m now))
        → In m (x ∷ items)
          × (is_due now m e ≡ true)
          × (lookup m.id (visit_all now items (visit now x e).0).0.next ≡ some (scheduled m now))
    later (listed, due, set) =
        let apart : x.id ≢ m.id =
          λ same. absurd (ground (arith, a.0, In-is_known m items listed)) in
        let same_next : lookup m.id (visit now x e).0.next ≡ lookup m.id e.next =
          visit_other now m.id x e apart in
        (inr listed, (rw same_next at due), set)

forget_known :
    (items : List Monitor) (id : ℕ) (l : List (ℕ × ScheduledMonitor))
    → lookup id (forget_gone items l) ≡ (if is_known items id then lookup id l else none)
unfolding forget_gone
forget_known items id [] = ground arith
forget_known items id ((j, due) ∷ l) = ground (arith, forget_known items id l)

-- A tick starts only checks of enabled monitors that are due, and the next check of each is set to
-- its interval later.
pub schedule_starts :
    (now : ℕ) (items : List Monitor) (e : ServiceEngine) (m : Monitor)
    → Apart items
    → In m (schedule now (some items) e).1
    → In m items
      × (m.enabled ≡ true)
      × ((due : ScheduledMonitor)
          → lookup m.id e.next ≡ some due
          → due.revision ≡ m.revision
          → due.at ≤ now)
      × (lookup m.id (schedule now (some items) e).0.next ≡ some (scheduled m now))
unfolding schedule
schedule_starts now items e m a i =
    let (listed, due, set) = started_lem now items e m a i in
    (
      listed,
      ground (arith, due),
      λ d h same. ground (arith, due, h),
      ground (
        arith,
        forget_known items m.id (visit_all now items e).0.next,
        In-is_known m items listed,
        set,
      ),
    )

-- What happens between two ticks that start checks.
pub data Moment : Type 0 where
  tick : ℕ → List Monitor → Moment
  asked ended : ℕ → Moment
  freed : Moment

-- Several of them, the first of the list first.
unfoldable pub pass : List Moment → ServiceEngine → ServiceEngine
pass [] e = e
pass (tick now items ∷ l) e = pass l (schedule now (some items) e).0
pass (asked id ∷ l) e = pass l (acquire id e).0
pass (ended id ∷ l) e = pass l (unmark id e)
pass (freed ∷ l) e = pass l (free_slot e)

-- The ticks come before a time and list the monitor as it is.
abbrev pub Lists : Monitor → ℕ → List Moment → Type 0
Lists m limit [] = Unit
Lists m limit (tick now items ∷ l) = (now < limit) × Apart items × In m items × Lists m limit l
Lists m limit (asked id ∷ l) = Lists m limit l
Lists m limit (ended id ∷ l) = Lists m limit l
Lists m limit (freed ∷ l) = Lists m limit l

not_due :
    (now at : ℕ) (m : Monitor) (e : ServiceEngine)
    → lookup m.id e.next ≡ some (scheduled m at)
    → now < at + m.interval_seconds * 1_000_000_000
    → is_due now m e ≡ false
not_due now at m e h lt = ground (arith, h)

visit_all_waits :
    (now : ℕ) (m : Monitor) (items : List Monitor) (e : ServiceEngine) (due : ScheduledMonitor)
    → Apart items
    → In m items
    → lookup m.id e.next ≡ some due
    → is_due now m e ≡ false
    → lookup m.id (visit_all now items e).0.next ≡ some due
unfolding visit_all visit
visit_all_waits now m [] e due a i h w = absurd i
visit_all_waits now m (x ∷ items) e due a (inl same) h w =
    let w' : is_due now x e ≡ false = subst (λ y. is_due now y e ≡ false) same w in
    visit_all_other now m.id items (visit now x e).0
      (subst (λ y. is_known items y.id ≡ false) (sym same) a.0)
    ∙ rw (w', visit) h
visit_all_waits now m (x ∷ items) e due a (inr i) h w =
    let apart : x.id ≢ m.id = λ same. absurd (ground (arith, a.0, In-is_known m items i)) in
    let same_next : lookup m.id (visit now x e).0.next ≡ lookup m.id e.next =
      visit_other now m.id x e apart in
    visit_all_waits now m items (visit now x e).0 due a.1 i (same_next ∙ h) (rw same_next w)

acquire_next : (j id : ℕ) (e : ServiceEngine) → lookup j (acquire id e).0.next ≡ lookup j e.next
unfolding acquire
acquire_next j id e = ground arith

pass_keeps :
    (m : Monitor) (at : ℕ) (l : List Moment) (e : ServiceEngine)
    → Lists m (at + m.interval_seconds * 1_000_000_000) l
    → lookup m.id e.next ≡ some (scheduled m at)
    → lookup m.id (pass l e).next ≡ some (scheduled m at)
unfolding pass schedule unmark free_slot
pass_keeps m at [] e a h = h
pass_keeps m at (tick now items ∷ l) e a h =
    let kept =
      visit_all_waits now m items e (scheduled m at) a.1 a.2 h (not_due now at m e h a.0) in
    pass_keeps m at l (schedule now (some items) e).0 a.3 (
      ground (
        arith,
        forget_known items m.id (visit_all now items e).0.next,
        In-is_known m items a.2,
        kept,
      ))
pass_keeps m at (asked id ∷ l) e a h =
    pass_keeps m at l (acquire id e).0 a (acquire_next m.id id e ∙ h)
pass_keeps m at (ended id ∷ l) e a h = pass_keeps m at l (unmark id e) a h
pass_keeps m at (freed ∷ l) e a h = pass_keeps m at l (free_slot e) a h

-- A monitor that a tick started is started by no later tick before its interval is over, also when its
-- check has ended and given its slot back, as long as the ticks between come before that time and
-- list the monitor unedited.
pub schedule_spaced :
    (now later : ℕ) (items items' : List Monitor) (l : List Moment) (e : ServiceEngine)
    (m : Monitor)
    → Apart items
    → Apart items'
    → In m (schedule now (some items) e).1
    → Lists m (now + m.interval_seconds * 1_000_000_000) l
    → later < now + m.interval_seconds * 1_000_000_000
    → ¬ In m (schedule later (some items') (pass l (schedule now (some items) e).0)).1
schedule_spaced now later items items' l e m a a' i between lt again =
    let (_, _, _, set) = schedule_starts now items e m a i in
    let kept = pass_keeps m now l (schedule now (some items) e).0 between set in
    let (_, _, due, _) =
      schedule_starts later items' (pass l (schedule now (some items) e).0) m a' again in
    omega (arith, due (scheduled m now) kept refl)

-- ===== src/Agent/Accepted.antt =====
-- The tasks of the monitors that the panel accepts (internal/server/monitors.go), at the agent.
use dingzi.Base.{
  ◌≡◌, ◌⊎◌, inl, inr, refl, true, false, not, ◌||◌, some, String, arith, ltb, eqb, text_key, ◌==◌,
  Bool-cases,
}
use dingzi.Schedule.{Monitor}
use dingzi.Control.Monitors.{Text, validate, is_valid, is_target}
use dingzi.Control.Checks.{Task, TaskResult, task_of}
use dingzi.Control.Tables.{and_true, is_valid-IsTimed, validate-is_valid}
use dingzi.Agent.{is_valid_task, run_task}

module _ (x : Text) where
  is_target-type :
      (type target : String)
      → is_target x type target ≡ true
      → ((type == "ping") || (type == "tcp") || (type == "http")) ≡ true
  unfolding is_target
  is_target-type type target h = ground arith

  length-present :
      (t : String)
      → x.len "" ≡ 0
      → not (eqb (x.len t) 0 || ltb 2048 (x.len t)) ≡ true
      → (t == "") ≡ false
  length-present t blank h = elim (Bool-cases (t == "")) [
    | inr there ↦ there
    | inl empty ↦
        let same : t ≡ "" = (text_key.same_iff t "").0 empty in
        absurd (ground (arith, (rw same at h), blank))
  ]

  is_valid-present : (m : Monitor) → x.len "" ≡ 0 → is_valid x m ≡ true → (m.target == "") ≡ false
  unfolding is_valid
  is_valid-present m blank h =
      let (first_five, _) = and_true _ (is_target x m.type m.target) h in
      let (first_four, _) = and_true _ _ first_five in
      let (first_three, _) = and_true _ _ first_four in
      let (_, long) = and_true _ _ first_three in length-present m.target blank long

  is_valid-typed :
      (m : Monitor)
      → is_valid x m ≡ true
      → ((m.type == "ping") || (m.type == "tcp") || (m.type == "http")) ≡ true
  unfolding is_valid
  is_valid-typed m h =
      let (_, target) = and_true _ (is_target x m.type m.target) h in
      is_target-type m.type m.target target

module _ {Value : Type 0} (nothing : Value) where
  -- A monitor that the panel has validated is a task that the agent does not refuse: it carries out the
  -- check of the task's type, one of the three, and answers under the monitor's id. This takes that
  -- the empty text has length 0.
  pub run_task-validate :
      (x : Text) (form m : Monitor)
      → x.len "" ≡ 0
      → validate x form ≡ some m
      → (ping tcp http : Task → TaskResult Value) (describe : Task → String)
      → ((m.type ≡ "ping")
          × (run_task nothing ping tcp http describe (task_of m) ≡ (m.id, ping (task_of m))))
        ⊎ ((m.type ≡ "tcp")
            × (run_task nothing ping tcp http describe (task_of m) ≡ (m.id, tcp (task_of m))))
        ⊎ ((m.type ≡ "http")
            × (run_task nothing ping tcp http describe (task_of m) ≡ (m.id, http (task_of m))))
  unfolding run_task is_valid_task
  run_task-validate x form m blank e ping tcp http describe =
      let h = validate-is_valid x form m e in
      let typed = is_valid-typed x m h in
      let there = is_valid-present x m blank h in
      let timed = (is_valid-IsTimed x m h).timeout_low in
      let lasting : eqb m.timeout_ms 0 ≡ false = ground (arith, timed) in
      elim (Bool-cases (m.type == "ping")) [
        | inl a ↦ inl ((text_key.same_iff m.type "ping").0 a, rw (there, lasting, a) refl)
        | inr a ↦ elim (Bool-cases (m.type == "tcp")) [
          | inl b ↦ inr (inl ((text_key.same_iff m.type "tcp").0 b, rw (there, lasting, a, b) refl))
          | inr b ↦
              let c : (m.type == "http") ≡ true = rw (a, b) at typed in
              inr (inr ((text_key.same_iff m.type "http").0 c, rw (there, lasting, a, b, c) refl))
        ]
      ]

-- ===== src/Agent/Served.antt =====
-- What readLoop does for the frames it reads, over every sequence of events.
use dingzi.Base.{
  ℕ, suc, ◌+◌, ◌-◌, ◌≤◌, ◌<◌, ◌≡◌, ◌⊎◌, inl, inr, refl, true, false, none, some, List, [], ◌∷◌,
  arith, ltb, Bool-cases,
}
use dingzi.Agent.Reader.{
  Event, Reading, Served, max_tasks, max_terminals, read, read_loop, ping, task, terminal_open,
  error, other, unreadable, task_ended, terminal_ended, pong, start_task, refuse_task,
  open_terminal, refuse_terminal, lost, turned_away,
}

-- What readLoop is to do for a sequence of events when so many tasks and terminals hold a slot: the
-- actions in their order, the slots that are held in the end, and why the loop returned.
abbrev pub Serves : ℕ → ℕ → List Event → Served → Type 0
Serves tasks terminals [] s =
    (s.actions ≡ []) × (s.at ≡ record { tasks = tasks; terminals = terminals }) × (s.loss ≡ none)
Serves tasks terminals (ping id true ∷ events) s =
    (rest : Served) × (s ≡ record rest { actions = pong id ∷ rest.actions })
    × Serves tasks terminals events rest
Serves tasks terminals (ping id false ∷ events) s = (s.actions ≡ []) × (s.loss ≡ some lost)
Serves tasks terminals (task id none ∷ events) s = Serves tasks terminals events s
Serves tasks terminals (task id (some t) ∷ events) s =
    (rest : Served) × (((tasks < max_tasks)
        × (s ≡ record rest { actions = start_task id t ∷ rest.actions })
        × Serves (suc tasks) terminals events rest)
      ⊎ ((max_tasks ≤ tasks)
          × (s ≡ record rest { actions = refuse_task id t.monitor_id ∷ rest.actions })
          × Serves tasks terminals events rest))
Serves tasks terminals (terminal_open id none ∷ events) s = Serves tasks terminals events s
Serves tasks terminals (terminal_open id (some size) ∷ events) s =
    (rest : Served) × (((terminals < max_terminals)
        × (s ≡ record rest { actions = open_terminal id size ∷ rest.actions })
        × Serves tasks (suc terminals) events rest)
      ⊎ ((max_terminals ≤ terminals)
          × (s ≡ record rest { actions = refuse_terminal id ∷ rest.actions })
          × Serves tasks terminals events rest))
Serves tasks terminals (error true msg ∷ events) s =
    (s.actions ≡ []) × (s.loss ≡ some (turned_away msg))
Serves tasks terminals (error false msg ∷ events) s = Serves tasks terminals events s
Serves tasks terminals (other ∷ events) s = Serves tasks terminals events s
Serves tasks terminals (unreadable ∷ events) s = (s.actions ≡ []) × (s.loss ≡ some lost)
Serves tasks terminals (task_ended ∷ events) s = Serves (tasks - 1) terminals events s
Serves tasks terminals (terminal_ended ∷ events) s = Serves tasks (terminals - 1) events s

abbrev pub IsWithin : Reading → Type 0
IsWithin r = (r.tasks ≤ max_tasks) × (r.terminals ≤ max_terminals)

read_loop-IsWithin :
    (events : List Event) (r : Reading) → IsWithin r → IsWithin (read_loop events r).at
unfolding read_loop read
read_loop-IsWithin [] r h = h
read_loop-IsWithin (ping id true ∷ events) r h = read_loop-IsWithin events r h
read_loop-IsWithin (ping id false ∷ events) r h = h
read_loop-IsWithin (task id none ∷ events) r h = read_loop-IsWithin events r h
read_loop-IsWithin (task id (some t) ∷ events) r h = elim (Bool-cases (ltb r.tasks max_tasks)) [
  | inl free ↦
      rw (free, read_loop)
        (read_loop-IsWithin events (record r { tasks = r.tasks + 1 }) (ground (arith, free), h.1))
  | inr full ↦ rw (full, read_loop) (read_loop-IsWithin events r h)
]
read_loop-IsWithin (terminal_open id none ∷ events) r h = read_loop-IsWithin events r h
read_loop-IsWithin (terminal_open id (some size) ∷ events) r h =
    elim (Bool-cases (ltb r.terminals max_terminals)) [
      | inl free ↦
          rw (free, read_loop)
            (read_loop-IsWithin events (record r { terminals = r.terminals + 1 })
              (h.0, ground (arith, free)))
      | inr full ↦ rw (full, read_loop) (read_loop-IsWithin events r h)
    ]
read_loop-IsWithin (error true msg ∷ events) r h = h
read_loop-IsWithin (error false msg ∷ events) r h = read_loop-IsWithin events r h
read_loop-IsWithin (other ∷ events) r h = read_loop-IsWithin events r h
read_loop-IsWithin (unreadable ∷ events) r h = h
read_loop-IsWithin (task_ended ∷ events) r h =
    read_loop-IsWithin events (record r { tasks = r.tasks - 1 }) (omega (arith, h.0), h.1)
read_loop-IsWithin (terminal_ended ∷ events) r h =
    read_loop-IsWithin events (record r { terminals = r.terminals - 1 }) (h.0, omega (arith, h.1))

read_loop-Serves :
    (events : List Event) (tasks terminals : ℕ)
    → Serves tasks terminals events
        (read_loop events (record { tasks = tasks; terminals = terminals }))
unfolding read_loop read
read_loop-Serves [] m n = (refl, refl, refl)
read_loop-Serves (ping id true ∷ events) m n =
    (read_loop events (record { tasks = m; terminals = n }), refl, read_loop-Serves events m n)
read_loop-Serves (ping id false ∷ events) m n = (refl, refl)
read_loop-Serves (task id none ∷ events) m n = read_loop-Serves events m n
read_loop-Serves (task id (some t) ∷ events) m n = elim (Bool-cases (ltb m max_tasks)) [
  | inl free ↦ (
    read_loop events (record { tasks = suc m; terminals = n }),
    inl (ground (arith, free), started free, read_loop-Serves events (suc m) n),
  )
  | inr full ↦ (
    read_loop events (record { tasks = m; terminals = n }),
    inr (ground (arith, full), rw (full, read_loop) refl, read_loop-Serves events m n),
  )
]
  where
    started :
        ltb m max_tasks ≡ true
        → let rest = read_loop events (record { tasks = suc m; terminals = n }) in
          read_loop (task id (some t) ∷ events) (record { tasks = m; terminals = n })
          ≡ record rest { actions = start_task id t ∷ rest.actions }
    started free = let more : m + 1 ≡ suc m = omega arith in rw (free, read_loop, more) refl
read_loop-Serves (terminal_open id none ∷ events) m n = read_loop-Serves events m n
read_loop-Serves (terminal_open id (some size) ∷ events) m n =
    elim (Bool-cases (ltb n max_terminals)) [
      | inl free ↦ (
        read_loop events (record { tasks = m; terminals = suc n }),
        inl (ground (arith, free), started free, read_loop-Serves events m (suc n)),
      )
      | inr full ↦ (
        read_loop events (record { tasks = m; terminals = n }),
        inr (ground (arith, full), rw (full, read_loop) refl, read_loop-Serves events m n),
      )
    ]
  where
    started :
        ltb n max_terminals ≡ true
        → let rest = read_loop events (record { tasks = m; terminals = suc n }) in
          read_loop (terminal_open id (some size) ∷ events) (record { tasks = m; terminals = n })
          ≡ record rest { actions = open_terminal id size ∷ rest.actions }
    started free = let more : n + 1 ≡ suc n = omega arith in rw (free, read_loop, more) refl
read_loop-Serves (error true msg ∷ events) m n = (refl, refl)
read_loop-Serves (error false msg ∷ events) m n = read_loop-Serves events m n
read_loop-Serves (other ∷ events) m n = read_loop-Serves events m n
read_loop-Serves (unreadable ∷ events) m n = (refl, refl)
read_loop-Serves (task_ended ∷ events) m n = read_loop-Serves events (m - 1) n
read_loop-Serves (terminal_ended ∷ events) m n = read_loop-Serves events m (n - 1)

-- From slots within their bounds, whatever the events: each ping that can be answered, each task and
-- each request for a terminal that comes before the loop returns is served in its order, by one
-- action of its kind and under its own identifier. A task is started, with what the frame asks for,
-- when fewer than 16 hold a slot and refused otherwise; a terminal likewise, with 4. Nothing else is
-- done; an unanswered ping, a frame that cannot be read and a fatal error end the loop. In the end at
-- most 16 tasks and 4 terminals hold a slot.
pub read_loop_lem :
    (events : List Event) (r : Reading)
    → IsWithin r
    → Serves r.tasks r.terminals events (read_loop events r) × IsWithin (read_loop events r).at
read_loop_lem events r h =
    (read_loop-Serves events r.tasks r.terminals, read_loop-IsWithin events r h)

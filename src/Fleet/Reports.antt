-- ===== src/Fleet/Reports.antt =====
-- internal/server/hub.go: samples, speeds and the views of the fleet.
use dingzi.Base.{
  ℕ, ◌+◌, ◌-◌, ◌/◌, Bool, false, not, ◌&&◌, ◌||◌, Option, none, some, List, [], ◌∷◌, ltb, leb,
  if◌then◌else◌, is_some, number_key, text_key,
}
use dingzi.Base.Table.{Table, lookup}
use dingzi.Ring.{new_ring, push, snapshot, latest}
use dingzi.Traffic.{accumulate}
use dingzi.Fleet.{Hub, Machine, MachineView, Sample, State, Skew, ahead, behind, get, change}

-- `st.AgentTimeMS - at.UnixMilli()`
abbrev pub skew : ℕ → ℕ → Skew
skew agent panel = if leb panel agent then ahead (agent - panel) else behind (panel - agent)

-- `quotient bytes elapsed` is uint64(float64(bytes) / elapsed).
unfoldable pub rate : (ℕ → ℕ → ℕ) → ℕ → ℕ → ℕ → ℕ
rate quotient prev cur elapsed = if ltb cur prev then 0 else quotient (cur - prev) elapsed

-- `now.Sub(t) > timeout`
abbrev pub is_late : ℕ → ℕ → ℕ → Bool
is_late timeout now t = ltb (t + timeout) now

abbrev pub stale_latest : {Float : Type 0} → ℕ → ℕ → Option (Sample Float) → Bool
stale_latest timeout now none = false
stale_latest timeout now (some s) = is_late timeout now s.at

module _ {Float : Type 0} (quotient : ℕ → ℕ → ℕ) (blank : Sample Float) where
  -- The sample that Push derives from a report, and from the latest sample if there is one.
  unfoldable pub derive : Machine Float → State Float → ℕ → Sample Float
  unfolding rate
  derive m st at =
      let s : Sample Float = record {
        at = at;
        skew_ms = skew st.agent_time_ms (at / 1_000_000);
        state = st;
        net_in_speed = 0;
        net_out_speed = 0;
        mem_total = m.host.mem_total;
        swap_total = m.host.swap_total;
        disk_total = m.host.disk_total;
      } in
      elim (latest blank m.samples) [
        | none ↦ s
        | some prev ↦
            if ltb prev.at at
            then record s {
              net_in_speed =
                  rate quotient prev.state.net_in_transfer st.net_in_transfer (at - prev.at);
              net_out_speed =
                  rate quotient prev.state.net_out_transfer st.net_out_transfer (at - prev.at);
            }
            else s
      ]

  unfoldable pub absorb : State Float → ℕ → Machine Float → Machine Float
  unfolding derive
  absorb st at m = record m {
    samples = push blank (derive m st at) m.samples;
    last_seen = at;
    traffic = accumulate st.net_in_transfer st.net_out_transfer at m.traffic;
  }

  unfoldable pub push_sample : ℕ → State Float → ℕ → Hub Float → Hub Float × Option (Sample Float)
  unfolding absorb
  push_sample id st at h = elim (get id h) [
    | none ↦ (h, none)
    | some m ↦ (change id (absorb st at) h, some (derive m st at))
  ]

module _ {Float : Type 0} where
  -- sort.Slice by id, by insertion.
  unfoldable pub insert_view :
      MachineView Float → List (MachineView Float) → List (MachineView Float)
  insert_view v [] = v ∷ []
  insert_view v (w ∷ l) =
      let rest = insert_view v l in if ltb w.machine.id v.machine.id then w ∷ rest else v ∷ w ∷ l

  unfoldable pub sort_views : List (MachineView Float) → List (MachineView Float)
  unfolding insert_view
  sort_views [] = []
  sort_views (v ∷ l) = insert_view v (sort_views l)

module _ {Float : Type 0} (blank : Sample Float) where
  unfoldable pub samples : ℕ → Hub Float → List (Sample Float)
  samples id h = elim (get id h) [ none ↦ [] | some m ↦ snapshot blank m.samples ]

  unfoldable pub view_of : ℕ → ℕ → Machine Float → MachineView Float
  view_of timeout now m =
      let current = latest blank m.samples in
      record {
        machine = record m { samples = new_ring blank };
        online =
            is_some m.conn
            && not (is_late timeout now m.last_seen || stale_latest timeout now current);
        recent = current;
      }

  unfoldable pub view : ℕ → ℕ → Hub Float → Option (MachineView Float)
  unfolding view_of
  view id now h = elim (get id h) [ none ↦ none | some m ↦ some (view_of h.sample_timeout now m) ]

  -- The `range` over byID.
  unfoldable pub views_from : Table ℕ ℕ → ℕ → Hub Float → List (MachineView Float)
  unfolding view_of
  views_from [] now h = []
  views_from ((id, p) ∷ rest) now h =
      let others = views_from rest now h in
      elim (lookup p h.cells) [ none ↦ others | some m ↦ view_of h.sample_timeout now m ∷ others ]

  unfoldable pub snapshot_views : ℕ → Hub Float → List (MachineView Float)
  unfolding sort_views views_from
  snapshot_views now h = sort_views (views_from h.by_id now h)

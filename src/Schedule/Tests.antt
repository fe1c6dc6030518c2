-- ===== src/Schedule/Tests.antt =====
-- Runs of the scheduler, and each theorem at a concrete input.
use dingzi.Base.{ℕ, ◌*◌, ◌≡◌, inl, refl, true, false, some, List, [], ◌∷◌, arith, number_key}
use dingzi.Schedule.{
  ServiceEngine, Monitor, new_service_engine, acquire, release, unmark, free_slot, visit, visit_all,
  schedule, forget_gone,
}
use dingzi.Schedule.Slots.{IsValid, Reachable, start, ticks, ends, frees, Reachable-IsValid_slots}
use dingzi.Schedule.Starts.{In, Moment, tick, asked, ended, freed, pass, schedule_spaced}

abbrev seconds : ℕ → ℕ
seconds n = n * 1_000_000_000

abbrev web : Monitor
web = record {
  id = 3;
  name = "web";
  server_id = 1;
  type = "http";
  target = "https://example.org";
  interval_seconds = 60;
  timeout_ms = 5000;
  enabled = true;
  revision = 1;
}

abbrev idle : Monitor
idle = record web { id = 4; enabled = false }

abbrev ticked : ServiceEngine
ticked = (schedule (seconds 10) (some (web ∷ idle ∷ [])) new_service_engine).0

-- The check of the first monitor is started and has a slot; it ends.
ticked_run :
    ((schedule (seconds 10) (some (web ∷ idle ∷ [])) new_service_engine).1 ≡ web ∷ [])
    × (ticked.slots ≡ 1)
    × ((release 3 ticked).slots ≡ 0)
    × ((acquire 3 ticked).1 ≡ false)
unfolding new_service_engine schedule visit_all visit acquire release unmark free_slot forget_gone
ticked_run = (refl, refl, refl, refl)

-- It has ended, and its slot is still taken.
ended-Reachable : Reachable 1 (unmark 3 ticked)
unfolding new_service_engine schedule visit_all visit acquire forget_gone
ended-Reachable = ends (ticks start (seconds 10) (some (web ∷ idle ∷ []))) 3 refl

Reachable-IsValid_slots_example : IsValid 0 (free_slot (unmark 3 ticked))
Reachable-IsValid_slots_example = Reachable-IsValid_slots (frees ended-Reachable)

abbrev between : List Moment
between =
    tick (seconds 20) (web ∷ [])
    ∷ ended 3
    ∷ freed
    ∷ asked 4
    ∷ tick (seconds 40) (web ∷ idle ∷ [])
    ∷ []

-- A minute after its start it is checked again, its first check having ended.
starts_again : (schedule (seconds 70) (some (web ∷ [])) (pass between ticked)).1 ≡ web ∷ []
unfolding new_service_engine schedule visit_all visit acquire unmark free_slot forget_gone pass
starts_again = refl

schedule_spaced_example : ¬ In web (schedule (seconds 69) (some (web ∷ [])) (pass between ticked)).1
unfolding new_service_engine schedule visit_all visit acquire
schedule_spaced_example =
    schedule_spaced (seconds 10) (seconds 69) (web ∷ idle ∷ []) (web ∷ []) between
      new_service_engine web (refl, (refl, tt)) (refl, tt) (inl refl)
      (omega arith, (refl, tt), inl refl, (omega arith, (refl, (refl, tt)), inl refl, tt))
      (omega arith)

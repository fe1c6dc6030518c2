-- ===== src/Fleet/Tests.antt =====
-- Runs of the hub, and each theorem at a concrete input. Percentages stand in for float64.
use dingzi.Base.{ℕ, ◌/◌, ◌≡◌, ◌↔◌, refl, some, [], ◌∷◌, number_key, text_key, arith}
use dingzi.Fleet.{
  Hub, Machine, MachineView, new_hub, install, load, attach, detach, conn, get, change,
}
use dingzi.Fleet.Reports.{view, snapshot_views}
use dingzi.Fleet.Coherence.{IsCoherent}
use dingzi.Fleet.Moves.{detach_stale}
use dingzi.Fleet.Examples.{blank, machine}
use dingzi.Fleet.Order.{In, Ascending, snapshot_views_lem}
use dingzi.Fleet.History.{step, Reachable, start, next, attaches, Reachable-IsCoherent}

-- Machines 2 and 1 from storage; machine 1 has connection 7.
abbrev fleet : Hub ℕ
fleet = step ◌/◌ blank (load (machine 2 "b" ∷ machine 1 "a" ∷ []) new_hub) (attaches 1 7 5)

fleet-Reachable : Reachable ◌/◌ blank fleet
unfolding new_hub install
fleet-Reachable =
    next (start (machine 2 "b" ∷ machine 1 "a" ∷ []) (refl, refl, (refl, refl, tt)))
      (attaches 1 7 5) tt

fleet-IsCoherent : IsCoherent fleet
fleet-IsCoherent = Reachable-IsCoherent ◌/◌ blank fleet-Reachable

abbrev first : Machine ℕ
first = record (machine 1 "a") { conn = some 7; last_seen = 5 }

first_there : get 1 fleet ≡ some first
unfolding step load install attach get change new_hub
first_there = refl

Reachable-IsCoherent_example : IsCoherent fleet
Reachable-IsCoherent_example = Reachable-IsCoherent ◌/◌ blank fleet-Reachable

detach_stale_example :
    (detach 1 7 (attach 1 8 9 fleet) ≡ attach 1 8 9 fleet)
    × (conn 1 (detach 1 7 (attach 1 8 9 fleet)) ≡ some 8)
detach_stale_example =
    detach_stale 1 7 8 9 first fleet fleet-IsCoherent first_there (λ e. absurd (omega (arith, e)))

snapshot_views_lem_example :
    Ascending (snapshot_views blank 20 fleet)
    × ((w : MachineView ℕ)
        → In w (snapshot_views blank 20 fleet) ↔ (view blank w.machine.id 20 fleet ≡ some w))
snapshot_views_lem_example = snapshot_views_lem blank 20 fleet fleet-IsCoherent

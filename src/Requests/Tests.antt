-- ===== src/Requests/Tests.antt =====
-- Runs of the request table, and each theorem at a concrete input.
use dingzi.Base.{◌≡◌, refl, some, arith, text_key, number_key}
use dingzi.Requests.{Envelope, AgentConn, new_agent_conn, begin, resolve, offer, give_up, receive}
use dingzi.Requests.Answers.{IsMatched, Reachable, start, begins, gives_up, Reachable-IsMatched}
use dingzi.Requests.Tally.{tally, tally_inj}

-- Two requests are in flight, for a task and for a terminal; a third gave up.
abbrev asked : AgentConn
asked = give_up tally 3 (
    begin tally "task_result"
      (begin tally "terminal_result" (begin tally "task_result" new_agent_conn)))

asked-Reachable : Reachable tally tally_inj asked
unfolding new_agent_conn begin
asked-Reachable =
    gives_up
      (begins (begins (begins start "task_result" (omega arith)) "terminal_result" (omega arith))
        "task_result" (omega arith))
      3

abbrev answer : Envelope
answer = record { type = "task_result"; id = tally 1; payload = "{}" }

-- The first request gets its answer, and an answer of another type is dropped.
asked_run :
    ((receive 1 (resolve answer asked)).1 ≡ some answer)
    × (resolve (record answer { id = tally 2 }) asked ≡ asked)
    × (resolve (record answer { id = tally 3 }) asked ≡ asked)
unfolding new_agent_conn begin give_up resolve offer receive
asked_run = (refl, refl, refl)

Reachable-IsMatched_example : IsMatched tally tally_inj asked
Reachable-IsMatched_example = Reachable-IsMatched tally tally_inj asked-Reachable

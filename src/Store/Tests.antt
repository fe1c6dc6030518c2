-- ===== src/Store/Tests.antt =====
-- Machines that register and are saved, a writer that is stopped, and each theorem at a concrete input.
use dingzi.Base.{
  pos, inr, ◌+◌, ℕ, ◌*◌, ◌≡◌, refl, none, some, [], ◌∷◌, String, number_key, text_key, arith, true,
  false, Bool,
}
use dingzi.Base.Table.{lookup}
use dingzi.Sessions.{second}
use dingzi.Traffic.{count_sum}
use dingzi.Fleet.{Host}
use dingzi.Fleet.Examples.{some_host, blank}
use dingzi.Store.{
  epoch, Database, ServerRow, Hello, TrafficSnapshot, upsert, save_traffic, scan_machine,
  row_by_uuid, delete_machine,
}
use dingzi.Store.Rows.{IsKeyed, empty}
use dingzi.Store.History.{Reachable, start, next, step, registers, deletes, Reachable-IsKeyed}
use dingzi.Store.RoundTrip.{save_traffic-scan}
use dingzi.Store.Writer.{Writer, new_writer, queue_sample, stop}
use dingzi.Store.Writer.Order.{IsOrdered, samples_of}
use dingzi.Store.Writer.Drain
use dingzi.Store.Writer.Drain.{Reachable-IsOrdered, stop-Reachable, queues, receives}

abbrev no_json : Host → String
no_json host = "{}"

abbrev same : String → String
same text = text

abbrev hello : String → Hello
hello uuid = record { uuid = uuid; name = "web"; host = some_host; version = "0.4" }

-- "a" and "b" register, "a" comes back, and its machine is deleted.
abbrev used : Database
used =
    step no_json same
      (step no_json same
        (step no_json same (step no_json same empty (registers (hello "a") (pos 10)))
          (registers (hello "b") (pos 11)))
        (registers (hello "a") (pos 12)))
      (deletes 1 true)

used-Reachable : Reachable no_json same used
used-Reachable =
    next
      (next (next (next start (registers (hello "a") (pos 10))) (registers (hello "b") (pos 11)))
        (registers (hello "a") (pos 12)))
      (deletes 1 true)

used_runs : (lookup 1 used.servers ≡ none) × (used.next_id ≡ 3)
unfolding step empty upsert row_by_uuid delete_machine
used_runs = (refl, refl)

Reachable-IsKeyed_example : IsKeyed used
Reachable-IsKeyed_example = Reachable-IsKeyed no_json same used-Reachable

abbrev some_row : ServerRow
some_row = record {
  uuid = "a";
  name = "web";
  host = "{}";
  version = "0.4";
  first_seen = pos 1;
  last_seen = pos 2;
  cycle_start = pos 0;
  in_bytes = 0;
  out_bytes = 0;
  quota = 9;
  reset_day = 5;
  count_mode = count_sum;
  last_raw_in = 0;
  last_raw_out = 0;
  has_raw = false;
}

abbrev counted : TrafficSnapshot
counted = record {
  traffic = record {
    cycle_start = (epoch + 7) * second;
    in_bytes = 100;
    out_bytes = 50;
    last_raw_in = 1000;
    last_raw_out = 500;
    has_raw = true;
    quota = 9;
    reset_day = 5;
    count_mode = count_sum;
  };
  last_seen = (epoch + 8) * second;
}

abbrev one_row : Database
one_row = record { servers = (1, some_row) ∷ []; next_id = 2; credentials = [] }

save_traffic-scan_example :
    (after : ServerRow) × (lookup 1 (save_traffic ((1, counted) ∷ []) true one_row).servers
      ≡ some after)
    × ((scan_machine (λ text. some_host) blank 1 after).traffic ≡ counted.traffic)
save_traffic-scan_example =
    save_traffic-scan (λ text. some_host) blank 1 counted some_row ((1, counted) ∷ []) one_row
      (refl, tt) refl refl
      (record {
        cycle_start = inr (7, omega arith, refl);
        in_bytes = omega arith;
        out_bytes = omega arith;
        last_raw_in = omega arith;
        last_raw_out = omega arith;
        quota = refl;
        reset_day = refl;
        count_mode = refl;
      })

-- Two samples, of which one is in the batch.
abbrev writer : Writer ℕ
writer = Drain.step (Drain.step (Drain.step new_writer (queues 4)) (queues 5)) (receives true)

writer-Reachable : Drain.Reachable (4 ∷ 5 ∷ []) writer
unfolding new_writer queue_sample Drain.step
writer-Reachable =
    Drain.next (Drain.next (Drain.next Drain.start (queues 4)) (queues 5)) (receives true)

Reachable-IsOrdered_example : IsOrdered (4 ∷ 5 ∷ []) writer
Reachable-IsOrdered_example = Reachable-IsOrdered writer-Reachable

abbrev all_work : ℕ → Bool
all_work n = true

stop-Reachable_example :
    let after = stop all_work writer in
    (samples_of after.transactions ≡ 4 ∷ 5 ∷ []) × (after.batch ≡ []) × (after.queue ≡ [])
stop-Reachable_example = stop-Reachable writer-Reachable all_work

-- ===== src/Fleet/Examples.antt =====
-- Machines and reports for the tests. Percentages stand in for float64.
use dingzi.Base.{ℕ, none, [], String, false}
use dingzi.Ring.{new_ring}
use dingzi.Traffic.{count_sum}
use dingzi.Fleet.{Machine, Host, Sample, State, ahead}

abbrev pub some_host : Host
some_host = record {
  platform = "debian";
  platform_version = "12";
  os = "linux";
  kernel = "6.1";
  arch = "amd64";
  virtualization = "kvm";
  hostname = "web";
  cpu_model = "";
  cpu_cores = 2;
  cpu_threads = 2;
  mem_total = 100;
  swap_total = 0;
  disk_total = 500;
  boot_time = 1;
  gpus = [];
  terminal_enabled = false;
}

abbrev pub report : ℕ → State ℕ
report received = record {
  agent_time_ms = 7;
  cpu = 3;
  mem_used = 50;
  swap_used = 0;
  disk_used = 9;
  net_in_transfer = received;
  net_out_transfer = 0;
  net_in_speed = 0;
  net_out_speed = 0;
  load1 = 1;
  load5 = 1;
  load15 = 1;
  tcp_conns = 4;
  udp_conns = 2;
  processes = 80;
  temperatures = [];
  gpu_util = [];
}

abbrev pub blank : Sample ℕ
blank = record {
  at = 0;
  skew_ms = ahead 0;
  state = report 0;
  net_in_speed = 0;
  net_out_speed = 0;
  mem_total = 0;
  swap_total = 0;
  disk_total = 0;
}

abbrev pub machine : ℕ → String → Machine ℕ
machine id uuid = record {
  id = id;
  uuid = uuid;
  name = uuid;
  host = some_host;
  version = "0.4";
  first_seen = 1;
  last_seen = 1;
  conn = none;
  samples = new_ring blank;
  traffic = record {
    cycle_start = 0;
    in_bytes = 0;
    out_bytes = 0;
    last_raw_in = 0;
    last_raw_out = 0;
    has_raw = false;
    quota = 0;
    reset_day = 1;
    count_mode = count_sum;
  };
}

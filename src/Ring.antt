-- ===== src/Ring.antt =====
-- internal/server/hub.go: the ring of recent samples of one machine, for samples of any type.
-- Go's array is a list of RingSize entries; `blank` is its zero value.
pub mod Window
pub mod Refine
mod Tests
use dingzi.Base.{
  ℕ, zero, suc, ◌+◌, ◌-◌, ◌%◌, Bool, true, false, Option, none, some, List, [], ◌∷◌, ltb, eqb,
  if◌then◌else◌, get_or, set, replicate,
}

abbrev pub ring_size : ℕ
ring_size = 120

pub record Ring {ℓ} (A : Type ℓ) : Type ℓ where
  pub buf : List A
  pub next : ℕ
  pub n : ℕ

module _ {ℓ} {A : Type ℓ} (blank : A) where
  pub new_ring : Ring A
  new_ring = record { buf = replicate ring_size blank; next = 0; n = 0 }

  pub push : A → Ring A → Ring A
  push s r = record {
    buf = set r.buf r.next s;
    next = (r.next + 1) % ring_size;
    n = if ltb r.n ring_size then r.n + 1 else r.n;
  }

  -- The loop of `snapshot`, from the i-th entry with k entries to go.
  pub snapshot_from : Ring A → ℕ → ℕ → ℕ → List A
  snapshot_from r start i zero = []
  snapshot_from r start i (suc k) =
      get_or r.buf ((start + i) % ring_size) blank ∷ snapshot_from r start (i + 1) k

  pub snapshot : Ring A → List A
  unfolding snapshot_from
  snapshot r = snapshot_from r ((r.next + ring_size - r.n) % ring_size) 0 r.n

  pub latest : Ring A → Option A
  latest r =
      if eqb r.n 0 then none else some (get_or r.buf ((r.next + ring_size - 1) % ring_size) blank)

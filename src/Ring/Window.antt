-- ===== src/Ring/Window.antt =====
-- The window of the ring that `snapshot` reads, and what a write does to it.
use dingzi.Base.{
  ℕ, zero, suc, ◌+◌, ◌-◌, ◌%◌, ◌≤◌, ◌<◌, ◌≡◌, ◌≢◌, refl, ap, ◌∙◌, List, [], ◌∷◌, ◌++◌, arith,
  length, get_or, set, drop, length-set, length-replicate, get_or-set_self, get_or-set_ne,
}
use mathlib.Core.Path.{ap₂}
use native.Mathlib.Nat.{add-zero, zero-add}
use dingzi.Ring.{Ring, ring_size, new_ring, push, snapshot_from, snapshot}

-- What holds of a ring between two calls: all indices are in range, and a ring that is not full
-- has been filled from index 0.
pub record IsValid {ℓ} {A : Type ℓ} (r : Ring A) : Type 0 where
  pub whole : length r.buf ≡ ring_size
  pub next_in : r.next < ring_size
  pub n_in : r.n ≤ ring_size

module _ {ℓ} {A : Type ℓ} (blank : A) where
  pub new_ring-IsValid : IsValid (new_ring blank)
  unfolding new_ring
  new_ring-IsValid = record {
    whole = length-replicate ring_size blank;
    next_in = omega arith;
    n_in = omega arith;
  }

  pub push-IsValid : (s : A) (r : Ring A) → IsValid r → IsValid (push blank s r)
  unfolding push
  push-IsValid s r v = ground (arith, length-set r.buf r.next s)

  -- The loop reads the window that starts `back` places behind `next`.
  unfoldable pub window : List A → ℕ → ℕ → List A
  window buf at zero = []
  window buf at (suc k) = get_or buf (at % ring_size) blank ∷ window buf (at + 1) k

  snapshot_from-window :
      (r : Ring A) (start i k : ℕ) → snapshot_from blank r start i k ≡ window r.buf (start + i) k
  unfolding snapshot_from window
  snapshot_from-window r start i zero = refl
  snapshot_from-window r start i (suc k) =
      let e : start + (i + 1) ≡ start + i + 1 = omega arith in
      ap (◌∷◌ (get_or r.buf ((start + i) % ring_size) blank))
        (snapshot_from-window r start (i + 1) k ∙ ap (λ a. window r.buf a k) e)

  -- A window only depends on where it starts in the ring.
  window-mod :
      (buf : List A) (a b k : ℕ) → a % ring_size ≡ b % ring_size → window buf a k ≡ window buf b k
  unfolding window
  window-mod buf a b zero e = refl
  window-mod buf a b (suc k) e =
      let next : (a + 1) % ring_size ≡ (b + 1) % ring_size = omega arith in
      rw (e, window-mod buf (a + 1) (b + 1) k next)

  window-append :
      (buf : List A) (a j k : ℕ) → window buf a (j + k) ≡ window buf a j ++ window buf (a + j) k
  unfolding window
  window-append buf a zero k = simp (zero-add, add-zero)
  window-append buf a (suc j) k =
      let e : suc j + k ≡ suc (j + k) = omega arith in
      let f : a + 1 + j ≡ a + suc j = omega arith in
      rw (e, window)
        (ap (◌∷◌ (get_or buf (a % ring_size) blank))
          (window-append buf (a + 1) j k ∙ ap (λ b. window buf (a + 1) j ++ window buf b k) f))

  -- A write at a place that the window does not reach leaves it alone.
  pub window-set :
      (buf : List A) (i : ℕ) (s : A) (a k : ℕ)
      → i < ring_size
      → k < ring_size
      → (a + k) % ring_size ≡ i
      → window (set buf i s) a k ≡ window buf a k
  unfolding window
  window-set buf i s a zero hi hk e = refl
  window-set buf i s a (suc k) hi hk e =
      let ne : i ≢ a % ring_size = λ same. absurd (omega arith) in
      let f : (a + 1 + k) % ring_size ≡ i = omega arith in
      rw (
        get_or-set_ne buf i (a % ring_size) s blank ne,
        window-set buf i s (a + 1) k hi (omega arith) f,
      )

  length-window : (buf : List A) (a k : ℕ) → length (window buf a k) ≡ k
  unfolding window
  length-window buf a zero = refl
  length-window buf a (suc k) = ap suc (length-window buf (a + 1) k)

  pub snapshot-window :
      (r : Ring A) → snapshot blank r ≡ window r.buf (r.next + ring_size - r.n) r.n
  unfolding snapshot
  snapshot-window r =
      snapshot_from-window r ((r.next + ring_size - r.n) % ring_size) 0 r.n
      ∙ window-mod r.buf ((r.next + ring_size - r.n) % ring_size + 0) (r.next + ring_size - r.n) r.n
          (omega arith)

  pub length-snapshot : (r : Ring A) → length (snapshot blank r) ≡ r.n
  length-snapshot r = rw (snapshot-window r) (length-window r.buf (r.next + ring_size - r.n) r.n)

  -- What the write puts at the end of the window.
  window_written :
      (buf : List A) (next : ℕ) (s : A) (a : ℕ)
      → next < length buf
      → a % ring_size ≡ next
      → window (set buf next s) a 1 ≡ s ∷ []
  unfolding window
  window_written buf next s a h e = rw (e, get_or-set_self buf next s blank h)

  -- After the write the last k + 1 entries are the last k of before, and the new one.
  pub window-push :
      (buf : List A) (next : ℕ) (s : A) (k a b : ℕ)
      → length buf ≡ ring_size
      → next < ring_size
      → k < ring_size
      → a % ring_size ≡ b % ring_size
      → (b + k) % ring_size ≡ next
      → window (set buf next s) a (k + 1) ≡ window buf b k ++ s ∷ []
  window-push buf next s k a b whole hn hk same at =
      window-mod (set buf next s) a b (k + 1) same
      ∙ window-append (set buf next s) b k 1
      ∙ ap₂ ◌++◌ (window-set buf next s b k hn hk at)
          (window_written buf next s (b + k) (omega arith) at)

  pub drop-window : (buf : List A) (b k : ℕ) → drop 1 (window buf b (suc k)) ≡ window buf (b + 1) k
  unfolding window
  drop-window buf b k = refl

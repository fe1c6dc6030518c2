-- ===== src/Ring/Refine.antt =====
-- The ring is the queue of the last RingSize samples pushed.
use dingzi.Base.{
  ℕ, zero, suc, ◌+◌, ◌-◌, ◌%◌, ◌≤◌, ◌<◌, ◌≡◌, ◌≢◌, refl, sym, ap, ◌∙◌, Option, none, some, List, [],
  ◌∷◌, ◌++◌, arith, lt→ltb, le→ltb, length, get_or, set, drop, length-append, length-drop,
}
use native.Mathlib.Decide.{dec_lt}
use native.Mathlib.Nat.{add-zero, zero-add}
use mathlib.Core.List.{append-nil, append_assoc}
use dingzi.Ring.{Ring, ring_size, new_ring, push, snapshot, latest}
use dingzi.Ring.Window.{
  IsValid, new_ring-IsValid, push-IsValid, window, window-push, drop-window, snapshot-window,
  length-snapshot,
}

module _ {ℓ} {A : Type ℓ} where
  -- The last RingSize entries of a list.
  abbrev pub recent : List A → List A
  recent l = drop (length l - ring_size) l

  abbrev pub get_last? : List A → Option A
  get_last? [] = none
  get_last? (x ∷ []) = some x
  get_last? (x ∷ y ∷ l) = get_last? (y ∷ l)

module _ {ℓ} {A : Type ℓ} (blank : A) where
  drop_one-append : (l : List A) (s : A) → 1 ≤ length l → drop 1 l ++ s ∷ [] ≡ drop 1 (l ++ s ∷ [])
  drop_one-append [] s h = absurd (omega arith)
  drop_one-append (x ∷ l) s h = refl

  drop-append : (k : ℕ) (l m : List A) → k ≤ length l → drop k (l ++ m) ≡ drop k l ++ m
  drop-append zero l m h = refl
  drop-append (suc k) [] m h = absurd (omega arith)
  drop-append (suc k) (x ∷ l) m h = drop-append k l m (omega arith)

  drop-drop : (j k : ℕ) (l : List A) → drop j (drop k l) ≡ drop (k + j) l
  drop-drop j zero l = simp zero-add
  drop-drop zero (suc k) [] = simp add-zero
  drop-drop (suc j) (suc k) [] = let e : suc k + suc j ≡ suc (k + suc j) = omega arith in rw e
  drop-drop j (suc k) (x ∷ l) =
      let e : suc k + j ≡ suc (k + j) = omega arith in rw e (drop-drop j k l)

  module _ (s : A) (r : Ring A) (v : IsValid r) where
    push_room_eq :
        r.n < ring_size
        → push blank s r
          ≡ record { buf = set r.buf r.next s; next = (r.next + 1) % ring_size; n = r.n + 1 }
    unfolding push
    push_room_eq room = rw (lt→ltb r.n ring_size room)

    push_full_eq :
        r.n ≡ ring_size
        → push blank s r
          ≡ record { buf = set r.buf r.next s; next = (r.next + 1) % ring_size; n = r.n }
    unfolding push
    push_full_eq full = rw (le→ltb r.n ring_size (omega arith))

    push-snapshot_room :
        r.n < ring_size → snapshot blank (push blank s r) ≡ snapshot blank r ++ s ∷ []
    push-snapshot_room room =
        rw (push_room_eq room, snapshot-window blank, snapshot-window blank)
          (window-push blank r.buf r.next s r.n _ (r.next + ring_size - r.n) v.whole v.next_in room
            (omega (arith, v.next_in)) (omega (arith, v.next_in)))

    push-snapshot_full :
        r.n ≡ ring_size → snapshot blank (push blank s r) ≡ drop 1 (snapshot blank r) ++ s ∷ []
    push-snapshot_full full =
        rw (push_full_eq full, snapshot-window blank, snapshot-window blank)
          (go (r.n - 1) (omega arith))
      where
        go :
            (k : ℕ)
            → r.n ≡ suc k
            → window blank (set r.buf r.next s) ((r.next + 1) % ring_size + ring_size - r.n) r.n
              ≡ drop 1 (window blank r.buf (r.next + ring_size - r.n) r.n) ++ s ∷ []
        go k e =
            let f : r.n ≡ k + 1 = omega arith in
            ap (window blank (set r.buf r.next s) ((r.next + 1) % ring_size + ring_size - r.n)) f
            ∙ window-push blank r.buf r.next s k _ (r.next + ring_size - r.n + 1) v.whole v.next_in
                (omega arith) (omega (arith, v.next_in)) (omega (arith, v.next_in))
            ∙ ap (λ w. w ++ s ∷ [])
                (sym (drop-window blank r.buf (r.next + ring_size - r.n) k)
                  ∙ ap (λ n. drop 1 (window blank r.buf (r.next + ring_size - r.n) n)) (sym e))

    -- A push leaves the last RingSize of the samples held and the new one, oldest first.
    pub push_refines : snapshot blank (push blank s r) ≡ recent (snapshot blank r ++ s ∷ [])
    push_refines = elim (dec_lt r.n ring_size) [
      | yes room ↦
          let e : length (snapshot blank r ++ s ∷ []) - ring_size ≡ 0 = omega (arith, grown) in
          push-snapshot_room room ∙ ap (λ k. drop k (snapshot blank r ++ s ∷ [])) (sym e)
      | no not_room ↦
          let full : r.n ≡ ring_size = omega (arith, v.n_in) in
          let e : length (snapshot blank r ++ s ∷ []) - ring_size ≡ 1 = omega (arith, grown) in
          push-snapshot_full full
          ∙ drop_one-append (snapshot blank r) s (omega (arith, length-snapshot blank r))
          ∙ ap (λ k. drop k (snapshot blank r ++ s ∷ [])) (sym e)
    ]
      where
        grown : length (snapshot blank r ++ s ∷ []) ≡ r.n + 1
        grown = omega (arith, length-append (snapshot blank r) (s ∷ []), length-snapshot blank r)

  -- Adding to the recent entries of a history gives the recent entries of the longer history.
  recent-append : (h : List A) (s : A) → recent (recent h ++ s ∷ []) ≡ recent (h ++ s ∷ [])
  recent-append h s =
      let a = length h - ring_size in
      let l = h ++ s ∷ [] in
      let grown : length l ≡ length h + 1 = length-append h (s ∷ []) in
      let e : a + (length (drop a l) - ring_size) ≡ length l - ring_size =
        omega (arith, grown, length-drop a l) in
      ap recent (sym (drop-append a h (s ∷ []) (omega arith)))
      ∙ drop-drop (length (drop a l) - ring_size) a l
      ∙ ap (λ k. drop k l) e

  unfoldable pub pushes : List A → Ring A → Ring A
  pushes [] r = r
  pushes (s ∷ l) r = pushes l (push blank s r)

  pushes_from :
      (l h : List A) (r : Ring A)
      → IsValid r
      → snapshot blank r ≡ recent h
      → snapshot blank (pushes l r) ≡ recent (h ++ l)
  unfolding pushes
  pushes_from [] h r v e = e ∙ ap recent (sym (append-nil h))
  pushes_from (s ∷ l) h r v e =
      pushes_from l (h ++ s ∷ []) (push blank s r) (push-IsValid blank s r v)
        (push_refines s r v ∙ ap (λ w. recent (w ++ s ∷ [])) e ∙ recent-append h s)
      ∙ ap recent (append_assoc h (s ∷ []) l)

  -- However many samples a new ring is given, its snapshot is the last RingSize of them, oldest
  -- first: memory is bounded and nothing recent is lost or reordered.
  pub pushes_refine : (l : List A) → snapshot blank (pushes l (new_ring blank)) ≡ recent l
  unfolding new_ring snapshot
  pushes_refine l = pushes_from l [] (new_ring blank) (new_ring-IsValid blank) refl

  last-window :
      (buf : List A) (a k : ℕ)
      → get_last? (window blank buf a (suc k)) ≡ some (get_or buf ((a + k) % ring_size) blank)
  unfolding window
  last-window buf a zero = simp add-zero
  last-window buf a (suc k) =
      let e : a + 1 + k ≡ a + suc k = omega arith in
      last-window buf (a + 1) k ∙ ap (λ i. some (get_or buf (i % ring_size) blank)) e

  latest_empty : (r : Ring A) → r.n ≡ 0 → latest blank r ≡ none
  unfolding latest
  latest_empty r e = ground arith

  latest_full :
      (r : Ring A)
      → r.n ≢ 0
      → latest blank r ≡ some (get_or r.buf ((r.next + ring_size - 1) % ring_size) blank)
  unfolding latest
  latest_full r ne = ground arith

  -- The latest sample is the last one of the snapshot, and there is none exactly if that is empty.
  pub latest-snapshot : (r : Ring A) → IsValid r → latest blank r ≡ get_last? (snapshot blank r)
  unfolding window
  latest-snapshot r v = go r.n refl
    where
      go : (n : ℕ) → r.n ≡ n → latest blank r ≡ get_last? (snapshot blank r)
      go zero e =
          latest_empty r e
          ∙ sym (
              ap get_last?
                (snapshot-window blank r ∙ ap (window blank r.buf (r.next + ring_size - r.n)) e))
      go (suc k) e =
          let f : (r.next + ring_size - 1) % ring_size
              ≡ (r.next + ring_size - r.n + k) % ring_size =
            omega (arith, v.n_in) in
          latest_full r (omega arith)
          ∙ ap (λ i. some (get_or r.buf i blank)) f
          ∙ sym (
              ap get_last?
                (snapshot-window blank r ∙ ap (window blank r.buf (r.next + ring_size - r.n)) e)
              ∙ last-window r.buf (r.next + ring_size - r.n) k)

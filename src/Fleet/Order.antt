-- ===== src/Fleet/Order.antt =====
-- The list of machines: each once, by rising id, whatever the order of the map.
use dingzi.Base.{
  ℕ, ◌<◌, ◌≡◌, ◌≢◌, ◌↔◌, ◌⊎◌, inl, inr, refl, sym, ap, ◌∙◌, ◌==◌, some, List, [], ◌∷◌, arith,
  number_key, Bool-cases, Option-cases, ltb, All,
}
use dingzi.Base.Table.{Table, lookup, IsUnique}
use dingzi.Fleet.{Hub, Machine, MachineView, Sample, get}
use dingzi.Fleet.Reports.{view_of, view, insert_view, sort_views, views_from, snapshot_views}
use dingzi.Fleet.Coherence.{IsCoherent}

module _ {Float : Type 0} where
  -- Membership, as an alternative for each entry.
  abbrev pub In : MachineView Float → List (MachineView Float) → Type 0
  In w [] = ⊥
  In w (v ∷ l) = (w ≡ v) ⊎ In w l

  -- Sorted by id, no id twice.
  abbrev pub Ascending : List (MachineView Float) → Type 0
  Ascending [] = Unit
  Ascending (v ∷ l) = All (λ w. v.machine.id < w.machine.id) l × Ascending l

  insert-All :
      (k : ℕ) (v : MachineView Float) (l : List (MachineView Float))
      → k < v.machine.id
      → All (λ w. k < w.machine.id) l
      → All (λ w. k < w.machine.id) (insert_view v l)
  unfolding insert_view
  insert-All k v [] lt a = (lt, tt)
  insert-All k v (w ∷ l) lt a = elim (Bool-cases (ltb w.machine.id v.machine.id)) [
    | inl e ↦ rw (e, insert_view) (a.0, insert-All k v l lt a.1)
    | inr e ↦ rw (e, insert_view) (lt, a)
  ]

  All-mono :
      (j k : ℕ) (l : List (MachineView Float))
      → j < k
      → All (λ w. k < w.machine.id) l
      → All (λ w. j < w.machine.id) l
  All-mono j k [] lt a = tt
  All-mono j k (w ∷ l) lt a = (omega (arith, a.0), All-mono j k l lt a.1)

  insert-Ascending :
      (v : MachineView Float) (l : List (MachineView Float))
      → All (λ w. w.machine.id ≢ v.machine.id) l
      → Ascending l
      → Ascending (insert_view v l)
  unfolding insert_view
  insert-Ascending v [] ne a = (tt, tt)
  insert-Ascending v (w ∷ l) ne a = elim (Bool-cases (ltb w.machine.id v.machine.id)) [
    | inl e ↦
        rw (e, insert_view)
          (insert-All w.machine.id v l (ground arith) a.0, insert-Ascending v l ne.1 a.1)
    | inr e ↦
        let lt : v.machine.id < w.machine.id = ground (arith, ne.0) in
        rw (e, insert_view) ((lt, All-mono v.machine.id w.machine.id l lt a.0), a)
  ]

  In-insert :
      (x v : MachineView Float) (l : List (MachineView Float))
      → In x (insert_view v l) ↔ ((x ≡ v) ⊎ In x l)
  unfolding insert_view
  In-insert x v [] = (λ h. h, λ h. h)
  In-insert x v (w ∷ l) = elim (Bool-cases (ltb w.machine.id v.machine.id)) [
    | inl e ↦ rw (e, insert_view) (let (f, g) = In-insert x v l in ground (arith, f, g))
    | inr e ↦ rw (e, insert_view) (λ h. h, λ h. h)
  ]

  In-sort : (x : MachineView Float) (l : List (MachineView Float)) → In x (sort_views l) ↔ In x l
  unfolding sort_views
  In-sort x [] = (λ h. h, λ h. h)
  In-sort x (v ∷ l) =
      let (f, g) = In-sort x l in
      let (f', g') = In-insert x v (sort_views l) in ground (arith, f, g, f', g')

  All-In :
      (k : ℕ) (l : List (MachineView Float))
      → ((w : MachineView Float) → In w l → w.machine.id ≢ k)
      → All (λ w. w.machine.id ≢ k) l
  All-In k [] h = tt
  All-In k (w ∷ l) h = (h w (inl refl), All-In k l (λ x i. h x (inr i)))

  -- No two views of a list have one id.
  abbrev Apart : List (MachineView Float) → Type 0
  Apart [] = Unit
  Apart (v ∷ l) = All (λ w. w.machine.id ≢ v.machine.id) l × Apart l

  In-All :
      (k : ℕ) (w : MachineView Float) (l : List (MachineView Float))
      → All (λ x. x.machine.id ≢ k) l
      → In w l
      → w.machine.id ≢ k
  In-All k w [] a i = absurd i
  In-All k w (v ∷ l) a (inl e) = rw e a.0
  In-All k w (v ∷ l) a (inr i) = In-All k w l a.1 i

  sort-Ascending : (l : List (MachineView Float)) → Apart l → Ascending (sort_views l)
  unfolding sort_views
  sort-Ascending [] a = tt
  sort-Ascending (v ∷ l) a =
      insert-Ascending v (sort_views l)
        (All-In v.machine.id (sort_views l)
          (λ w i. In-All v.machine.id w l a.0 ((In-sort w l).0 i)))
        (sort-Ascending l a.1)

module _ {Float : Type 0} (blank : Sample Float) (now : ℕ) (h : Hub Float) (c : IsCoherent h) where
  abbrev Part : Table ℕ ℕ → Type 0
  Part l = (id p : ℕ) → lookup id l ≡ some p → lookup id h.by_id ≡ some p

  Part-tail : (id p : ℕ) (l : Table ℕ ℕ) → IsUnique ((id, p) ∷ l) → Part ((id, p) ∷ l) → Part l
  Part-tail id p l u w j q e = ground (arith, w j q)

  head_view :
      (id q : ℕ) (rest : Table ℕ ℕ)
      → Part ((id, q) ∷ rest)
      → (x : Machine Float) × (lookup q h.cells ≡ some x)
        × (x.id ≡ id)
        × (views_from blank ((id, q) ∷ rest) now h
            ≡ view_of blank h.sample_timeout now x ∷ views_from blank rest now h)
  unfolding views_from
  head_view id q rest part =
      let (x, there, is, back) = c.ids id q (ground (arith, part id q)) in
      (x, there, is, rw (there, views_from) refl)

  -- The views of a part of the map are those of its machines.
  views_iff :
      (l : Table ℕ ℕ) (w : MachineView Float)
      → IsUnique l
      → Part l
      → In w (views_from blank l now h) ↔ (
          (p : ℕ) × (m : Machine Float) × (lookup m.id l ≡ some p)
          × (lookup p h.cells ≡ some m)
          × (w ≡ view_of blank h.sample_timeout now m))
  unfolding views_from
  views_iff [] w u part = (λ i. absurd i, λ (p, m, e, _, _). absurd (ground arith))
  views_iff ((id, q) ∷ rest) w u part =
      let (x, there, is, eq_views) = head_view id q rest part in
      let (f, g) = views_iff rest w u.1 (Part-tail id q rest u part) in
      rw eq_views (
        λ i. elim i [
          | inl e ↦ (q, x, ground arith, there, e)
          | inr later ↦ let (p, m, e, at, same) = f later in (p, m, ground (arith, u.0), at, same)
        ],
        λ (p, m, e, at, same). elim (Bool-cases (id == m.id)) [
          | inl here ↦ let x_is : x ≡ m = ground arith in inl (rw x_is same)
          | inr other ↦ inr (g (p, m, ground arith, at, same))
        ],
      )

  views-Apart : (l : Table ℕ ℕ) → IsUnique l → Part l → Apart (views_from blank l now h)
  unfolding views_from view_of
  views-Apart [] u part = tt
  views-Apart ((id, q) ∷ rest) u part =
      let (x, there, is, eq_views) = head_view id q rest part in
      let part' = Part-tail id q rest u part in
      rw eq_views (
        All-In x.id (views_from blank rest now h) (λ w i e.
            let (p, m, found, at, same) = (views_iff rest w u.1 part').0 i in
            let w_id : w.machine.id ≡ m.id = ap (λ v. v.machine.id) same in ground (arith, u.0)),
        views-Apart rest u.1 part',
      )

  view_at :
      (k p : ℕ) (m : Machine Float)
      → lookup k h.by_id ≡ some p
      → lookup p h.cells ≡ some m
      → view blank k now h ≡ some (view_of blank h.sample_timeout now m)
  unfolding view get
  view_at k p m e at = rw (e, view, at) refl

  -- The list of machines is in rising order of their ids, without repetition, and it holds a view
  -- exactly when View gives that view at its id.
  pub snapshot_views_lem :
      Ascending (snapshot_views blank now h)
      × ((w : MachineView Float)
          → In w (snapshot_views blank now h) ↔ (view blank w.machine.id now h ≡ some w))
  unfolding snapshot_views view get view_of
  snapshot_views_lem = (
    sort-Ascending (views_from blank h.by_id now h) (views-Apart h.by_id c.unique (λ id p e. e)),
    λ w.
        let (f, g) = In-sort w (views_from blank h.by_id now h) in
        let (f', g') = views_iff h.by_id w c.unique (λ id p e. e) in
        (
          λ i.
              let (p, m, e, at, same) = f' (f i) in
              let w_id : w.machine.id ≡ m.id = ap (λ v. v.machine.id) same in
              view_at w.machine.id p m (ap (λ k. lookup k h.by_id) w_id ∙ e) at
              ∙ ap some (sym same),
          λ seen. elim (Option-cases (lookup w.machine.id h.by_id)) [
            | inl e ↦ absurd (ground (arith, e))
            | inr (p, e) ↦
                let (m, at, is, back) = c.ids w.machine.id p e in
                g (g' (p, m, rw is e, at, ground (arith, e, at)))
          ],
        ),
  )

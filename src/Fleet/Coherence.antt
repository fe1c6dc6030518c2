-- ===== src/Fleet/Coherence.antt =====
-- The two maps of the hub lead to the same machines.
use dingzi.Base.{
  ℕ, ◌≤◌, ◌≡◌, ◌↔◌, inl, inr, refl, Option, none, some, String, arith, text_key, number_key,
  Bool-cases, Option-cases, ◌==◌, if◌then◌else◌, ==_refl,
}
use dingzi.Base.Table.{
  lookup, IsUnique, lookup-erase, lookup-insert, erase-IsUnique, insert-IsUnique,
}
use dingzi.Fleet.{
  Hub, Machine, new_hub, install, get, get_by_uuid, change, remove, attach, detach, put, refresh,
}

pub record IsCoherent {Float : Type 0} (h : Hub Float) : Type 0 where
  pub ids :
      (id p : ℕ)
      → lookup id h.by_id ≡ some p
      → (m : Machine Float) × (lookup p h.cells ≡ some m)
        × (m.id ≡ id)
        × (lookup m.uuid h.by_uuid ≡ some p)
  pub uuids :
      (u : String) (p : ℕ)
      → lookup u h.by_uuid ≡ some p
      → (m : Machine Float) × (lookup p h.cells ≡ some m)
        × (m.uuid ≡ u)
        × (lookup m.id h.by_id ≡ some p)
  pub unused : (p : ℕ) → h.next_cell ≤ p → lookup p h.cells ≡ none
  pub unique : IsUnique h.by_id

-- Changes that leave what the maps are keyed by.
abbrev pub Keeps : {Float : Type 0} → (Machine Float → Machine Float) → Type 0
Keeps {Float = Float} f = (m : Machine Float) → ((f m).id ≡ m.id) × ((f m).uuid ≡ m.uuid)

abbrev pub when_some {ℓ} : {A : Type ℓ} → (A → A) → Option A → Option A
when_some f none = none
when_some f (some a) = some (f a)

module _ {Float : Type 0} where
  pub new_hub-IsCoherent : IsCoherent (new_hub {Float = Float})
  unfolding new_hub
  new_hub-IsCoherent = record {
    ids = λ id p h. absurd (ground arith);
    uuids = λ u p h. absurd (ground arith);
    unused = λ p le. refl;
    unique = tt;
  }

  pub install-IsCoherent :
      (m : Machine Float) (h : Hub Float)
      → IsCoherent h
      → lookup m.id h.by_id ≡ none
      → lookup m.uuid h.by_uuid ≡ none
      → IsCoherent (install m h)
  unfolding install
  install-IsCoherent m h c no_id no_uuid = record {
    ids = λ id p e. elim (Bool-cases (m.id == id)) [
      | inl same ↦ (
        m,
        ground (arith, lookup-insert h.next_cell h.next_cell m h.cells),
        ground (arith, number_key.same_iff m.id id),
        ground (arith, ==_refl m.uuid),
      )
      | inr other ↦
          let (x, there, is, back) = c.ids id p (ground (arith, lookup-erase id m.id h.by_id)) in
          (
            x,
            ground (arith, lookup-erase p h.next_cell h.cells, c.unused p),
            is,
            ground (arith, lookup-erase x.uuid m.uuid h.by_uuid, text_key.same_iff m.uuid x.uuid),
          )
    ];
    uuids = λ u p e. elim (Bool-cases (m.uuid == u)) [
      | inl same ↦ (
        m,
        ground (arith, lookup-insert h.next_cell h.next_cell m h.cells),
        ground (arith, text_key.same_iff m.uuid u),
        ground arith,
      )
      | inr other ↦
          let (x, there, is, back) =
            c.uuids u p (ground (arith, lookup-erase u m.uuid h.by_uuid)) in
          (
            x,
            ground (arith, lookup-erase p h.next_cell h.cells, c.unused p),
            is,
            ground (arith, lookup-erase x.id m.id h.by_id),
          )
    ];
    unused = λ p le. ground (arith, c.unused p, lookup-erase p h.next_cell h.cells);
    unique = insert-IsUnique m.id h.next_cell h.by_id c.unique;
  }

  pub change-IsCoherent :
      (id : ℕ) (f : Machine Float → Machine Float) (h : Hub Float)
      → Keeps f
      → IsCoherent h
      → IsCoherent (change id f h)
  unfolding change
  change-IsCoherent id f h k c = elim (Option-cases (lookup id h.by_id)) [
    | inl e ↦ rw (e, change) c
    | inr (q, e) ↦
        let (m, at, is_m, back_m) = c.ids id q e in
        let (same_id, same_uuid) = k m in
        rw (e, change, at)
          (record {
            ids = λ j p g.
                let (x, there, is, back) = c.ids j p g in
                elim (Bool-cases (q == p)) [
                  | inl same ↦ (f m, ground arith, ground arith, ground arith)
                  | inr other ↦ (x, ground (arith, lookup-erase p q h.cells), is, back)
                ];
            uuids = λ u p g.
                let (x, there, is, back) = c.uuids u p g in
                elim (Bool-cases (q == p)) [
                  | inl same ↦ (f m, ground arith, ground arith, ground arith)
                  | inr other ↦ (x, ground (arith, lookup-erase p q h.cells), is, back)
                ];
            unused = λ p le. ground (arith, c.unused p, lookup-erase p q h.cells);
            unique = c.unique;
          })
  ]

  pub remove-IsCoherent : (id : ℕ) (h : Hub Float) → IsCoherent h → IsCoherent (remove id h).0
  unfolding remove get
  remove-IsCoherent id h c = elim (Option-cases (lookup id h.by_id)) [
    | inl e ↦ rw (e, remove) c
    | inr (q, e) ↦
        let (m, at, is, back) = c.ids id q e in
        rw (e, remove, at)
          (record {
            ids = λ j p g.
                let (x, there, is', back') =
                  c.ids j p (ground (arith, lookup-erase j id h.by_id)) in
                (
                  x,
                  there,
                  is',
                  ground (
                    arith,
                    lookup-erase x.uuid m.uuid h.by_uuid,
                    text_key.same_iff m.uuid x.uuid,
                    lookup-erase j id h.by_id,
                  ),
                );
            uuids = λ u p g.
                let (x, there, is', back') =
                  c.uuids u p (ground (arith, lookup-erase u m.uuid h.by_uuid)) in
                (
                  x,
                  there,
                  is',
                  ground (
                    arith,
                    lookup-erase u m.uuid h.by_uuid,
                    text_key.same_iff m.uuid u,
                    lookup-erase x.id id h.by_id,
                  ),
                );
            unused = c.unused;
            unique = erase-IsUnique id h.by_id c.unique;
          })
  ]

  -- A machine is found by its uuid exactly when it is found by its id and has that uuid: both
  -- paths lead to the same machine.
  pub get_by_uuid_iff :
      (u : String) (m : Machine Float) (h : Hub Float)
      → IsCoherent h
      → (get_by_uuid u h ≡ some m) ↔ ((get m.id h ≡ some m) × (m.uuid ≡ u))
  unfolding get get_by_uuid
  get_by_uuid_iff u m h c = (
    λ e. elim (Option-cases (lookup u h.by_uuid)) [
      | inl g ↦ absurd (ground (arith, g))
      | inr (p, g) ↦ let (x, there, is, back) = c.uuids u p g in (ground arith, ground arith)
    ],
    λ (e, is). elim (Option-cases (lookup m.id h.by_id)) [
      | inl g ↦ absurd (ground (arith, g))
      | inr (p, g) ↦ let (x, there, same, back) = c.ids m.id p g in ground arith
    ],
  )

  -- A change of one machine is seen at its id, and the others are as they were.
  pub get-change :
      (j id : ℕ) (f : Machine Float → Machine Float) (h : Hub Float)
      → IsCoherent h
      → get j (change id f h) ≡ (if id == j then when_some f (get j h) else get j h)
  unfolding get change
  get-change j id f h c = elim (Option-cases (lookup id h.by_id)) [
    | inl e ↦ rw (e, change) (ground (arith, e))
    | inr (q, e) ↦
        let (x, there, is, back) = c.ids id q e in
        elim (Option-cases (lookup j h.by_id)) [
          | inl g ↦ ground (arith, e, g)
          | inr (p, g) ↦
              let (y, there', is', back') = c.ids j p g in
              ground (arith, e, g, there, there', lookup-erase p q h.cells)
        ]
  ]

  pub attach-IsCoherent :
      (id c now : ℕ) (h : Hub Float) → IsCoherent h → IsCoherent (attach id c now h)
  unfolding attach
  attach-IsCoherent id c now h v = elim (Option-cases (get id h)) [
    | inl e ↦ rw (e, attach) v
    | inr (m, e) ↦
        let w =
          change-IsCoherent id (λ x. record x { conn = some c; last_seen = now }) h
            (λ x. (refl, refl)) v in
        rw (e, attach)
          (record { ids = w.ids; uuids = w.uuids; unused = w.unused; unique = w.unique })
  ]

  pub detach-IsCoherent : (id c : ℕ) (h : Hub Float) → IsCoherent h → IsCoherent (detach id c h)
  unfolding detach
  detach-IsCoherent id c h v =
      let w = change-IsCoherent id (λ x. record x { conn = none }) h (λ x. (refl, refl)) v in
      ground (arith, w)

  pub put-IsCoherent :
      (m : Machine Float) (h : Hub Float)
      → IsCoherent h
      → (lookup m.id h.by_id ≡ none → lookup m.uuid h.by_uuid ≡ none)
      → IsCoherent (put m h).0
  unfolding put get
  put-IsCoherent m h v free = elim (Option-cases (lookup m.id h.by_id)) [
    | inl e ↦ rw (e, put) (install-IsCoherent m h v e (free e))
    | inr (p, e) ↦
        let (x, there, is, back) = v.ids m.id p e in
        rw (e, put, there) (change-IsCoherent m.id (refresh m) h (λ y. (refl, refl)) v)
  ]

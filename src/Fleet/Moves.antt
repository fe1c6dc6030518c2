-- ===== src/Fleet/Moves.antt =====
-- What the calls that change the fleet do to it.
use dingzi.Base.{
  ℕ, ◌≡◌, ◌≢◌, inl, inr, refl, none, some, ◌∷◌, arith, text_key, number_key, Option-cases, ◌==◌,
  if◌then◌else◌, ==_refl,
}
use dingzi.Base.Table.{lookup, lookup-erase}
use dingzi.Fleet.{
  Hub, Machine, install, get, get_by_uuid, change, put, refresh, attach, detach, conn, remove,
}
use dingzi.Fleet.Coherence.{IsCoherent, get-change, when_some, attach-IsCoherent}

module _ {Float : Type 0} where
  get-install :
      (j : ℕ) (m : Machine Float) (h : Hub Float)
      → IsCoherent h
      → get j (install m h) ≡ (if m.id == j then some m else get j h)
  unfolding get install
  get-install j m h c = elim (Option-cases (lookup j h.by_id)) [
    | inl e ↦ ground (arith, e, lookup-erase j m.id h.by_id)
    | inr (p, e) ↦
        let (y, there, is, back) = c.ids j p e in
        ground (
          arith,
          e,
          there,
          lookup-erase j m.id h.by_id,
          lookup-erase p h.next_cell h.cells,
          c.unused p,
        )
  ]

  -- Put of a machine that is there replaces its name, host and version and keeps all else of it,
  -- and of a new machine installs it as it is; it returns what is then found at its id, and the
  -- other machines are as they were.
  pub put-get :
      (m : Machine Float) (h : Hub Float)
      → IsCoherent h
      → let (after, result) = put m h in
        (get m.id after ≡ some result)
        × ((existing : Machine Float) → get m.id h ≡ some existing → result ≡ refresh m existing)
        × (get m.id h ≡ none → result ≡ m)
        × ((j : ℕ) → j ≢ m.id → get j after ≡ get j h)
  unfolding put
  put-get m h c = elim (Option-cases (get m.id h)) [
    | inl e ↦
        rw (e, put)
          (
            rw (get-install m.id m h c, ==_refl m.id) refl,
            λ existing g. absurd (ground (arith, e)),
            λ g. refl,
            λ j ne. ground (arith, get-install j m h c),
          )
    | inr (existing, e) ↦
        rw (e, put)
          (
            rw (get-change m.id m.id (refresh m) h c, ==_refl m.id, e) refl,
            λ other g. ground (arith, e),
            λ g. absurd (ground (arith, e)),
            λ j ne. ground (arith, get-change j m.id (refresh m) h c),
          )
  ]

  conn_some : (id : ℕ) (m : Machine Float) (h : Hub Float) → get id h ≡ some m → conn id h ≡ m.conn
  unfolding conn
  conn_some id m h e = ground (arith, e)

  abbrev hold : ℕ → ℕ → Machine Float → Machine Float
  hold c now x = record x { conn = some c; last_seen = now }

  pub get-attach :
      (j id c now : ℕ) (h : Hub Float)
      → IsCoherent h
      → get j (attach id c now h) ≡ (
          if id == j
          then when_some (λ x. record x { conn = some c; last_seen = now }) (get j h)
          else get j h)
  unfolding attach get
  get-attach j id c now h v = elim (Option-cases (get id h)) [
    | inl e ↦ rw (e, attach) (ground (arith, e))
    | inr (m, e) ↦ rw (e, attach) (get-change j id (hold c now) h v)
  ]

  attach_held :
      (id c now : ℕ) (m : Machine Float) (h : Hub Float)
      → IsCoherent h
      → get id h ≡ some m
      → get id (attach id c now h) ≡ some (hold c now m)
  attach_held id c now m h v e = rw (get-attach id id c now h v, ==_refl id, e) refl

  -- Attach closes the connection it replaces, unless it is the one attached, and no other.
  pub attach_closes :
      (id c now : ℕ) (h : Hub Float)
      → ((old : ℕ) → conn id h ≡ some old → old ≢ c → (attach id c now h).closed ≡ old ∷ h.closed)
        × (((old : ℕ) → conn id h ≡ some old → old ≡ c) → (attach id c now h).closed ≡ h.closed)
  unfolding attach conn change get
  attach_closes id c now h = elim (Option-cases (get id h)) [
    | inl e ↦ (λ old g. absurd (ground (arith, e)), λ g. rw (e, attach) refl)
    | inr (m, e) ↦ elim (Option-cases m.conn) [
      | inl g ↦ (λ old g'. absurd (ground (arith, e, g)), λ g'. rw (e, attach, g) refl)
      | inr (held, g) ↦ (
        λ old g' ne. rw (e, attach, g) (ground (arith, e, g, number_key.same_iff held c)),
        λ all.
            let same : held ≡ c = all held (rw (e, conn) g) in
            rw (e, attach, g) (ground (arith, number_key.same_iff held c)),
      )
    ]
  ]

  -- A detach by a connection that is no longer the machine's changes nothing: a teardown that ends
  -- after the agent is back leaves the machine online.
  pub detach_stale :
      (id old new now : ℕ) (m : Machine Float) (h : Hub Float)
      → IsCoherent h
      → get id h ≡ some m
      → old ≢ new
      → (detach id old (attach id new now h) ≡ attach id new now h)
        × (conn id (detach id old (attach id new now h)) ≡ some new)
  unfolding detach conn
  detach_stale id old new now m h v e ne =
      let held = attach_held id new now m h v e in (ground (arith, held), ground (arith, held))

  -- A detach by the connection of the machine takes it offline.
  pub detach_own :
      (id c now : ℕ) (m : Machine Float) (h : Hub Float)
      → IsCoherent h
      → get id h ≡ some m
      → conn id (detach id c (attach id c now h)) ≡ none
  unfolding detach conn
  detach_own id c now m h v e =
      let held = attach_held id c now m h v e in
      let w = attach-IsCoherent id c now h v in
      rw (held, detach, ==_refl c)
        (conn_some id (record (hold c now m) { conn = none })
          (change id (λ x. record x { conn = none }) (attach id c now h))
          (rw
            (
              get-change id id (λ x. record x { conn = none }) (attach id c now h) w,
              ==_refl id,
              held,
            )
            refl))

  -- Remove of a machine returns its connection; the machine is then found neither by its id nor by
  -- its uuid, and the other machines are as they were.
  pub remove_lem :
      (id : ℕ) (m : Machine Float) (h : Hub Float)
      → IsCoherent h
      → get id h ≡ some m
      → let (after, held) = remove id h in
        (held ≡ m.conn)
        × (get id after ≡ none)
        × (get_by_uuid m.uuid after ≡ none)
        × ((j : ℕ) → j ≢ id → get j after ≡ get j h)
  unfolding remove get get_by_uuid
  remove_lem id m h v e = elim (Option-cases (lookup id h.by_id)) [
    | inl g ↦ absurd (ground (arith, g))
    | inr (p, g) ↦
        let (x, there, is, back) = v.ids id p g in
        (
          ground (arith, g),
          ground (arith, g, there, lookup-erase id id h.by_id, ==_refl id),
          ground (arith, g, there, lookup-erase m.uuid m.uuid h.by_uuid, ==_refl m.uuid),
          λ j ne. ground (arith, g, there, lookup-erase j id h.by_id),
        )
  ]

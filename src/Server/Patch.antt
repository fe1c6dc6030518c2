-- ===== src/Server/Patch.antt =====
-- A patch of a machine changes its row and its memory alike, or nothing.
use dingzi.Base.{
  ℕ, ◌≡◌, ◌≢◌, inl, inr, refl, sym, ◌∙◌, ap, Bool, true, false, Option, some, String, arith,
  text_key, number_key, Bool-cases, Option-cases, ==_refl, ℤ,
}
use dingzi.Base.Table.{lookup, lookup-insert}
use dingzi.Fleet.{Hub, Machine, MachineView, Sample, get, rename, set_traffic, change}
use dingzi.Fleet.Coherence.{IsCoherent, get-change, change-IsCoherent}
use dingzi.Fleet.Reports.{view, view_of}
use dingzi.Store.{ServerRow, affect_one}
use dingzi.Server.{Server}
use dingzi.Server.Admin.{
  Plan, PatchBody, ok, plan_patch, patch_row, patch_traffic, write_patch, handle_patch_server,
  path_id,
}
use dingzi.Server.Patched.{Patched, plan-Patched}
use dingzi.Server.Plans.{plan_patch-Planned}

module _ {Float : Type 0} where
  patched_hub :
      (id : ℕ) (plan : Plan) (m : Machine Float) (h : Hub Float)
      → IsCoherent h
      → get id h ≡ some m
      → get id (set_traffic id (patch_traffic plan) (rename id plan.name h).0).0
        ≡ some (record m { name = plan.name; traffic = patch_traffic plan m.traffic })
  unfolding set_traffic rename
  patched_hub id plan m h c e =
      let named = λ (x : Machine Float). record x { name = plan.name } in
      let c' = change-IsCoherent id named h (λ x. (refl, refl)) c in
      rw
        (
          get-change id id (λ x. record x { traffic = patch_traffic plan x.traffic })
              (change id named h) c',
          get-change id id named h c,
          ==_refl id,
          e,
        )
        refl

  write_patch-ok :
      (id : ℕ) (plan : Plan) (works : Bool) (m : Machine Float) (s : Server Float)
      → IsCoherent s.hub
      → get id s.hub ≡ some m
      → (write_patch id plan works s).1 ≡ ok
      → (row : ServerRow) × (lookup id s.db.servers ≡ some row)
        × (lookup id (write_patch id plan works s).0.db.servers ≡ some (patch_row plan row))
        × (get id (write_patch id plan works s).0.hub
            ≡ some (record m { name = plan.name; traffic = patch_traffic plan m.traffic }))
  unfolding write_patch affect_one
  write_patch-ok id plan false m s c h e = absurd (ground (arith, e))
  write_patch-ok id plan true m s c h e = elim (Option-cases (lookup id s.db.servers)) [
    | inl f ↦ absurd (ground (arith, (rw (write_patch, affect_one, f) at e)))
    | inr (row, f) ↦ (
      row,
      f,
      rw (write_patch, affect_one, f)
          (lookup-insert id id (patch_row plan row) s.db.servers ∙ rw (==_refl id) refl),
      rw (write_patch, affect_one, f) (patched_hub id plan m s.hub c h),
    )
  ]

  write_patch_other :
      (id : ℕ) (plan : Plan) (works : Bool) (s : Server Float)
      → (write_patch id plan works s).1 ≢ ok
      → (write_patch id plan works s).0 ≡ s
  unfolding write_patch
  write_patch_other id plan false s n = refl
  write_patch_other id plan true s n = elim (Bool-cases (affect_one id (patch_row plan) s.db).1) [
    | inl found ↦ absurd (n (rw (write_patch, found) refl))
    | inr absent ↦ rw (write_patch, absent) refl
  ]

  view_machine :
      (blank : Sample Float) (id now : ℕ) (v : MachineView Float) (h : Hub Float)
      → view blank id now h ≡ some v
      → (m : Machine Float) × (get id h ≡ some m)
        × (v.machine.name ≡ m.name)
        × (v.machine.traffic ≡ m.traffic)
  unfolding view view_of
  view_machine blank id now v h e = elim (Option-cases (get id h)) [
    | inl f ↦ absurd (ground (arith, (rw (view, f) at e)))
    | inr (m, f) ↦
        let same : view_of blank h.sample_timeout now m ≡ v = ground (arith, (rw (view, f) at e)) in
        (
          m,
          f,
          ap (λ (x : MachineView Float). x.machine.name) (sym same),
          ap (λ (x : MachineView Float). x.machine.traffic) (sym same),
        )
  ]

  -- The panel before and after a patch that was answered with success.
  pub record Accepted (runes : String → ℕ) (trim_space : String → String) (body : Option PatchBody)
      (id now : ℕ) (s after : Server Float) : Type 0 where
    pub asked : PatchBody
    pub decoded : body ≡ some asked
    pub machine : Machine Float
    pub machine' : Machine Float
    pub row : ServerRow
    pub row' : ServerRow
    pub known : get id s.hub ≡ some machine
    pub held : get id after.hub ≡ some machine'
    pub stored : lookup id s.db.servers ≡ some row
    pub written : lookup id after.db.servers ≡ some row'
    pub patched : Patched runes trim_space asked now machine machine' row row'

  -- In a coherent hub: a patch that is answered with success names a machine that the panel knows, in
  -- memory and in its table, and asks for nothing out of bounds (a trimmed name of 1 to 64 runes, a
  -- quota that fits int64, a day from 1 to 31, one of the three modes). In memory the machine then has
  -- what the body asks for, and what it had where the body asks for nothing; when its day changed, a
  -- new cycle with empty counts, else its cycle and its counts. Its row has the same name, quota,
  -- mode, day and cycle, its counts emptied or kept alike; the rest of both is unchanged. Any other
  -- answer leaves the panel as it was.
  pub handle_patch_server_lem :
      (runes : String → ℕ) (trim_space : String → String) (blank : Sample Float)
      (parse_int : String → Option ℤ) (text : String) (body : Option PatchBody) (now : ℕ)
      (works : Bool) (s : Server Float)
      → IsCoherent s.hub
      → let (after, reply) =
          handle_patch_server runes trim_space blank parse_int text body now works s in
        (reply ≡ ok
          → (id : ℕ) × (path_id parse_int text ≡ some id)
            × Accepted runes trim_space body id now s after)
        × (reply ≢ ok → after ≡ s)
  unfolding handle_patch_server
  handle_patch_server_lem runes trim_space blank parse_int text body now works s c =
      elim (Option-cases (path_id parse_int text)) [
        | inl e ↦ (
          λ h. absurd (ground (arith, (rw (handle_patch_server, e) at h))),
          λ n. rw (handle_patch_server, e) refl,
        )
        | inr (id, e) ↦ elim (Option-cases body) [
          | inl f ↦ (
            λ h. absurd (ground (arith, (rw (handle_patch_server, e, f) at h))),
            λ n. rw (handle_patch_server, e, f) refl,
          )
          | inr (b, f) ↦ elim (Option-cases (view blank id now s.hub)) [
            | inl g ↦ (
              λ h. absurd (ground (arith, (rw (handle_patch_server, e, f, g) at h))),
              λ n. rw (handle_patch_server, e, f, g) refl,
            )
            | inr (v, g) ↦
                elim (Option-cases
                  (plan_patch runes trim_space b now v.machine.name v.machine.traffic)) [
                    | inl k ↦ (
                      λ h. absurd (ground (arith, (rw (handle_patch_server, e, f, g, k) at h))),
                      λ n. rw (handle_patch_server, e, f, g, k) refl,
                    )
                    | inr (plan, k) ↦
                        let (m, known, same_name, same) = view_machine blank id now v s.hub g in
                        (
                          λ h.
                              let wrote : (write_patch id plan works s).1 ≡ ok =
                                rw (handle_patch_server, e, f, g, k) at h in
                              let (row, stored, written, held) =
                                write_patch-ok id plan works m s c known wrote in
                              let planned =
                                rw (same_name, same) at
                                  (plan_patch-Planned runes trim_space b now v.machine.name
                                    v.machine.traffic plan k) in
                              (
                                id,
                                e,
                                record {
                                  asked = b;
                                  decoded = f;
                                  machine = m;
                                  machine' = record m {
                                    name = plan.name;
                                    traffic = patch_traffic plan m.traffic;
                                  };
                                  row = row;
                                  row' = patch_row plan row;
                                  known = known;
                                  held = rw (handle_patch_server, e, f, g, k) held;
                                  stored = stored;
                                  written = rw (handle_patch_server, e, f, g, k) written;
                                  patched = plan-Patched runes trim_space b now m row plan planned;
                                },
                              ),
                          λ n.
                              rw (handle_patch_server, e, f, g, k)
                                (write_patch_other id plan works s
                                  (λ o. n (rw (handle_patch_server, e, f, g, k) o))),
                        )
                  ]
          ]
        ]
      ]

-- ===== src/Server/Follow.antt =====
-- What the calls of the panel, and their histories, leave of a credential.
use dingzi.Base.{
  ℕ, ◌≡◌, ◌⊎◌, inl, inr, refl, ◌∙◌, Bool, true, false, Option, none, some, List, [], ◌∷◌, String,
  text_key, number_key, Bool-cases, Option-cases, ◌==◌,
}
use dingzi.Base.Table.{lookup}
use dingzi.Fleet.{set_host}
use dingzi.Fleet.Reports.{view}
use dingzi.Store.{Database, Credential, Hello, save_traffic, traffic_snapshot}
use dingzi.Server.{Server, register, persist_traffic, on_host_update}
use dingzi.Server.Agents.{
  AgentRequest, Frame, Works, token_of, auth_agent, bind_credential, admit_hello, serve_agent,
  handshake,
}
use dingzi.Server.Admin.{PatchBody, handle_patch_server, handle_delete_server, path_id, plan_patch}
use dingzi.Server.Events.{
  Event, arrives, leaves, deletes, patches, persists, host_updates, Library, serve, step, run,
}
use dingzi.Server.Credentials.{
  affect_credentials, save_credentials, Follows, bind-Follows, delete-Follows, register_credentials,
  write_patch_credentials,
}

module _ {Float : Type 0} (l : Library Float) where
  -- The database once the credential is bound.
  abbrev pub bound : AgentRequest → Hello → Works → Server Float → Database × Bool
  bound r hello w s = bind_credential l.codec hello.uuid (token_of l.codec r) w.binds w.rereads s.db

  pub admit_credentials :
      (r : AgentRequest) (hello : Hello) (conn now : ℕ) (w : Works) (s : Server Float)
      → (admit_hello l.codec l.marshal l.unmarshal l.short l.blank r hello conn now w
          s).0.db.credentials
        ≡ (bound r hello w s).0.credentials
  unfolding admit_hello
  admit_credentials r hello conn now w s = elim (Bool-cases (bound r hello w s).1) [
    | inr refused ↦ rw (admit_hello, refused) refl
    | inl agreed ↦
        let opened : Server Float = record s { db = (bound r hello w s).0 } in
        let kept =
          register_credentials l.marshal l.unmarshal l.short l.blank hello now w.registers w.reloads
            opened in
        elim (Option-cases
          (register l.marshal l.unmarshal l.short l.blank hello now w.registers w.reloads
            opened).1) [
              | inl lost ↦ rw (admit_hello, agreed, lost) kept
              | inr (id, known) ↦ elim (Bool-cases w.welcomes) [
                | inl sent ↦ rw (admit_hello, agreed, known, sent) kept
                | inr unsent ↦ rw (admit_hello, agreed, known, unsent) kept
              ]
            ]
  ]

  -- Refused before anything is written, or with the credential bound.
  pub serve-cases :
      (r : AgentRequest) (frame : Option Frame) (conn now : ℕ) (w : Works) (s : Server Float)
      → (serve l r frame conn now w s ≡ (s, none))
        ⊎ ((hello : Hello) × (auth_agent l.codec l.secret r w.reads s.db ≡ true)
            × (hello.uuid ≡ r.uuid)
            × (serve l r frame conn now w s
                ≡ admit_hello l.codec l.marshal l.unmarshal l.short l.blank r hello conn now w s))
  unfolding serve_agent
  serve-cases r frame conn now w s =
      elim (Bool-cases (auth_agent l.codec l.secret r w.reads s.db)) [
        | inr stranger ↦ inl (rw (serve_agent, stranger) refl)
        | inl known ↦ elim (Option-cases (handshake frame)) [
          | inl lost ↦ inl (rw (serve_agent, known, lost) refl)
          | inr (hello, e) ↦ elim (Bool-cases (hello.uuid == r.uuid)) [
            | inr other ↦ inl (rw (serve_agent, known, e, other) refl)
            | inl same ↦ inr (
              hello,
              known,
              (text_key.same_iff hello.uuid r.uuid).0 same,
              rw (serve_agent, known, e, same) refl,
            )
          ]
        ]
      ]

  serve-Follows :
      (u : String) (held : Credential) (r : AgentRequest) (frame : Option Frame) (conn now : ℕ)
      (w : Works) (s : Server Float)
      → lookup u s.db.credentials ≡ some held
      → lookup u (serve l r frame conn now w s).0.db.credentials ≡ some held
  serve-Follows u held r frame conn now w s h = elim (serve-cases r frame conn now w s) [
    | inl refused ↦ rw refused h
    | inr (hello, _, _, admitted) ↦
        rw (admitted, admit_credentials r hello conn now w s)
          (bind-Follows l.codec u hello.uuid (token_of l.codec r) held w.binds w.rereads s.db h)
  ]

  patch_credentials :
      (text : String) (body : Option PatchBody) (now : ℕ) (works : Bool) (s : Server Float)
      → (handle_patch_server l.runes l.trim_space l.blank l.parse_int text body now works
          s).0.db.credentials
        ≡ s.db.credentials
  unfolding handle_patch_server
  patch_credentials text body now works s = elim (Option-cases (path_id l.parse_int text)) [
    | inl e ↦ rw (e, handle_patch_server) refl
    | inr (id, e) ↦ elim (Option-cases body) [
      | inl f ↦ rw (e, handle_patch_server, f) refl
      | inr (b, f) ↦ elim (Option-cases (view l.blank id now s.hub)) [
        | inl g ↦ rw (e, handle_patch_server, f, g) refl
        | inr (v, g) ↦
            elim (Option-cases
              (plan_patch l.runes l.trim_space b now v.machine.name v.machine.traffic)) [
                | inl k ↦ rw (e, handle_patch_server, f, g, k) refl
                | inr (plan, k) ↦
                    rw (e, handle_patch_server, f, g, k) (write_patch_credentials id plan works s)
              ]
      ]
    ]
  ]

  delete_server-Follows :
      (u : String) (held : Credential) (text : String) (works : Bool) (s : Server Float)
      → lookup u s.db.credentials ≡ some held
      → Follows held (lookup u (handle_delete_server l.parse_int text works s).0.db.credentials)
  unfolding handle_delete_server
  delete_server-Follows u held text works s h = elim (Option-cases (path_id l.parse_int text)) [
    | inl e ↦ rw (e, handle_delete_server) (held, h, refl, λ r. r)
    | inr (id, e) ↦ elim (Bool-cases works) [
      | inr fails ↦ rw (e, handle_delete_server, fails) (held, h, refl, λ r. r)
      | inl fine ↦ elim (Option-cases (lookup id s.db.servers)) [
        | inl f ↦ rw (e, handle_delete_server, fine, f) (held, h, refl, λ r. r)
        | inr (row, f) ↦
            rw (e, handle_delete_server, fine, f) (delete-Follows u id works held s.db h)
      ]
    ]
  ]

  step-Follows :
      (u : String) (held : Credential) (s : Server Float) (e : Event)
      → lookup u s.db.credentials ≡ some held
      → Follows held (lookup u (step l s e).db.credentials)
  unfolding step persist_traffic save_traffic on_host_update
  step-Follows u held s (arrives r frame conn now w) h =
      (held, serve-Follows u held r frame conn now w s h, refl, λ r. r)
  step-Follows u held s (leaves id conn) h = (held, h, refl, λ r. r)
  step-Follows u held s (deletes text works) h = delete_server-Follows u held text works s h
  step-Follows u held s (patches text body now works) h =
      rw (patch_credentials text body now works s) (held, h, refl, λ r. r)
  step-Follows u held s (persists false) h = (held, h, refl, λ r. r)
  step-Follows u held s (persists true) h =
      rw (save_credentials (traffic_snapshot s.hub) s.db) (held, h, refl, λ r. r)
  step-Follows u held s (host_updates id host works) h =
      elim (Bool-cases (set_host id host s.hub).1) [
        | inr unknown ↦ rw (on_host_update, unknown) (held, h, refl, λ r. r)
        | inl known ↦ elim (Bool-cases works) [
          | inr bad ↦ rw (on_host_update, known, bad) (held, h, refl, λ r. r)
          | inl good ↦
              rw (on_host_update, known, good, affect_credentials id _ s.db) (held, h, refl, λ r. r)
        ]
      ]

  pub run-Follows :
      (u : String) (held : Credential) (s : Server Float) (events : List Event)
      → lookup u s.db.credentials ≡ some held
      → Follows held (lookup u (run l s events).db.credentials)
  unfolding run
  run-Follows u held s [] h = (held, h, refl, λ r. r)
  run-Follows u held s (e ∷ events) h =
      let (mid, at_, same, stays) = step-Follows u held s e h in
      let (new, found, same', stays') = run-Follows u mid (step l s e) events at_ in
      (new, found, same' ∙ same, λ r. stays' (stays r))

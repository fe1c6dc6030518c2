-- ===== src/Server/Revoked.antt =====
-- An agent whose machine was deleted stays out, and a bound credential cannot be replaced.
use dingzi.Base.{
  ℕ, ◌≡◌, ◌⊎◌, inl, inr, refl, sym, ◌∙◌, Bool, true, false, Option, none, some, List, String, arith,
  text_key, number_key, Bool-cases, Option-cases, ==_refl,
}
use dingzi.Base.Table.{lookup, lookup-insert}
use dingzi.Store.{Database, Credential, Hello, ServerRow, delete_machine}
use dingzi.Server.{Server}
use dingzi.Server.Agents.{
  Codec, AgentRequest, Frame, Works, credential_hash, token_of, is_held_by, auth_agent,
  insert_credential, bind_credential, admit_hello,
}
use dingzi.Server.Admin.{handle_delete_server, path_id, ok}
use dingzi.Server.Events.{Event, Library, serve, run}
use dingzi.Server.Follow.{run-Follows, serve-cases, bound, admit_credentials}

-- An agent is refused when its credential is there but revoked or not the one it shows.
refused_by :
    (c : Codec) (secret : String) (held : Credential) (r : AgentRequest) (reads : Bool)
    (db : Database)
    → lookup r.uuid db.credentials ≡ some held
    → is_held_by c (token_of c r) held ≡ false
    → auth_agent c secret r reads db ≡ false
unfolding auth_agent
refused_by c secret held r reads db h stranger = ground (arith, h, stranger)

delete_failed : (id : ℕ) (db : Database) → (delete_machine id false db).1 ≡ false
unfolding delete_machine
delete_failed id db = ground arith

delete_revoked :
    (id : ℕ) (row : ServerRow) (db : Database)
    → lookup id db.servers ≡ some row
    → ((delete_machine id true db).1 ≡ true)
      × ((held : Credential) × (lookup row.uuid (delete_machine id true db).0.credentials
            ≡ some held)
          × (held.revoked ≡ true))
unfolding delete_machine
delete_revoked id row db f =
    (rw (delete_machine, f) refl, go (Option-cases (lookup row.uuid db.credentials)))
  where
    go :
        (lookup row.uuid db.credentials ≡ none)
          ⊎ ((held : Credential) × (lookup row.uuid db.credentials ≡ some held))
        → (held : Credential) × (lookup row.uuid (delete_machine id true db).0.credentials
            ≡ some held)
          × (held.revoked ≡ true)
    go (inl k) = (
      record { token_hash = ""; revoked = true },
      rw (delete_machine, f, lookup-insert row.uuid row.uuid _ db.credentials, ==_refl row.uuid, k)
          refl,
      refl,
    )
    go (inr (held, k)) = (
      record held { revoked = true },
      rw (delete_machine, f, lookup-insert row.uuid row.uuid _ db.credentials, ==_refl row.uuid, k)
          refl,
      refl,
    )

bind_held :
    (c : Codec) (uuid token : String) (inserts reads : Bool) (db : Database)
    → (bind_credential c uuid token inserts reads db).1 ≡ true
    → (held : Credential) × (lookup uuid
          (bind_credential c uuid token inserts reads db).0.credentials
        ≡ some held)
      × (is_held_by c token held ≡ true)
unfolding bind_credential
bind_held c uuid token false reads db h = absurd (ground (arith, h))
bind_held c uuid token true false db h = absurd (ground (arith, h))
bind_held c uuid token true true db h =
    elim (Option-cases (lookup uuid (insert_credential c uuid token db).credentials)) [
      | inl e ↦ absurd (ground (arith, (rw (bind_credential, e) at h)))
      | inr (held, e) ↦ (held, rw (bind_credential, e) e, (rw (bind_credential, e) at h))
    ]

module _ {Float : Type 0} (l : Library Float) where
  admit_bound :
      (r : AgentRequest) (hello : Hello) (conn now id : ℕ) (w : Works) (s : Server Float)
      → (admit_hello l.codec l.marshal l.unmarshal l.short l.blank r hello conn now w s).1 ≡ some id
      → (bound l r hello w s).1 ≡ true
  unfolding admit_hello
  admit_bound r hello conn now id w s h = elim (Bool-cases (bound l r hello w s).1) [
    | inl agreed ↦ agreed
    | inr refused ↦ absurd (ground (arith, (rw (admit_hello, refused) at h)))
  ]

  -- What an admission leaves under the uuid of the request.
  serve_held :
      (r : AgentRequest) (frame : Option Frame) (conn now id : ℕ) (w : Works) (s : Server Float)
      → (serve l r frame conn now w s).1 ≡ some id
      → (held : Credential) × (lookup r.uuid (serve l r frame conn now w s).0.db.credentials
          ≡ some held)
        × (held.token_hash ≡ credential_hash l.codec (token_of l.codec r))
  serve_held r frame conn now id w s h = elim (serve-cases l r frame conn now w s) [
    | inl refused ↦ absurd (ground (arith, (rw refused at h)))
    | inr (hello, _, same, admitted) ↦
        let token = token_of l.codec r in
        let agreed = admit_bound r hello conn now id w s (rw admitted at h) in
        let (held, found, own) = bind_held l.codec hello.uuid token w.binds w.rereads s.db agreed in
        (
          held,
          rw (admitted, admit_credentials l r hello conn now w s, sym same) found,
          ground (arith, own, text_key.same_iff held.token_hash (credential_hash l.codec token)),
        )
  ]

  serve_refused :
      (held : Credential) (r : AgentRequest) (frame : Option Frame) (conn now : ℕ) (w : Works)
      (s : Server Float)
      → lookup r.uuid s.db.credentials ≡ some held
      → is_held_by l.codec (token_of l.codec r) held ≡ false
      → serve l r frame conn now w s ≡ (s, none)
  serve_refused held r frame conn now w s h n = elim (serve-cases l r frame conn now w s) [
    | inl refused ↦ refused
    | inr (hello, known, _, _) ↦
        absurd (ground (arith, known, refused_by l.codec l.secret held r w.reads s.db h n))
  ]

  deleted_revoked :
      (text : String) (works : Bool) (id : ℕ) (row : ServerRow) (s : Server Float)
      → path_id l.parse_int text ≡ some id
      → lookup id s.db.servers ≡ some row
      → (handle_delete_server l.parse_int text works s).1 ≡ ok
      → (held : Credential) × (lookup row.uuid
            (handle_delete_server l.parse_int text works s).0.db.credentials
          ≡ some held)
        × (held.revoked ≡ true)
  unfolding handle_delete_server
  deleted_revoked text false id row s e f h =
      absurd (ground (arith, (rw (handle_delete_server, e) at h)))
  deleted_revoked text true id row s e f h =
      let (_, (held, found, dead)) = delete_revoked id row s.db f in
      (held, rw (handle_delete_server, e, f) found, dead)

  -- Once a machine is deleted, an agent that shows its uuid is turned away at every later moment,
  -- whatever key or credential it shows and whatever calls came between, and the panel stays as it is.
  pub deleted_for_good :
      (text : String) (works : Bool) (id : ℕ) (row : ServerRow) (s : Server Float)
      (events : List Event) (r : AgentRequest) (frame : Option Frame) (conn now : ℕ) (w : Works)
      → path_id l.parse_int text ≡ some id
      → lookup id s.db.servers ≡ some row
      → (handle_delete_server l.parse_int text works s).1 ≡ ok
      → r.uuid ≡ row.uuid
      → let later = run l (handle_delete_server l.parse_int text works s).0 events in
        serve l r frame conn now w later ≡ (later, none)
  deleted_for_good text works id row s events r frame conn now w e f h same =
      let (held, at_, gone) = deleted_revoked text works id row s e f h in
      let after = (handle_delete_server l.parse_int text works s).0 in
      let (new, found, _, stays) = run-Follows l row.uuid held after events at_ in
      serve_refused new r frame conn now w (run l after events) (rw same found)
        (rw (stays gone) refl)

  -- Once an agent has been admitted, only a token of the same digest is admitted under its uuid at any
  -- later moment: the shared key does not replace a credential.
  pub bound_for_good :
      (r again : AgentRequest) (frame after : Option Frame) (conn conn' now later id id' : ℕ)
      (w w' : Works) (s : Server Float) (events : List Event)
      → (serve l r frame conn now w s).1 ≡ some id
      → again.uuid ≡ r.uuid
      → (serve l again after conn' later w' (run l (serve l r frame conn now w s).0 events)).1
        ≡ some id'
      → credential_hash l.codec (token_of l.codec again)
        ≡ credential_hash l.codec (token_of l.codec r)
  bound_for_good r again frame after conn conn' now later id id' w w' s events h same h' =
      let (held, found, is) = serve_held r frame conn now id w s h in
      let before = (serve l r frame conn now w s).0 in
      let (new, there, same_hash, _) = run-Follows l r.uuid held before events found in
      let token = token_of l.codec again in
      elim (Bool-cases (is_held_by l.codec token new)) [
        | inr stranger ↦
            let out =
              serve_refused new again after conn' later w' (run l before events) (rw same there)
                stranger in
            absurd (ground (arith, (rw out at h')))
        | inl own ↦
            sym (
              ground (arith, own, text_key.same_iff new.token_hash (credential_hash l.codec token)))
            ∙ same_hash
            ∙ is
      ]

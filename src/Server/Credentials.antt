-- ===== src/Server/Credentials.antt =====
-- What the parts of each call leave of a credential.
use dingzi.Base.{
  ℤ, ℕ, ◌≡◌, inl, inr, refl, ◌∙◌, Bool, true, false, Option, some, [], ◌∷◌, String, arith, text_key,
  number_key, Bool-cases, Option-cases, ◌==◌,
}
use dingzi.Base.Table.{Table, lookup, lookup-insert}
use dingzi.Fleet.{Host, Sample}
use dingzi.Store.{
  unix, Database, Credential, Hello, ServerRow, row_by_uuid, TrafficSnapshot, affect_one, upsert,
  delete_machine, save_each,
}
use dingzi.Server.{Server, register}
use dingzi.Server.Agents.{Codec, credential_hash, insert_credential, bind_credential}
use dingzi.Server.Admin.{write_patch, patch_row, Plan}

pub affect_credentials :
    (id : ℕ) (set_ : ServerRow → ServerRow) (db : Database)
    → (affect_one id set_ db).0.credentials ≡ db.credentials
unfolding affect_one
affect_credentials id set_ db = ground arith

pub save_credentials :
    (snap : Table ℕ TrafficSnapshot) (db : Database)
    → (save_each snap db).credentials ≡ db.credentials
unfolding save_each
save_credentials [] db = refl
save_credentials ((id, t) ∷ snap) db = save_credentials snap _ ∙ affect_credentials id _ db

-- What a credential may become: the same, or the same revoked.
abbrev pub Follows : Credential → Option Credential → Type 0
Follows held o =
    (new : Credential) × (o ≡ some new)
    × (new.token_hash ≡ held.token_hash)
    × (held.revoked ≡ true → new.revoked ≡ true)

pub insert_credential-Follows :
    (c : Codec) (u uuid token : String) (held : Credential) (db : Database)
    → lookup u db.credentials ≡ some held
    → lookup u (insert_credential c uuid token db).credentials ≡ some held
unfolding insert_credential
insert_credential-Follows c u uuid token held db h =
    elim (Option-cases (lookup uuid db.credentials)) [
      | inr (other, e) ↦ rw (e, insert_credential) h
      | inl e ↦
          let new : Credential = record { token_hash = credential_hash c token; revoked = false } in
          rw (e, insert_credential)
            (ground
              (arith, h, e, text_key.same_iff uuid u, lookup-insert u uuid new db.credentials))
    ]

pub bind-Follows :
    (c : Codec) (u uuid token : String) (held : Credential) (inserts reads : Bool) (db : Database)
    → lookup u db.credentials ≡ some held
    → lookup u (bind_credential c uuid token inserts reads db).0.credentials ≡ some held
unfolding bind_credential
bind-Follows c u uuid token held true true db h =
    let kept = insert_credential-Follows c u uuid token held db h in
    elim (Option-cases (lookup uuid (insert_credential c uuid token db).credentials)) [
      | inl e ↦ rw (bind_credential, e) kept
      | inr (other, e) ↦ rw (bind_credential, e) kept
    ]
bind-Follows c u uuid token held true false db h =
    insert_credential-Follows c u uuid token held db h
bind-Follows c u uuid token held false reads db h = h

pub delete-Follows :
    (u : String) (id : ℕ) (works : Bool) (held : Credential) (db : Database)
    → lookup u db.credentials ≡ some held
    → Follows held (lookup u (delete_machine id works db).0.credentials)
unfolding delete_machine
delete-Follows u id works held db h = elim (Option-cases (lookup id db.servers)) [
  | inl e ↦ rw (e, delete_machine) same
  | inr (row, e) ↦ elim (Bool-cases works) [
    | inr bad ↦ rw (e, delete_machine, bad) same
    | inl good ↦ elim (Bool-cases (row.uuid == u)) [
      | inr other ↦
          rw (e, delete_machine, good, lookup-insert u row.uuid _ db.credentials, other) same
      | inl own ↦
          let at_ : lookup row.uuid db.credentials ≡ some held =
            rw ((text_key.same_iff row.uuid u).0 own) h in
          rw (e, delete_machine, good, lookup-insert u row.uuid _ db.credentials, own, at_)
            (record held { revoked = true }, refl, refl, λ r. refl)
    ]
  ]
]
  where
    same : Follows held (lookup u db.credentials)
    same = (held, h, refl, λ r. r)

pub upsert_credentials :
    (marshal : Host → String) (short : String → String) (hello : Hello) (sec : ℤ) (db : Database)
    → (upsert marshal short hello sec db).0.credentials ≡ db.credentials
unfolding upsert
upsert_credentials marshal short hello sec db =
    elim (Option-cases (row_by_uuid hello.uuid db.servers)) [
      | inl e ↦ rw (e, upsert) refl
      | inr ((id, row), e) ↦ rw (e, upsert) refl
    ]

pub register_credentials :
    {Float : Type 0} (marshal : Host → String) (unmarshal : String → Host) (short : String → String)
    (blank : Sample Float) (hello : Hello) (now : ℕ) (works rereads : Bool) (s : Server Float)
    → (register marshal unmarshal short blank hello now works rereads s).0.db.credentials
      ≡ s.db.credentials
unfolding register
register_credentials marshal unmarshal short blank hello now false rereads s = refl
register_credentials marshal unmarshal short blank hello now true false s =
    upsert_credentials marshal short hello (unix now) s.db
register_credentials marshal unmarshal short blank hello now true true s =
    let kept = upsert_credentials marshal short hello (unix now) s.db in
    elim (Option-cases
      (row_by_uuid hello.uuid (upsert marshal short hello (unix now) s.db).0.servers)) [
        | inl e ↦ rw (register, e) kept
        | inr ((id, row), e) ↦ rw (register, e) kept
      ]

pub write_patch_credentials :
    {Float : Type 0} (id : ℕ) (plan : Plan) (works : Bool) (s : Server Float)
    → (write_patch id plan works s).0.db.credentials ≡ s.db.credentials
unfolding write_patch
write_patch_credentials id plan false s = refl
write_patch_credentials id plan true s = elim (Bool-cases (affect_one id (patch_row plan) s.db).1) [
  | inl found ↦ rw (write_patch, found) (affect_credentials id (patch_row plan) s.db)
  | inr absent ↦ rw (write_patch, absent) refl
]

-- ===== src/Store/History.antt =====
-- One row for each machine, whatever calls are made.
use dingzi.Base.{
  ℤ, ℕ, ◌≡◌, inl, inr, refl, [], ◌∷◌, String, text_key, number_key, Bool, true, false, Option-cases,
}
use dingzi.Base.Table.{Table, lookup}
use dingzi.Fleet.{Host}
use dingzi.Store.{
  Database, ServerRow, TrafficSnapshot, Hello, affect_one, upsert, delete_machine, save_each,
  save_traffic, save_row,
}
use dingzi.Store.Rows.{
  IsKeyed, empty, empty-IsKeyed, replace-IsKeyed, delete-IsKeyed, upsert-IsKeyed,
}

-- The calls that write the table of machines; `set_` stands for the columns that the panel's own
-- handlers write, which leave the uuid.
pub data Call : Type 0 where
  registers : Hello → ℤ → Call
  deletes : ℕ → Bool → Call
  saves : Table ℕ TrafficSnapshot → Bool → Call
  updates :
      ℕ → (set_ : ServerRow → ServerRow) → ((row : ServerRow) → (set_ row).uuid ≡ row.uuid) → Call

affect-IsKeyed :
    (id : ℕ) (set_ : ServerRow → ServerRow) (db : Database)
    → ((row : ServerRow) → (set_ row).uuid ≡ row.uuid)
    → IsKeyed db
    → IsKeyed (affect_one id set_ db).0
unfolding affect_one
affect-IsKeyed id set_ db keeps v = elim (Option-cases (lookup id db.servers)) [
  | inl e ↦ rw (e, affect_one) v
  | inr (row, e) ↦ rw (e, affect_one) (replace-IsKeyed id row (set_ row) db e (keeps row) v)
]

save-IsKeyed :
    (snap : Table ℕ TrafficSnapshot) (db : Database) → IsKeyed db → IsKeyed (save_each snap db)
unfolding save_each
save-IsKeyed [] db v = v
save-IsKeyed ((id, t) ∷ snap) db v =
    save-IsKeyed snap (affect_one id (save_row t) db).0
      (affect-IsKeyed id (save_row t) db (λ row. refl) v)

module _ (marshal : Host → String) (short : String → String) where
  unfoldable pub step : Database → Call → Database
  step db (registers hello sec) = (upsert marshal short hello sec db).0
  step db (deletes id works) = (delete_machine id works db).0
  step db (saves snap works) = save_traffic snap works db
  step db (updates id set_ keeps) = (affect_one id set_ db).0

  pub data Reachable : Database → Type 0 where
    start : Reachable empty
    next : {db : Database} → Reachable db → (c : Call) → Reachable (step db c)

  -- After any calls each id and each uuid has one row at most, and the ids are below the next.
  pub Reachable-IsKeyed : {db : Database} → Reachable db → IsKeyed db
  unfolding step save_traffic
  Reachable-IsKeyed start = empty-IsKeyed
  Reachable-IsKeyed (next {db = db} r (registers hello sec)) =
      upsert-IsKeyed marshal short hello sec db (Reachable-IsKeyed r)
  Reachable-IsKeyed (next {db = db} r (deletes id works)) =
      delete-IsKeyed id works db (Reachable-IsKeyed r)
  Reachable-IsKeyed (next {db = db} r (saves snap true)) =
      save-IsKeyed snap db (Reachable-IsKeyed r)
  Reachable-IsKeyed (next r (saves snap false)) = Reachable-IsKeyed r
  Reachable-IsKeyed (next {db = db} r (updates id set_ keeps)) =
      affect-IsKeyed id set_ db keeps (Reachable-IsKeyed r)

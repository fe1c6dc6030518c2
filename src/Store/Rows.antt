-- ===== src/Store/Rows.antt =====
-- What each call leaves of the keys of the table of machines.
use dingzi.Base.{
  ℕ, ◌+◌, ◌<◌, ◌≡◌, sym, ap, ◌∙◌, ◌≢◌, ◌⊎◌, inl, inr, refl, none, some, [], ◌∷◌, String, arith,
  text_key, number_key, ℤ, Bool, Bool-cases, Option-cases, ◌==◌,
}
use dingzi.Base.Table.{
  Table, lookup, erase, insert, IsUnique, lookup-erase, erase-IsUnique, insert-IsUnique,
}
use dingzi.Fleet.{Host}
use dingzi.Store.{Database, ServerRow, Hello, row_by_uuid, upsert, delete_machine, new_row}

pub record IsKeyed (db : Database) : Type 0 where
  pub unique : IsUnique db.servers
  pub fresh : (id : ℕ) (row : ServerRow) → lookup id db.servers ≡ some row → id < db.next_id
  pub uuids :
      (i j : ℕ) (a b : ServerRow)
      → lookup i db.servers ≡ some a
      → lookup j db.servers ≡ some b
      → a.uuid ≡ b.uuid
      → i ≡ j

unfoldable pub empty : Database
empty = record { servers = []; next_id = 1; credentials = [] }

pub empty-IsKeyed : IsKeyed empty
unfolding empty
empty-IsKeyed = record {
  unique = tt;
  fresh = λ id row h. absurd (ground (arith, h));
  uuids = λ i j a b h k e. absurd (ground (arith, h));
}

replaced_from :
    (id k : ℕ) (old new a : ServerRow) (t : Table ℕ ServerRow)
    → lookup id t ≡ some old
    → new.uuid ≡ old.uuid
    → lookup k (insert id new t) ≡ some a
    → (b : ServerRow) × (lookup k t ≡ some b) × (a.uuid ≡ b.uuid)
replaced_from id k old new a t h same e = elim (Bool-cases (id == k)) [
  | inl here ↦
      let k_id = number_key.same_iff id k in
      let is_new : new ≡ a = ground (arith, e, here) in
      (old, ground (arith, h, k_id, here), sym (ap ServerRow.uuid is_new) ∙ same)
  | inr there ↦ (a, ground (arith, e, there, lookup-erase k id t), refl)
]

-- A row is replaced by one of the same uuid.
pub replace-IsKeyed :
    (id : ℕ) (old new : ServerRow) (db : Database)
    → lookup id db.servers ≡ some old
    → new.uuid ≡ old.uuid
    → IsKeyed db
    → IsKeyed (record db { servers = insert id new db.servers })
replace-IsKeyed id old new db h same v = record {
  unique = insert-IsUnique id new db.servers v.unique;
  fresh = λ k a e.
      let (b, there, _) = replaced_from id k old new a db.servers h same e in v.fresh k b there;
  uuids = λ i j a b e f u.
      let (a', at_i, same_a) = replaced_from id i old new a db.servers h same e in
      let (b', at_j, same_b) = replaced_from id j old new b db.servers h same f in
      v.uuids i j a' b' at_i at_j (sym same_a ∙ u ∙ same_b);
}

pub row_by_uuid_found :
    (u : String) (id : ℕ) (row : ServerRow) (t : Table ℕ ServerRow)
    → IsUnique t
    → row_by_uuid u t ≡ some (id, row)
    → (lookup id t ≡ some row) × (row.uuid ≡ u)
unfolding row_by_uuid
row_by_uuid_found u id row [] n h = absurd (ground (arith, h))
row_by_uuid_found u id row ((j, r) ∷ t) n h = elim (Bool-cases (r.uuid == u)) [
  | inl here ↦
      let at_ : j ≡ id = ground (arith, h, here) in
      let is : r ≡ row = ground (arith, h, here) in
      (
        ground (arith, number_key.same_iff j id, at_, is),
        ap ServerRow.uuid (sym is) ∙ (text_key.same_iff r.uuid u).0 here,
      )
  | inr there ↦
      let h' : row_by_uuid u t ≡ some (id, row) = ground (arith, h, there) in
      let (found, named) = row_by_uuid_found u id row t n.1 h' in
      (ground (arith, found, number_key.same_iff j id, n.0), named)
]

pub row_by_uuid_absent :
    (u : String) (id : ℕ) (row : ServerRow) (t : Table ℕ ServerRow)
    → row_by_uuid u t ≡ none
    → lookup id t ≡ some row
    → row.uuid ≢ u
unfolding row_by_uuid
row_by_uuid_absent u id row [] h k e = absurd (ground (arith, k))
row_by_uuid_absent u id row ((j, r) ∷ t) h k e = elim (Bool-cases (r.uuid == u)) [
  | inl here ↦ absurd (ground (arith, h, here))
  | inr there ↦
      let h' : row_by_uuid u t ≡ none = ground (arith, h, there) in
      elim (Bool-cases (j == id)) [
        | inl same ↦
            let is : r ≡ row = ground (arith, k, same) in
            absurd
              (ground (arith, there, (text_key.same_iff r.uuid u).1 (ap ServerRow.uuid is ∙ e)))
        | inr other ↦ row_by_uuid_absent u id row t h' (ground (arith, k, other)) e
      ]
]

pub delete-IsKeyed :
    (id : ℕ) (works : Bool) (db : Database) → IsKeyed db → IsKeyed (delete_machine id works db).0
unfolding delete_machine
delete-IsKeyed id works db v = elim (Option-cases (lookup id db.servers)) [
  | inl e ↦ rw (e, delete_machine) v
  | inr (row, e) ↦ elim (Bool-cases works) [
    | inr bad ↦ rw (e, delete_machine, bad) v
    | inl good ↦
        rw (e, delete_machine, good)
          (record {
            unique = erase-IsUnique id db.servers v.unique;
            fresh = λ k a h. v.fresh k a (kept k a h);
            uuids = λ i j a b h k u. v.uuids i j a b (kept i a h) (kept j b k) u;
          })
  ]
]
  where
    kept :
        (k : ℕ) (a : ServerRow)
        → lookup k (erase id db.servers) ≡ some a
        → lookup k db.servers ≡ some a
    kept k a h = ground (arith, h, lookup-erase k id db.servers)

inserted :
    (id k : ℕ) (new a : ServerRow) (t : Table ℕ ServerRow)
    → lookup k (insert id new t) ≡ some a
    → ((k ≡ id) × (a ≡ new)) ⊎ (lookup k t ≡ some a)
inserted id k new a t h = elim (Bool-cases (id == k)) [
  | inl here ↦ inl (ground (arith, number_key.same_iff id k, here), ground (arith, h, here))
  | inr there ↦ inr (ground (arith, h, there, lookup-erase k id t))
]

module _ (marshal : Host → String) (short : String → String) where
  insert-IsKeyed :
      (hello : Hello) (sec : ℤ) (db : Database)
      → row_by_uuid hello.uuid db.servers ≡ none
      → IsKeyed db
      → IsKeyed (record db {
        servers = insert db.next_id (new_row marshal short hello sec) db.servers;
        next_id = db.next_id + 1;
      })
  insert-IsKeyed hello sec db absent v = record {
    unique = insert-IsUnique db.next_id new db.servers v.unique;
    fresh = λ id a h. elim (inserted db.next_id id new a db.servers h) [
      | inl (at_, _) ↦ omega (arith, at_)
      | inr old ↦ omega (arith, v.fresh id a old)
    ];
    uuids = λ i j a b h k u. elim (inserted db.next_id i new a db.servers h) [
      | inl (at_i, is_a) ↦ elim (inserted db.next_id j new b db.servers k) [
        | inl (at_j, _) ↦ at_i ∙ sym at_j
        | inr old ↦ absurd (other j b old (sym u ∙ ap ServerRow.uuid is_a))
      ]
      | inr before ↦ elim (inserted db.next_id j new b db.servers k) [
        | inl (_, is_b) ↦ absurd (other i a before (u ∙ ap ServerRow.uuid is_b))
        | inr after ↦ v.uuids i j a b before after u
      ]
    ];
  }
    where
      new : ServerRow
      new = new_row marshal short hello sec

      other : (j : ℕ) (b : ServerRow) → lookup j db.servers ≡ some b → b.uuid ≢ hello.uuid
      other j b old = row_by_uuid_absent hello.uuid j b db.servers absent old

  pub upsert-IsKeyed :
      (hello : Hello) (sec : ℤ) (db : Database)
      → IsKeyed db
      → IsKeyed (upsert marshal short hello sec db).0
  unfolding upsert
  upsert-IsKeyed hello sec db v = elim (Option-cases (row_by_uuid hello.uuid db.servers)) [
    | inl absent ↦ rw (absent, upsert) (insert-IsKeyed hello sec db absent v)
    | inr ((id, row), e) ↦
        let (there, _) = row_by_uuid_found hello.uuid id row db.servers v.unique e in
        rw (e, upsert) (replace-IsKeyed id row _ db there refl v)
  ]

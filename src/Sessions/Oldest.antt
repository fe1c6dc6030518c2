-- ===== src/Sessions/Oldest.antt =====
-- The search of `issue` for the session to evict.
use dingzi.Base.{
  ℕ, ◌≤◌, ◌<◌, ◌≡◌, ◌≢◌, ◌⊎◌, inl, inr, refl, sym, ltb→lt, false, none, some, [], ◌∷◌, String,
  arith, ltb, text_key, ◌==◌, Bool-cases, ==_refl,
}
use dingzi.Base.Table.{Table, lookup, IsUnique}
use dingzi.Sessions.{LoginSession, oldest_from}

-- What the search for the session to evict returns: an entry of the table, or what it started with,
-- that expires no later than that and all the table.
record IsOldest (l : Table String LoginSession) (o : String) (e : ℕ) (r : String) : Type 0 where
  expiry : ℕ
  found :
      ((r ≡ o) × (expiry ≡ e))
      ⊎ ((session : LoginSession) × (lookup r l ≡ some session) × (session.expires ≡ expiry))
  le_start : expiry ≤ e
  le_all :
      (t : String) (session : LoginSession) → lookup t l ≡ some session → expiry ≤ session.expires

module _ (t : String) (session : LoginSession) (rest : Table String LoginSession)
    (u : IsUnique ((t, session) ∷ rest)) where
  -- An entry found further on is found in the longer table.
  lookup-later :
      (r : String) (x : LoginSession)
      → lookup r rest ≡ some x
      → lookup r ((t, session) ∷ rest) ≡ some x
  lookup-later r x h = ground (arith, text_key.same_iff t r)

  IsOldest-take :
      (o r : String) (e : ℕ)
      → session.expires < e
      → IsOldest rest t session.expires r
      → IsOldest ((t, session) ∷ rest) o e r
  IsOldest-take o r e lt w = record {
    expiry = w.expiry;
    found = elim w.found [
      | inl (same, x) ↦ inr (session, rw (same, ==_refl t), sym x)
      | inr (y, h, x) ↦ inr (y, lookup-later r y h, x)
    ];
    le_start = omega (arith, w.le_start);
    le_all = λ k y h. ground (arith, w.le_start, w.le_all k y, text_key.same_iff t k);
  }

  IsOldest-pass :
      (o r : String) (e : ℕ)
      → e ≤ session.expires
      → IsOldest rest o e r
      → IsOldest ((t, session) ∷ rest) o e r
  IsOldest-pass o r e le w = record {
    expiry = w.expiry;
    found = elim w.found [
      | inl (same, x) ↦ inl (same, x)
      | inr (y, h, x) ↦ inr (y, lookup-later r y h, x)
    ];
    le_start = w.le_start;
    le_all = λ k y h. ground (arith, w.le_start, w.le_all k y, text_key.same_iff t k);
  }

oldest_from-IsOldest :
    (l : Table String LoginSession) (o : String) (e : ℕ)
    → IsUnique l
    → lookup "" l ≡ none
    → o ≢ ""
    → IsOldest l o e (oldest_from l o e)
unfolding oldest_from
oldest_from-IsOldest [] o e u ne named_o = record {
  expiry = e;
  found = inl (refl, refl);
  le_start = omega arith;
  le_all = λ t session h. absurd (ground arith);
}
oldest_from-IsOldest ((t, session) ∷ rest) o e u ne named_o =
    let named : (o == "") ≡ false = ground (arith, text_key.same_iff o "") in
    let key : t ≢ "" = λ same. absurd (ground (arith, text_key.same_iff t "")) in
    let ne' : lookup "" rest ≡ none = ground (arith, text_key.same_iff t "") in
    elim (Bool-cases (ltb session.expires e)) [
      | inl lt ↦
          rw (named, lt, oldest_from)
            (IsOldest-take t session rest u o (oldest_from rest t session.expires) e (ltb→lt _ _ lt)
              (oldest_from-IsOldest rest t session.expires u.1 ne' key))
      | inr ge ↦
          rw (named, ge, oldest_from)
            (IsOldest-pass t session rest u o (oldest_from rest o e) e (ground arith)
              (oldest_from-IsOldest rest o e u.1 ne' named_o))
    ]

-- In a table with entries the search of `issue` finds one that expires no later than any other.
pub oldest_from_lem :
    (t : String) (first : LoginSession) (rest : Table String LoginSession)
    → let l = (t, first) ∷ rest in
      IsUnique l
      → lookup "" l ≡ none
      → (session : LoginSession) × (lookup (oldest_from l "" 0) l ≡ some session)
        × ((k : String) (other : LoginSession)
            → lookup k l ≡ some other
            → session.expires ≤ other.expires)
unfolding oldest_from
oldest_from_lem t first rest u ne =
    let key : t ≢ "" = λ same. absurd (ground (arith, text_key.same_iff t "")) in
    let ne' : lookup "" rest ≡ none = ground (arith, text_key.same_iff t "") in
    let w = oldest_from-IsOldest rest t first.expires u.1 ne' key in
    elim w.found [
      | inl (same, x) ↦ (
        first,
        rw (same, ==_refl t),
        λ k other h. ground (arith, w.le_all k other, text_key.same_iff t k),
      )
      | inr (y, h, x) ↦ (
        y,
        lookup-later t first rest u (oldest_from rest t first.expires) y h,
        λ k other g. ground (arith, w.le_start, w.le_all k other, text_key.same_iff t k),
      )
    ]

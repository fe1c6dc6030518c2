-- ===== src/Requests/Answers.antt =====
-- Answers go to the requests that want them, and no entry outlives its request.
use dingzi.Base.{
  ℕ, ◌+◌, ◌^◌, ◌≤◌, ◌<◌, ◌≡◌, ◌≢◌, inl, inr, refl, sym, ap, ◌∙◌, true, false, Bool-cases, none,
  some, Option-cases, String, arith, number_key, text_key, ◌==◌, ==_refl,
}
use dingzi.Base.Table.{lookup, erase, insert, lookup-erase}
use dingzi.Requests.{
  Envelope, Pending, AgentConn, new_agent_conn, offer, resolve, begin, give_up, receive, bump,
}

resolve_eq :
    (env : Envelope) (p : Pending) (c : AgentConn)
    → lookup env.id c.pending ≡ some p
    → lookup p.ch c.buffers ≡ none
    → env.id ≢ ""
    → p.want ≡ env.type
    → resolve env c
      ≡ record c { pending = erase env.id c.pending; buffers = insert p.ch env c.buffers }
unfolding resolve offer
resolve_eq env p c e empty named wanted =
    let named' : (env.id == "") ≡ false = ground (arith, text_key.same_iff env.id "") in
    let wanted' : (p.want == env.type) ≡ true = (text_key.same_iff p.want env.type).1 wanted in
    rw (named', e, resolve, wanted', empty) refl

resolve_absent :
    (env : Envelope) (c : AgentConn) → lookup env.id c.pending ≡ none → resolve env c ≡ c
unfolding resolve
resolve_absent env c e = elim (Bool-cases (env.id == "")) [
  | inl anonymous ↦ rw (anonymous, resolve) refl
  | inr named ↦ rw (named, e, resolve) refl
]

receive_eq :
    (n : ℕ) (env : Envelope) (c : AgentConn)
    → lookup n c.buffers ≡ some env
    → (receive n c).1 ≡ some env
unfolding receive
receive_eq n env c e = rw (e, receive) refl

module _ (text : ℕ → String) (text_inj : (j k : ℕ) → text j ≡ text k → j ≡ k) where
  pub record IsMatched (c : AgentConn) : Type 0 where
    pub pendings :
        (id : String) (p : Pending)
        → lookup id c.pending ≡ some p
        → (id ≡ text p.ch) × (lookup p.ch c.waiting ≡ some p.want) × (lookup p.ch c.buffers ≡ none)
    pub buffered :
        (n : ℕ) (env : Envelope)
        → lookup n c.buffers ≡ some env
        → (env.id ≡ text n)
          × (n ≤ c.next_id)
          × ((want : String) → lookup n c.waiting ≡ some want → env.type ≡ want)
    pub numbered : (n : ℕ) (want : String) → lookup n c.waiting ≡ some want → n ≤ c.next_id

  new-IsMatched : IsMatched new_agent_conn
  unfolding new_agent_conn
  new-IsMatched = record {
    pendings = λ id p h. absurd (ground arith);
    buffered = λ n env h. absurd (ground arith);
    numbered = λ n want h. absurd (ground arith);
  }

  resolve-IsMatched : (env : Envelope) (c : AgentConn) → IsMatched c → IsMatched (resolve env c)
  unfolding resolve offer
  resolve-IsMatched env c v = elim (Bool-cases (env.id == "")) [
    | inl anonymous ↦ rw (anonymous, resolve) v
    | inr named ↦ elim (Option-cases (lookup env.id c.pending)) [
      | inl e ↦ rw (named, e, resolve) v
      | inr (p, e) ↦
          let (is, held, empty) = v.pendings env.id p e in
          elim (Bool-cases (p.want == env.type)) [
            | inr other ↦ rw (named, e, resolve, other) v
            | inl wanted ↦
                rw (named, e, resolve, wanted, empty)
                  (record {
                    pendings = λ id q h.
                        let old =
                          v.pendings id q (ground (arith, lookup-erase id env.id c.pending)) in
                        let apart : (p.ch == q.ch) ≡ false = elim (Bool-cases (p.ch == q.ch)) [
                          | inr f ↦ f
                          | inl t ↦
                              let same_ch : p.ch ≡ q.ch = (number_key.same_iff p.ch q.ch).0 t in
                              let same_id : env.id ≡ id = is ∙ ap text same_ch ∙ sym old.0 in
                              absurd (
                                ground (
                                  arith,
                                  lookup-erase id env.id c.pending,
                                  text_key.same_iff env.id id,
                                ))
                        ] in
                        ground (arith, old, apart, lookup-erase q.ch p.ch c.buffers);
                    buffered = λ k x h. elim (Bool-cases (p.ch == k)) [
                      | inl here ↦
                          let same_k : p.ch ≡ k = (number_key.same_iff p.ch k).0 here in
                          let x_is : x ≡ env = ground arith in
                          let type_is : p.want ≡ env.type =
                            (text_key.same_iff p.want env.type).0 wanted in
                          (
                            ap (λ y. y.id) x_is ∙ is ∙ ap text same_k,
                            ground (arith, v.numbered p.ch p.want held),
                            λ w g. ground (arith, held),
                          )
                      | inr there ↦ v.buffered k x (ground (arith, lookup-erase k p.ch c.buffers))
                    ];
                    numbered = v.numbered;
                  })
          ]
    ]
  ]

  begin-IsMatched :
      (want : String) (c : AgentConn)
      → c.next_id + 1 < 2 ^ 64
      → IsMatched c
      → IsMatched (begin text want c)
  unfolding begin
  begin-IsMatched want c lt v =
      let n = c.next_id + 1 in
      let at : bump c.next_id ≡ n = omega arith in
      let unused : lookup n c.buffers ≡ none = elim (Option-cases (lookup n c.buffers)) [
        | inl e ↦ e
        | inr (env, e) ↦ let (_, le, _) = v.buffered n env e in absurd (omega (arith, le))
      ] in
      rw at (record {
        pendings = λ id p h. elim (Bool-cases (text n == id)) [
          | inl here ↦
              let p_is : p ≡ record { want = want; ch = n } = ground arith in
              let ch_is : p.ch ≡ n = ap (λ q. q.ch) p_is in
              let want_is : p.want ≡ want = ap (λ q. q.want) p_is in
              let same : text n ≡ id = (text_key.same_iff (text n) id).0 here in
              (sym same ∙ ap text (sym ch_is), ground arith, ground arith)
          | inr there ↦
              let (is, held, empty) =
                v.pendings id p (ground (arith, lookup-erase id (text n) c.pending)) in
              (
                is,
                ground (arith, v.numbered p.ch p.want held, lookup-erase p.ch n c.waiting),
                empty,
              )
        ];
        buffered = λ k env h. ground (arith, v.buffered k env h, lookup-erase k n c.waiting);
        numbered = λ k w h. ground (arith, v.numbered k w, lookup-erase k n c.waiting);
      })

  give_up-IsMatched : (n : ℕ) (c : AgentConn) → IsMatched c → IsMatched (give_up text n c)
  unfolding give_up
  give_up-IsMatched n c v = record {
    pendings = λ id p h.
        let old = v.pendings id p (ground (arith, lookup-erase id (text n) c.pending)) in
        ground (
          arith,
          old,
          lookup-erase id (text n) c.pending,
          text_key.same_iff (text n) id,
          lookup-erase p.ch n c.waiting,
          number_key.same_iff n p.ch,
        );
    buffered = λ k env h. ground (arith, v.buffered k env, lookup-erase k n c.waiting);
    numbered = λ k want h. ground (arith, v.numbered k want, lookup-erase k n c.waiting);
  }

  receive-IsMatched : (n : ℕ) (c : AgentConn) → IsMatched c → IsMatched (receive n c).0
  unfolding receive
  receive-IsMatched n c v = elim (Option-cases (lookup n c.buffers)) [
    | inl e ↦ rw (e, receive) v
    | inr (env, e) ↦
        rw (e, receive)
          (record {
            pendings = λ id p h.
                let old = v.pendings id p h in
                ground (
                  arith,
                  old,
                  e,
                  lookup-erase p.ch n c.waiting,
                  lookup-erase p.ch n c.buffers,
                  number_key.same_iff n p.ch,
                );
            buffered = λ k x h.
                ground
                  (arith, v.buffered k x, lookup-erase k n c.waiting, lookup-erase k n c.buffers);
            numbered = λ k want h. ground (arith, v.numbered k want, lookup-erase k n c.waiting);
          })
  ]

  -- The histories of a connection: requests that begin, frames that arrive, requests that give up,
  -- and requests that take their answer.
  pub data Reachable : AgentConn → Type 0 where
    start : Reachable new_agent_conn
    begins :
        {c : AgentConn}
        → Reachable c
        → (want : String) → c.next_id + 1 < 2 ^ 64
        → Reachable (begin text want c)
    arrives : {c : AgentConn} → Reachable c → (env : Envelope) → Reachable (resolve env c)
    gives_up : {c : AgentConn} → Reachable c → (n : ℕ) → Reachable (give_up text n c)
    receives : {c : AgentConn} → Reachable c → (n : ℕ) → Reachable (receive n c).0

  -- After any history of fewer than 2 ^ 64 requests each entry of the table is of a request in
  -- flight, under its number, with the type it wants and an empty channel; and each answer that a
  -- channel holds has the number of its request and, while that is in flight, the type it wants.
  pub Reachable-IsMatched : {c : AgentConn} → Reachable c → IsMatched c
  Reachable-IsMatched start = new-IsMatched
  Reachable-IsMatched (begins {c = c} r want lt) = begin-IsMatched want c lt (Reachable-IsMatched r)
  Reachable-IsMatched (arrives {c = c} r env) = resolve-IsMatched env c (Reachable-IsMatched r)
  Reachable-IsMatched (gives_up {c = c} r n) = give_up-IsMatched n c (Reachable-IsMatched r)
  Reachable-IsMatched (receives {c = c} r n) = receive-IsMatched n c (Reachable-IsMatched r)

  -- An answer of the type that a waiting request wants, under its number, is what the request
  -- returns; its entry is gone, and a second answer changes nothing.
  pub resolve-receive :
      (env again : Envelope) (p : Pending) (c : AgentConn)
      → IsMatched c
      → lookup env.id c.pending ≡ some p
      → env.id ≢ ""
      → p.want ≡ env.type
      → again.id ≡ env.id
      → let after = resolve env c in
        ((receive p.ch after).1 ≡ some env)
        × (lookup env.id after.pending ≡ none)
        × (resolve again after ≡ after)
  resolve-receive env again p c v e named wanted same =
      let (is, held, empty) = v.pendings env.id p e in
      let eq = resolve_eq env p c e empty named wanted in
      let gone : lookup env.id (resolve env c).pending ≡ none =
        rw eq (ground (arith, lookup-erase env.id env.id c.pending, ==_refl env.id)) in
      (
        receive_eq p.ch env (resolve env c) (rw eq (ground (arith, ==_refl p.ch))),
        gone,
        resolve_absent again (resolve env c) (rw same gone),
      )

-- ===== src/Github/Logins.antt =====
-- Who a callback logs in, and what it leaves of the sessions otherwise.
use dingzi.Base.{
  ap, ◌==◌, ◌≤◌, ℕ, ltb, ◌≡◌, ◌≢◌, sym, ◌∙◌, inl, inr, refl, true, false, Option, none, some,
  String, arith, text_key, int_key, Bool-cases, Option-cases, Sum-cases, ℤ,
}
use dingzi.Base.Table.{lookup}
use dingzi.Web.{HttpRequest}
use dingzi.Github.{GithubAuth, GithubPending, take, max_inflight}
use dingzi.Github.Admitted.{Granted, end_welcome, end_other}
use dingzi.Github.Callback.{
  Panel, Reply, Work, welcome, github_request, begin_callback, claim_slot, end_callback,
  handle_github_callback, or_empty, is_refused,
}

take_allowed :
    (sha256 : String → String) (state browser : String) (now : ℕ) (g : GithubAuth)
    → (take sha256 state browser now g).0.allowed ≡ g.allowed
unfolding take
take_allowed sha256 state browser now g = ground arith

-- What `claim_slot` makes of a state that was taken.
claim_slot_work :
    (len : String → ℕ) (r : HttpRequest) (p : GithubPending) (g : GithubAuth) (w : Work)
    → (claim_slot len r p g).1 ≡ inr w
    → (w.verifier ≡ p.verifier)
      × (w.code ≡ or_empty (lookup "code" r.query))
      × (is_refused len r w.code ≡ false)
      × ((claim_slot len r p g).0.allowed ≡ g.allowed)
unfolding claim_slot
claim_slot_work len r p g w h =
    let code = or_empty (lookup "code" r.query) in
    elim (Bool-cases (is_refused len r code)) [
      | inl bad ↦ absurd (ground (arith, h, bad))
      | inr good ↦ elim (Bool-cases (ltb g.inflight max_inflight)) [
        | inr full ↦ absurd (ground (arith, h, good, full))
        | inl room ↦
            let same : record { code = code; verifier = p.verifier } ≡ w =
              ground (arith, h, good, room) in
            simp (sym same) (refl, refl, good, rw (good, room, claim_slot) refl)
      ]
    ]

module _ (sha256 : String → String) (len : String → ℕ) where
  -- A callback that got its slot.
  pub record Begun (r : HttpRequest) (now : ℕ) (g : GithubAuth) (w : Work) : Type 0 where
    pub browser : String
    pub pending : GithubPending
    pub cookie : r.state_cookie ≡ some browser
    pub taken : (take sha256 (or_empty (lookup "state" r.query)) browser now g).1 ≡ some pending
    pub same_verifier : w.verifier ≡ pending.verifier
    pub same_code : w.code ≡ or_empty (lookup "code" r.query)
    pub no_error : or_empty (lookup "error" r.query) ≡ ""
    pub code_given : w.code ≢ ""
    pub code_short : len w.code ≤ 4096
    pub same_allowed : (begin_callback sha256 len r now g).0.allowed ≡ g.allowed

  given :
      (r : HttpRequest) (code : String)
      → is_refused len r code ≡ false
      → (or_empty (lookup "error" r.query) ≡ "") × (code ≢ "") × (len code ≤ 4096)
  unfolding is_refused
  given r code h = (
    ground (arith, h, text_key.same_iff (or_empty (lookup "error" r.query)) ""),
    λ blank. absurd (ground (arith, h, (text_key.same_iff code "").1 blank)),
    ground (arith, h),
  )

  begin_callback-Begun :
      (r : HttpRequest) (now : ℕ) (g : GithubAuth) (w : Work)
      → (begin_callback sha256 len r now g).1 ≡ inr w
      → Begun r now g w
  unfolding begin_callback
  begin_callback-Begun r now g w h = elim (Option-cases r.state_cookie) [
    | inl e ↦ absurd (ground (arith, h, e))
    | inr (browser, e) ↦
        let state = or_empty (lookup "state" r.query) in
        elim (Option-cases (take sha256 state browser now g).1) [
          | inl lost ↦ absurd (ground (arith, h, e, lost))
          | inr (p, found) ↦
              let g' = (take sha256 state browser now g).0 in
              let h' : (claim_slot len r p g').1 ≡ inr w = rw (begin_callback, e, found) at h in
              let (verifier, is_code, code, allowed) = claim_slot_work len r p g' w h' in
              record {
                browser = browser;
                pending = p;
                cookie = e;
                taken = found;
                same_verifier = verifier;
                same_code = is_code;
                no_error = (given r w.code code).0;
                code_given = (given r w.code code).1;
                code_short = (given r w.code code).2;
                same_allowed =
                    rw (begin_callback, e, found)
                      (allowed ∙ take_allowed sha256 state browser now g);
              }
        ]
  ]

request_passes :
    (r : HttpRequest) (o : Option GithubAuth) (g : GithubAuth)
    → github_request r o ≡ inr g
    → (o ≡ some g) × (r.method ≡ "GET") × (r.host ≡ g.callback_host)
unfolding github_request
request_passes r none g h = absurd (ground (arith, h))
request_passes r (some auth) g h = elim (Bool-cases (r.method == "GET")) [
  | inr other ↦ absurd (ground (arith, (rw (github_request, other) at h)))
  | inl get ↦ elim (Bool-cases (r.host == auth.callback_host)) [
    | inr other ↦ absurd (ground (arith, (rw (github_request, get, other) at h)))
    | inl named ↦
        let same : auth ≡ g = ground (arith, (rw (github_request, get, named) at h)) in
        (
          ap some same,
          (text_key.same_iff r.method "GET").0 get,
          (text_key.same_iff r.host auth.callback_host).0 named ∙ ap GithubAuth.callback_host same,
        )
  ]
]

request_stops :
    (r : HttpRequest) (o : Option GithubAuth) (reply : Reply) (t : String)
    → github_request r o ≡ inl reply
    → reply ≢ welcome t
unfolding github_request
request_stops r none reply t h e = absurd (ground (arith, h, e))
request_stops r (some g) reply t h e = absurd (ground (arith, h, e))

claim_stops :
    (len : String → ℕ) (r : HttpRequest) (p : GithubPending) (g : GithubAuth) (reply : Reply)
    (t : String)
    → (claim_slot len r p g).1 ≡ inl reply
    → reply ≢ welcome t
unfolding claim_slot
claim_stops len r p g reply t h e = absurd (ground (arith, h, e))

begin_stops :
    (sha256 : String → String) (len : String → ℕ) (r : HttpRequest) (now : ℕ) (g : GithubAuth)
    (reply : Reply) (t : String)
    → (begin_callback sha256 len r now g).1 ≡ inl reply
    → reply ≢ welcome t
unfolding begin_callback
begin_stops sha256 len r now g reply t h e = elim (Option-cases r.state_cookie) [
  | inl c ↦ absurd (ground (arith, h, e, c))
  | inr (browser, c) ↦
      let state = or_empty (lookup "state" r.query) in
      elim (Option-cases (take sha256 state browser now g).1) [
        | inl lost ↦ absurd (ground (arith, h, e, c, lost))
        | inr (p, found) ↦
            claim_stops len r p (take sha256 state browser now g).0 reply t
              (rw (begin_callback, c, found) at h) e
      ]
]

module _ (sha256 : String → String) (len : String → ℕ) (ask : Work → GithubAuth → Option ℤ) where
  -- Who was logged in, and the sessions after it.
  pub record LoggedIn (r : HttpRequest) (now : ℕ) (tok : Option String) (done later : ℕ)
      (p after : Panel) (t : String) : Type 0 where
    pub auth : GithubAuth
    pub present : p.github ≡ some auth
    pub method : r.method ≡ "GET"
    pub host : r.host ≡ auth.callback_host
    pub work : Work
    pub begun : Begun sha256 len r now auth work
    pub id : ℤ
    pub answer : ask work (begin_callback sha256 len r now auth).0 ≡ some id
    pub listed : lookup id auth.allowed ≡ some true
    pub minted : tok ≡ some t
    pub granted : Granted r t done later after.sessions

  -- A callback logs in only when GitHub is configured, by a GET to the host of the configured callback,
  -- without an error in its query, for a state of the query that is taken with the cookie of the
  -- browser, and the code of the query, not empty and of at most 4096 bytes, and the state's verifier
  -- for which GitHub answers with an id that the configuration lists. The session is that of the
  -- minted token, which is then in the store with an expiry a week later unless the browser brought this very token;
  -- the session that the browser brought is gone. Every other answer leaves the sessions as they were.
  pub handle_github_callback_lem :
      (r : HttpRequest) (now : ℕ) (tok : Option String) (done later : ℕ) (p : Panel)
      → let (after, reply) = handle_github_callback sha256 len ask r now tok done later p in
        ((t : String) → reply ≡ welcome t → LoggedIn r now tok done later p after t)
        × (((t : String) → reply ≢ welcome t) → after.sessions ≡ p.sessions)
  unfolding handle_github_callback
  handle_github_callback_lem r now tok done later p = elim (Sum-cases (github_request r p.github)) [
    | inl (reply, e) ↦ (
      λ t h. absurd (request_stops r p.github reply t e (rw (handle_github_callback, e) at h)),
      λ n. rw (handle_github_callback, e) refl,
    )
    | inr (g, e) ↦ elim (Sum-cases (begin_callback sha256 len r now g).1) [
      | inl (reply, f) ↦ (
        λ t h.
            absurd
              (begin_stops sha256 len r now g reply t f (rw (handle_github_callback, e, f) at h)),
        λ n. rw (handle_github_callback, e, f) refl,
      )
      | inr (w, f) ↦
          let begun = (begin_callback sha256 len r now g).0 in
          (
            λ t h.
                let b = begin_callback-Begun sha256 len r now g w f in
                let h' : (end_callback r (ask w begun) tok done later begun p.sessions).1
                    ≡ welcome t =
                  rw (handle_github_callback, e, f) at h in
                let ((id, answer, listed), minted, granted) =
                  end_welcome r (ask w begun) tok done later begun p.sessions t h' in
                record {
                  auth = g;
                  present = (request_passes r p.github g e).0;
                  method = (request_passes r p.github g e).1;
                  host = (request_passes r p.github g e).2;
                  work = w;
                  begun = b;
                  id = id;
                  answer = answer;
                  listed = rw (sym b.same_allowed) listed;
                  minted = minted;
                  granted = rw (handle_github_callback, e, f) granted;
                },
            λ n.
                rw (handle_github_callback, e, f)
                  (end_other r (ask w begun) tok done later begun p.sessions
                    (λ t k. n t (rw (handle_github_callback, e, f) k))),
          )
    ]
  ]

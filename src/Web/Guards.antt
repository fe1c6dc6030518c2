-- ===== src/Web/Guards.antt =====
-- What the guards let through, and what a logout leaves.
use dingzi.Base.{
  ℕ, ◌<◌, ◌≡◌, ◌≢◌, ◌⊎◌, inl, inr, refl, Option, some, String, arith, text_key, true, false,
  ==_refl, Bool-cases, Option-cases,
}
use dingzi.Base.Table.{lookup, lookup-erase}
use dingzi.Sessions.{SessionStore, LoginSession, valid, revoke}
use dingzi.Sessions.Bounds.{IsBounded}
use dingzi.Sessions.Validity.{valid-cases}
use dingzi.Web.{
  Url, HttpRequest, passed, refused, logged_out, same_origin, authed, require_auth, handle_logout,
}

-- The session that a cookie names and that has not expired.
pub record Names (r : HttpRequest) (now : ℕ) (s : SessionStore) : Type 0 where
  pub token : String
  pub session : LoginSession
  pub cookie : r.session_cookie ≡ some token
  pub found : lookup token s.tokens ≡ some session
  pub live : now < session.expires

authed_only :
    (r : HttpRequest) (now : ℕ) (s : SessionStore)
    → IsBounded s
    → (authed r now s).1 ≡ true
    → ((authed r now s).0 ≡ s) × Names r now s
unfolding authed
authed_only r now s v h = elim (Option-cases r.session_cookie) [
  | inl e ↦ absurd (ground (arith, e))
  | inr (tok, e) ↦
      let h' : (valid tok now s).1 ≡ true = rw (e, authed) at h in
      elim (valid-cases tok now s v) [
        | inl (ok, same, (session, found, live)) ↦ (
          rw (e, authed) same,
          record { token = tok; session = session; cookie = e; found = found; live = live },
        )
        | inr (ok, _, _) ↦ absurd (ground (arith, h', ok))
      ]
]

authed_if :
    (r : HttpRequest) (now : ℕ) (s : SessionStore)
    → IsBounded s
    → Names r now s
    → (authed r now s).1 ≡ true
unfolding authed
authed_if r now s v n = elim (valid-cases n.token now s v) [
  | inl (ok, _, _) ↦ rw (n.cookie, authed) ok
  | inr (_, _, over) ↦ absurd (omega (arith, (over n.session n.found).0, n.live))
]

module _ (parse : String → Option Url) where
  -- A wrapped handler runs exactly for a request of the same origin whose cookie names a session
  -- that has not expired, and then the sessions are as they were.
  pub require_auth_iff :
      (r : HttpRequest) (now : ℕ) (s : SessionStore)
      → IsBounded s
      → let (after, gate) = require_auth parse r now s in
        (gate ≡ passed → (after ≡ s) × (same_origin parse r ≡ true) × Names r now s)
        × (same_origin parse r ≡ true → Names r now s → gate ≡ passed)
  unfolding require_auth
  require_auth_iff r now s v = elim (Bool-cases (same_origin parse r)) [
    | inr cross ↦ (λ h. absurd (ground (arith, cross)), λ same n. absurd (ground (arith, cross)))
    | inl same ↦ (
      λ h. elim (Bool-cases (authed r now s).1) [
        | inr closed ↦ absurd (ground (arith, same, closed))
        | inl welcome ↦
            let (kept, named) = authed_only r now s v welcome in
            (rw (same, require_auth) kept, same, named)
      ],
      λ _ n. rw (same, require_auth, authed_if r now s v n) refl,
    )
  ]

  -- After a logout from the same origin the token of the request is refused at any time, and every
  -- other token has the session it had; a request from elsewhere changes nothing.
  pub handle_logout_lem :
      (r : HttpRequest) (tok other : String) (at : ℕ) (s : SessionStore)
      → r.session_cookie ≡ some tok
      → let (after, reply) = handle_logout parse r s in
        ((reply ≡ refused) × (after ≡ s))
        ⊎ ((reply ≡ logged_out)
            × (valid tok at after ≡ (after, false))
            × (other ≢ tok → lookup other after.tokens ≡ lookup other s.tokens))
  unfolding handle_logout valid revoke
  handle_logout_lem r tok other at s e = elim (Bool-cases (same_origin parse r)) [
    | inr cross ↦ inl (rw (cross, handle_logout) refl, rw (cross, handle_logout) refl)
    | inl same ↦ inr (
      rw (same, handle_logout) refl,
      ground (arith, same, e, lookup-erase tok tok s.tokens, ==_refl tok),
      λ n. ground (arith, same, e, lookup-erase other tok s.tokens, text_key.same_iff tok other),
    )
  ]

-- ===== src/Sessions/Login.antt =====
-- internal/server/auth.go: the login handler over the session store. `compare` is
-- bcrypt.CompareHashAndPassword, `body` the decoded password, none when the JSON is refused.
use dingzi.Base.{
  ◌≡◌, ◌≢◌, refl, Option, none, some, String, ℕ, arith, text_key, Bool, true, false, ◌==◌,
  if◌then◌else◌, Bool-cases, ◌∙◌, inl, inr,
}
use dingzi.Sessions.{SessionStore, issue, throttle, record_try}

pub data Reply : Type 0 where
  wrong_origin too_many_requests bad_request wrong_password no_session : Reply
  logged_in : String → Reply

pub record Attempt : Type 0 where
  pub same_origin : Bool
  pub ip : String
  pub body : Option String

module _ (compare : String → String → Bool) where
  pub check_password : String → String → Bool
  check_password hash pw = if hash == "" then false else compare hash pw

  -- The part of the handler after the throttle.
  unfoldable pub sign_in :
      String → Option String → Option String → ℕ → ℕ → SessionStore → SessionStore × Reply
  unfolding check_password
  sign_in hash none tok done now s = (s, bad_request)
  sign_in hash (some pw) tok done now s =
      if check_password hash pw
      then (let (after, minted) = issue tok done now s in
          elim minted [ none ↦ (after, no_session) | some t ↦ (after, logged_in t) ])
      else (s, wrong_password)

  unfoldable pub handle_login :
      String → Attempt → Option String → ℕ → ℕ → SessionStore → SessionStore × Reply
  unfolding sign_in
  handle_login hash a tok done now s =
      if a.same_origin
      then (let (tried, passes) = throttle a.ip now s in
          if passes then sign_in hash a.body tok done now tried else (tried, too_many_requests))
      else (s, wrong_origin)

  sign_in_lem :
      (hash t : String) (body tok : Option String) (done now : ℕ) (s : SessionStore)
      → (sign_in hash body tok done now s).1 ≡ logged_in t
      → (hash ≢ "")
        × ((pw : String) × (body ≡ some pw) × (compare hash pw ≡ true))
        × (tok ≡ some t)
        × ((sign_in hash body tok done now s).0 ≡ (issue tok done now s).0)
  unfolding sign_in check_password issue
  sign_in_lem hash t none tok done now s h = absurd (ground arith)
  sign_in_lem hash t (some pw) none done now s h = absurd (ground arith)
  sign_in_lem hash t (some pw) (some m) done now s h = elim (Bool-cases (check_password hash pw)) [
    | inl ok ↦ (
      λ e. absurd (ground (arith, text_key.same_iff hash "")),
      (pw, refl, ground arith),
      ground (arith, ok),
      rw (ok, sign_in) refl,
    )
    | inr bad ↦ absurd (ground (arith, bad))
  ]

  sign_in_other :
      (hash : String) (body tok : Option String) (done now : ℕ) (s : SessionStore)
      → ((t : String) → (sign_in hash body tok done now s).1 ≢ logged_in t)
      → (sign_in hash body tok done now s).0.tokens ≡ s.tokens
  unfolding sign_in check_password issue
  sign_in_other hash none tok done now s n = refl
  sign_in_other hash (some pw) none done now s n = ground arith
  sign_in_other hash (some pw) (some m) done now s n = elim (Bool-cases (check_password hash pw)) [
    | inl ok ↦ absurd (n m (rw (ok, sign_in) refl))
    | inr bad ↦ rw (bad, sign_in) refl
  ]

  throttle_tokens :
      (ip : String) (now : ℕ) (s : SessionStore) → (throttle ip now s).0.tokens ≡ s.tokens
  unfolding throttle record_try
  throttle_tokens ip now s = ground arith

  -- A login hands out a token only to a request of the same origin that the throttle let through
  -- and whose password agrees with a hash that is configured; the token is the one minted, and
  -- the store is the one in which it was issued. Any other reply leaves the sessions as they were.
  pub handle_login_lem :
      (hash : String) (a : Attempt) (tok : Option String) (done now : ℕ) (s : SessionStore)
      → let (after, reply) = handle_login hash a tok done now s in
        ((t : String)
          → reply ≡ logged_in t
          → (a.same_origin ≡ true)
            × ((throttle a.ip now s).1 ≡ true)
            × (hash ≢ "")
            × ((pw : String) × (a.body ≡ some pw) × (compare hash pw ≡ true))
            × (tok ≡ some t)
            × (after ≡ (issue tok done now (throttle a.ip now s).0).0))
        × (((t : String) → reply ≢ logged_in t) → after.tokens ≡ s.tokens)
  unfolding handle_login
  handle_login_lem hash a tok done now s = elim (Bool-cases a.same_origin) [
    | inr cross ↦ (λ t h. absurd (ground (arith, cross)), λ n. rw (cross, handle_login) refl)
    | inl same ↦ elim (Bool-cases (throttle a.ip now s).1) [
      | inr shut ↦ (
        λ t h. absurd (ground (arith, same, shut)),
        λ n. rw (same, shut, handle_login) (throttle_tokens a.ip now s),
      )
      | inl passes ↦ (
        λ t h.
            let tried = (throttle a.ip now s).0 in
            let into : (sign_in hash a.body tok done now tried).1 ≡ logged_in t =
              rw (same, passes, handle_login) at h in
            let (named, ok, minted, after) = sign_in_lem hash t a.body tok done now tried into in
            (same, passes, named, ok, minted, rw (same, passes, handle_login) after),
        λ n.
            rw (same, passes, handle_login)
              (sign_in_other hash a.body tok done now (throttle a.ip now s).0
                  (λ t e. n t (rw (same, passes, handle_login) e))
                ∙ throttle_tokens a.ip now s),
      )
    ]
  ]

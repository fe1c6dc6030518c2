-- ===== src/Github/Admitted.antt =====
-- What the end of a callback does to the sessions.
use dingzi.Base.{
  subst, ap, ==_refl, ◌+◌, ◌==◌, if◌then◌else◌, ℕ, ◌≡◌, ◌≢◌, ◌∙◌, inl, inr, refl, true, false,
  Option, none, some, String, arith, text_key, int_key, Bool-cases, Option-cases, ℤ, Bool,
}
use dingzi.Base.Table.{Table, lookup, lookup-erase}
use dingzi.Sessions
use dingzi.Sessions.{SessionStore, revoke, valid, session_ttl}
use dingzi.Web.{HttpRequest}
use dingzi.Github.{GithubAuth}
use dingzi.Github.Callback.{welcome, admit, end_callback, or_false}

lookup-revoke :
    (k tok : String) (s : SessionStore)
    → lookup k (revoke tok s).tokens ≡ (if tok == k then none else lookup k s.tokens)
unfolding revoke
lookup-revoke k tok s = elim (Option-cases (lookup tok s.tokens)) [
  | inl e ↦ rw (e, revoke) (ground (arith, e, text_key.same_iff tok k))
  | inr (session, e) ↦ rw (e, revoke) (lookup-erase k tok s.tokens)
]

-- The sessions once the token t was handed out: its session is there, with its expiry and its channel,
-- unless the browser brought the same token, and the session that the browser brought is gone.
pub record Granted (r : HttpRequest) (t : String) (done now : ℕ) (after : SessionStore)
    : Type 0 where
  pub fresh :
      r.session_cookie ≢ some t
      → lookup t after.tokens
        ≡ some (record { expires = now + session_ttl; done = done; timer = false })
  pub replaced : (old : String) → r.session_cookie ≡ some old → lookup old after.tokens ≡ none

issued :
    (t : String) (done now : ℕ) (s : SessionStore)
    → lookup t (Sessions.issue (some t) done now s).0.tokens
      ≡ some (record { expires = now + session_ttl; done = done; timer = false })
unfolding Sessions.issue
issued t done now s = ground (arith, text_key.same_iff t t)

minted_token :
    (t : String) (done now : ℕ) (s : SessionStore) → (Sessions.issue (some t) done now s).1 ≡ some t
unfolding Sessions.issue
minted_token t done now s = refl

admit_welcome :
    (allowed : Table ℤ Bool) (r : HttpRequest) (id : ℤ) (tok : Option String) (done now : ℕ)
    (s : SessionStore) (t : String)
    → (admit allowed r id tok done now s).1 ≡ welcome t
    → (lookup id allowed ≡ some true) × (tok ≡ some t)
unfolding admit Sessions.issue
admit_welcome allowed r id none done now s t h = absurd (ground (arith, h))
admit_welcome allowed r id (some m) done now s t h = ground (arith, h)

admit_other :
    (allowed : Table ℤ Bool) (r : HttpRequest) (id : ℤ) (tok : Option String) (done now : ℕ)
    (s : SessionStore)
    → ((t : String) → (admit allowed r id tok done now s).1 ≢ welcome t)
    → (admit allowed r id tok done now s).0 ≡ s
unfolding admit Sessions.issue
admit_other allowed r id none done now s n = ground arith
admit_other allowed r id (some m) done now s n = elim (Bool-cases (or_false (lookup id allowed))) [
  | inl member ↦ absurd (n m (rw (member, admit) refl))
  | inr stranger ↦ rw (stranger, admit) refl
]

admit_listed :
    (allowed : Table ℤ Bool) (r : HttpRequest) (id : ℤ) (t : String) (done now : ℕ)
    (s : SessionStore)
    → lookup id allowed ≡ some true
    → Granted r t done now (admit allowed r id (some t) done now s).0
unfolding admit
admit_listed allowed r id t done now s member =
    let left = (Sessions.issue (some t) done now s).0 in
    let in_ : or_false (lookup id allowed) ≡ true = rw member refl in
    elim (Option-cases r.session_cookie) [
      | inl none_ ↦
          let same : (admit allowed r id (some t) done now s).0 ≡ left =
            rw (admit, in_, minted_token t done now s, none_) refl in
          rw same (record {
            fresh = λ _. issued t done now s;
            replaced = λ old e. absurd (ground (arith, none_, e));
          })
      | inr (previous, e) ↦
          let same : (admit allowed r id (some t) done now s).0 ≡ revoke previous left =
            rw (admit, in_, minted_token t done now s, e) refl in
          rw same (record {
            fresh = λ other.
                let apart : (previous == t) ≡ false = ground (
                  arith,
                  text_key.same_iff previous t,
                  λ (k : previous ≡ t). other (e ∙ ap some k),
                ) in
                lookup-revoke t previous left ∙ rw apart (issued t done now s);
            replaced = λ old k.
                let own : previous ≡ old = ground (arith, e, k) in
                lookup-revoke old previous left ∙ rw (own, ==_refl old) refl;
          })
    ]

admit-Granted :
    (allowed : Table ℤ Bool) (r : HttpRequest) (id : ℤ) (tok : Option String) (done now : ℕ)
    (s : SessionStore) (t : String)
    → (admit allowed r id tok done now s).1 ≡ welcome t
    → Granted r t done now (admit allowed r id tok done now s).0
admit-Granted allowed r id none done now s t h =
    let (_, minted) = admit_welcome allowed r id none done now s t h in
    absurd (ground (arith, minted))
admit-Granted allowed r id (some m) done now s t h =
    let (member, minted) = admit_welcome allowed r id (some m) done now s t h in
    let same : m ≡ t = ground (arith, minted) in
    subst (λ k. Granted r k done now (admit allowed r id (some m) done now s).0) same
      (admit_listed allowed r id m done now s member)

pub end_welcome :
    (r : HttpRequest) (answer : Option ℤ) (tok : Option String) (done now : ℕ) (g : GithubAuth)
    (s : SessionStore) (t : String)
    → (end_callback r answer tok done now g s).1 ≡ welcome t
    → ((id : ℤ) × (answer ≡ some id) × (lookup id g.allowed ≡ some true))
      × (tok ≡ some t)
      × Granted r t done now (end_callback r answer tok done now g s).0.sessions
unfolding end_callback
end_welcome r none tok done now g s t h = absurd (ground (arith, h))
end_welcome r (some id) tok done now g s t h =
    let (member, minted) = admit_welcome g.allowed r id tok done now s t h in
    ((id, refl, member), minted, admit-Granted g.allowed r id tok done now s t h)

pub end_other :
    (r : HttpRequest) (answer : Option ℤ) (tok : Option String) (done now : ℕ) (g : GithubAuth)
    (s : SessionStore)
    → ((t : String) → (end_callback r answer tok done now g s).1 ≢ welcome t)
    → (end_callback r answer tok done now g s).0.sessions ≡ s
unfolding end_callback
end_other r none tok done now g s n = refl
end_other r (some id) tok done now g s n = admit_other g.allowed r id tok done now s n

-- ===== src/Github/Accepted.antt =====
-- What newGitHubAuth demands of a configuration.
use dingzi.Base.{
  ◌≡◌, ◌≢◌, ◌⊎◌, ◌↔◌, inl, inr, refl, Bool, true, false, Option, none, some, List, [], ◌∷◌, String,
  arith, text_key, int_key, ◌==◌, ℤ, is_positive, Bool-cases, Option-cases, All, Occurs, sym, pos,
}
use dingzi.Base.Table.{Table, lookup, insert, lookup-insert}
use dingzi.Web.{Url}
use dingzi.Github.{GithubConfig, GithubAuth, github_callback_path}
use dingzi.Github.Config.{
  built, new_github_auth, build, allow, scheme_refusal, start, is_callback, is_loopback,
  is_incomplete,
}

-- The schemes that are accepted: HTTPS with secure cookies, or plain HTTP on loopback without.
abbrev pub Served : Url → Bool → Type 0
Served u secure_cookie =
    ((u.scheme ≡ "https") × (secure_cookie ≡ true))
    ⊎ ((u.scheme ≡ "http") × (is_loopback u ≡ true) × (secure_cookie ≡ false))

scheme_refusal-Served :
    (u : Url) (secure_cookie : Bool)
    → (scheme_refusal u secure_cookie ≡ none → Served u secure_cookie)
      × (Served u secure_cookie → scheme_refusal u secure_cookie ≡ none)
unfolding scheme_refusal
scheme_refusal-Served u secure_cookie =
    let https_ = text_key.same_iff u.scheme "https" in
    let http_ = text_key.same_iff u.scheme "http" in
    (
      λ h. elim (Bool-cases (is_loopback u)) [
        | inl loop ↦ ground (arith, h, https_, http_, loop)
        | inr far ↦ ground (arith, h, https_, http_, far)
      ],
      λ h. elim h [
        | inl (a, b) ↦ ground (arith, a, b, https_)
        | inr (a, b, c) ↦
            let far : (u.scheme == "https") ≡ false = rw a refl in
            ground (arith, far, http_.1 a, b, c)
      ],
    )

-- A callback address as the source words it.
pub record Callback (u : Url) : Type 0 where
  pub host : u.host ≢ ""
  pub no_user : u.has_user ≡ false
  pub no_query : u.raw_query ≡ ""
  pub not_forced : u.force_query ≡ false
  pub no_fragment : u.fragment ≡ ""
  pub path : u.path ≡ github_callback_path
  pub raw_path : u.raw_path ≡ ""

is_callback-Callback : (u : Url) → is_callback u ≡ true → Callback u
is_callback-Callback u h = record {
  host = λ e. absurd (ground (arith, h, text_key.same_iff u.host ""));
  no_user = ground (arith, h);
  no_query = ground (arith, h, text_key.same_iff u.raw_query "");
  not_forced = ground (arith, h);
  no_fragment = ground (arith, h, text_key.same_iff u.fragment "");
  path = ground (arith, h, text_key.same_iff u.path github_callback_path);
  raw_path = ground (arith, h, text_key.same_iff u.raw_path "");
}

allow_lem :
    (id : ℤ) (ids : List ℤ) (t after : Table ℤ Bool)
    → allow ids t ≡ some after
    → All (λ i. is_positive i ≡ true) ids
      × (lookup id after ≡ some true → Occurs id ids ⊎ (lookup id t ≡ some true))
      × (Occurs id ids ⊎ (lookup id t ≡ some true) → lookup id after ≡ some true)
unfolding allow
allow_lem id [] t after h = ground (arith, h)
allow_lem id (i ∷ ids) t after h = elim (Bool-cases (is_positive i)) [
  | inr bad ↦ absurd (ground (arith, h, bad))
  | inl good ↦
      let h' : allow ids (insert i true t) ≡ some after = ground (arith, h, good) in
      let (positive, only, if_) = allow_lem id ids (insert i true t) after h' in
      let at_ = lookup-insert id i true t in
      let same_ = int_key.same_iff i id in
      (
        (good, positive),
        λ l. ground (arith, only l, at_, same_),
        λ o. if_ (ground (arith, o, at_, same_)),
      )
]

-- What a configuration needs besides the addresses of its callback.
pub record Accepted (trim : String → String) (parse : String → Option Url) (cfg : GithubConfig)
    (secure_cookie : Bool) (g : GithubAuth) : Type 0 where
  pub client_id : trim cfg.client_id ≢ ""
  pub client_secret : trim cfg.client_secret ≢ ""
  pub some_ids : cfg.allowed_user_ids ≢ []
  pub url : Url
  pub parsed : parse cfg.callback_url ≡ some url
  pub callback : Callback url
  pub served : Served url secure_cookie
  pub callback_host : g.callback_host ≡ url.host
  pub pending : g.pending ≡ []
  pub inflight : g.inflight ≡ 0
  pub positive : All (λ i. is_positive i ≡ true) cfg.allowed_user_ids
  pub allows : (id : ℤ) → (lookup id g.allowed ≡ some true) ↔ Occurs id cfg.allowed_user_ids

module _ (trim : String → String) (parse : String → Option Url) where
  build-inv :
      (cfg : GithubConfig) (secure_cookie : Bool) (u : Url) (g : GithubAuth)
      → build cfg secure_cookie u ≡ built g
      → Served u secure_cookie
        × ((t : Table ℤ Bool) × (allow cfg.allowed_user_ids [] ≡ some t) × (start cfg u t ≡ g))
  unfolding build
  build-inv cfg secure_cookie u g h = elim (Option-cases (scheme_refusal u secure_cookie)) [
    | inr (why, bad) ↦ absurd (ground (arith, h, bad))
    | inl fine ↦ elim (Option-cases (allow cfg.allowed_user_ids [])) [
      | inl bad ↦ absurd (ground (arith, h, bad, fine))
      | inr (t, good) ↦ (
        (scheme_refusal-Served u secure_cookie).0 fine,
        let same : built (start cfg u t) ≡ built g = rw (build, fine, good) at h in
            (t, good, cc same),
      )
    ]
  ]

  -- A login that is built comes of a configuration whose texts are not blank, whose callback is an
  -- address with a host and the fixed path but no user, query or fragment, served over HTTPS with
  -- secure cookies or over plain HTTP on loopback without, and whose ids are all positive; it has
  -- that host, nobody in progress, and allows an id exactly when the configuration lists it.
  pub new_github_auth_lem :
      (cfg : GithubConfig) (secure_cookie : Bool) (g : GithubAuth)
      → new_github_auth trim parse (some cfg) secure_cookie ≡ built g
      → Accepted trim parse cfg secure_cookie g
  unfolding new_github_auth
  new_github_auth_lem cfg secure_cookie g h = elim (Bool-cases (is_incomplete trim cfg)) [
    | inl bad ↦ absurd (ground (arith, h, bad))
    | inr full ↦ elim (Option-cases (parse cfg.callback_url)) [
      | inl bad ↦ absurd (ground (arith, h, full, bad))
      | inr (u, parsed) ↦ elim (Bool-cases (is_callback u)) [
        | inr bad ↦ absurd (ground (arith, h, full, parsed, bad))
        | inl good ↦
            let h' : build cfg secure_cookie u ≡ built g =
              rw (new_github_auth, full, parsed, good) at h in
            let (served, (t, allowed, same)) = build-inv cfg secure_cookie u g h' in
            simp (sym same) (record {
              client_id =
                  λ e. absurd (ground (arith, full, text_key.same_iff (trim cfg.client_id) ""));
              client_secret =
                  λ e. absurd (ground (arith, full, text_key.same_iff (trim cfg.client_secret) ""));
              some_ids = λ e. absurd (ground (arith, full, e));
              url = u;
              parsed = parsed;
              callback = is_callback-Callback u good;
              served = served;
              callback_host = refl;
              pending = refl;
              inflight = refl;
              positive = (allow_lem (pos 0) cfg.allowed_user_ids [] t allowed).0;
              allows = λ id.
                  let (_, only, if_) = allow_lem id cfg.allowed_user_ids [] t allowed in
                  (λ l. ground (arith, only l), λ o. if_ (inl o));
            })
      ]
    ]
  ]

-- ===== src/Github/Config.antt =====
-- internal/server/github.go, newGitHubAuth: which configurations start the login. `trim` is
-- strings.TrimSpace, `parse` url.Parse.
use dingzi.Base.{
  Bool, true, false, not, ◌&&◌, ◌||◌, Option, none, some, List, [], ◌∷◌, String, if◌then◌else◌,
  text_key, int_key, ◌==◌, ℤ, is_positive,
}
use dingzi.Base.Table.{Table, insert}
use dingzi.Web.{Url}
use dingzi.Github.{GithubConfig, GithubAuth, github_callback_path}

pub data Refusal : Type 0 where
  incomplete bad_callback needs_https needs_secure_cookie bad_id : Refusal

pub data Built : Type 0 where
  disabled : Built
  refused : Refusal → Built
  built : GithubAuth → Built

abbrev pub is_empty {ℓ} : {A : Type ℓ} → List A → Bool
is_empty [] = true
is_empty (x ∷ xs) = false

-- The loop over the ids, none at the first that is not positive.
unfoldable pub allow : List ℤ → Table ℤ Bool → Option (Table ℤ Bool)
allow [] allowed = some allowed
allow (id ∷ ids) allowed =
    let rest = allow ids (insert id true allowed) in if is_positive id then rest else none

-- A callback address that the condition after url.Parse accepts.
abbrev pub is_callback : Url → Bool
is_callback u = not (
    u.host == ""
    || u.has_user
    || not (u.raw_query == "")
    || u.force_query
    || not (u.fragment == "")
    || not (u.path == github_callback_path)
    || not (u.raw_path == ""))

abbrev pub is_loopback : Url → Bool
is_loopback u = u.hostname == "localhost" || u.hostname == "127.0.0.1" || u.hostname == "::1"

-- The two tests of the scheme against the flag for secure cookies.
unfoldable pub scheme_refusal : Url → Bool → Option Refusal
scheme_refusal u secure_cookie =
    if not (u.scheme == "https") && not (u.scheme == "http" && (is_loopback u && not secure_cookie))
    then some needs_https
    else (if u.scheme == "https" && not secure_cookie then some needs_secure_cookie else none)

abbrev pub start : GithubConfig → Url → Table ℤ Bool → GithubAuth
start cfg u allowed = record {
  config = cfg;
  callback_host = u.host;
  allowed = allowed;
  authorize_url = "https://github.com/login/oauth/authorize";
  token_url = "https://github.com/login/oauth/access_token";
  user_url = "https://api.github.com/user";
  pending = [];
  inflight = 0;
}

-- The part of `newGitHubAuth` once the address is accepted.
unfoldable pub build : GithubConfig → Bool → Url → Built
build cfg secure_cookie u = elim (scheme_refusal u secure_cookie) [
  | some why ↦ refused why
  | none ↦ elim (allow cfg.allowed_user_ids []) [
    | none ↦ refused bad_id
    | some allowed ↦ built (start cfg u allowed)
  ]
]

module _ (trim : String → String) where
  abbrev pub is_incomplete : GithubConfig → Bool
  is_incomplete cfg =
      trim cfg.client_id == "" || trim cfg.client_secret == "" || is_empty cfg.allowed_user_ids

module _ (trim : String → String) (parse : String → Option Url) where
  unfoldable pub new_github_auth : Option GithubConfig → Bool → Built
  new_github_auth none secure_cookie = disabled
  new_github_auth (some cfg) secure_cookie =
      if is_incomplete trim cfg then refused incomplete else elim (parse cfg.callback_url) [
        | none ↦ refused bad_callback
        | some u ↦ if is_callback u then build cfg secure_cookie u else refused bad_callback
      ]

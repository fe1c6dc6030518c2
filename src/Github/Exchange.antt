-- ===== src/Github/Exchange.antt =====
-- internal/server/github.go: the requests to GitHub of a callback. `send` is http.Client.Do, none when
-- the request cannot be made; a body is none when reading it fails. The two `unmarshal` are
-- json.Unmarshal into the struct that each caller declares, and `equal_fold` is strings.EqualFold.
use dingzi.Base.{
  ℕ, ◌+◌, ◌*◌, Bool, not, ◌||◌, ◌++◌, Option, none, some, List, [], ◌∷◌, String, ltb, if◌then◌else◌,
  length, take, text_key, ◌==◌, eqb, ℤ, is_positive, ◌>>=◌,
}
use dingzi.Github.{GithubAuth}
use Prim.Native.String

pub record ApiRequest : Type 0 where
  pub method : String
  pub url : String
  pub form : List (String × String)
  pub headers : List (String × String)

pub record ApiResponse : Type 0 where
  pub status : ℕ
  pub body : Option (List ℕ)

pub record Token : Type 0 where
  pub access_token : String
  pub token_type : String
  pub error : String

abbrev pub body_limit : ℕ
body_limit = 64 * 1024

module _ (send : ApiRequest → Option ApiResponse) where
  unfoldable pub read_json {ℓ} : {A : Type ℓ} → (List ℕ → Option A) → ApiRequest → Option A
  read_json unmarshal request = do
    res ← send (record request {
      headers =
          request.headers ++ ("Accept", "application/json") ∷ ("User-Agent", "dingzi-panel") ∷ [];
    })
    all ← if eqb res.status 200 then res.body else none
    let body = take (body_limit + 1) all in
        if ltb body_limit (length body) then none else unmarshal body

  module _ (unmarshal_token : List ℕ → Option Token) (unmarshal_user : List ℕ → Option ℤ)
      (equal_fold : String → String → Bool) where
    unfoldable pub user_id : String → String → GithubAuth → Option ℤ
    user_id code verifier g = do
      token ← read_json unmarshal_token (record {
        method = "POST";
        url = g.token_url;
        form =
            ("client_id", g.config.client_id)
            ∷ ("client_secret", g.config.client_secret)
            ∷ ("code", code)
            ∷ ("redirect_uri", g.config.callback_url)
            ∷ ("code_verifier", verifier)
            ∷ [];
        headers = ("Content-Type", "application/x-www-form-urlencoded") ∷ [];
      })
      bearer ←
          if not (token.error == "")
            || token.access_token == ""
            || not (equal_fold token.token_type "bearer")
          then none
          else some token.access_token
      id ← read_json unmarshal_user (record {
        method = "GET";
        url = g.user_url;
        form = [];
        headers =
            ("Authorization", String.◌++◌ "Bearer " bearer)
            ∷ ("X-GitHub-Api-Version", "2022-11-28")
            ∷ [];
      })
      if is_positive id then some id else none

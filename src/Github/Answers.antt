-- ===== src/Github/Answers.antt =====
-- Which answers of GitHub are read.
use dingzi.Base.{
  ℕ, zero, suc, ◌+◌, ◌≤◌, ◌≡◌, ◌↔◌, ap, refl, false, Option, some, List, [], ◌∷◌, ◌++◌, arith, take,
  length, length-take, eqb, ltb, eqb_iff, inl, inr, Bool-cases, Option-cases,
}
use dingzi.Github.Exchange.{ApiRequest, ApiResponse, read_json, body_limit}

take_all : (n : ℕ) {A : Type 0} (xs : List A) → length xs ≤ n → take n xs ≡ xs
take_all zero [] h = refl
take_all zero (x ∷ xs) h = absurd (omega arith)
take_all (suc n) [] h = refl
take_all (suc n) (x ∷ xs) h = ap (λ ys. x ∷ ys) (take_all n xs (omega arith))

-- What `readJSON` adds to a request.
abbrev pub sent : ApiRequest → ApiRequest
sent q = record q {
  headers = q.headers ++ ("Accept", "application/json") ∷ ("User-Agent", "dingzi-panel") ∷ [];
}

module _ {A : Type 0} (send : ApiRequest → Option ApiResponse) (unmarshal : List ℕ → Option A) where
  -- A value is read exactly when the request is answered with status 200 and a body of at most
  -- 65536 bytes, and it is then what the whole body decodes to.
  pub read_json_iff :
      (q : ApiRequest) (a : A)
      → (read_json send unmarshal q ≡ some a) ↔ (
          (res : ApiResponse) × (body : List ℕ) × (send (sent q) ≡ some res)
          × (res.status ≡ 200)
          × (res.body ≡ some body)
          × (length body ≤ body_limit)
          × (unmarshal body ≡ some a))
  unfolding read_json
  read_json_iff q a = (
    λ h. only h,
    λ (res, body, answered, ok, read, short, decoded).
        let whole = take_all (body_limit + 1) body (omega (arith, short)) in
        let under : ltb body_limit (length body) ≡ false = ground (arith, short) in
        rw (answered, (eqb_iff res.status 200).1 ok, read, whole, under) decoded,
  )
    where
      only :
          read_json send unmarshal q ≡ some a
          → (res : ApiResponse) × (body : List ℕ) × (send (sent q) ≡ some res)
            × (res.status ≡ 200)
            × (res.body ≡ some body)
            × (length body ≤ body_limit)
            × (unmarshal body ≡ some a)
      only h = elim (Option-cases (send (sent q))) [
        | inl lost ↦ absurd (ground (arith, (rw lost at h)))
        | inr (res, answered) ↦ elim (Bool-cases (eqb res.status 200)) [
          | inr bad ↦ absurd (ground (arith, (rw (answered, bad) at h)))
          | inl ok ↦ elim (Option-cases res.body) [
            | inl broken ↦ absurd (ground (arith, (rw (answered, ok, broken) at h)))
            | inr (body, read) ↦
                let fits = length-take (body_limit + 1) body in
                elim (Bool-cases (ltb body_limit (length (take (body_limit + 1) body)))) [
                  | inl long ↦ absurd (ground (arith, (rw (answered, ok, read, long) at h)))
                  | inr under ↦
                      let short : length body ≤ body_limit = ground (arith, fits, under) in
                      let whole = take_all (body_limit + 1) body (omega (arith, short)) in
                      (
                        res,
                        body,
                        answered,
                        (eqb_iff res.status 200).0 ok,
                        read,
                        short,
                        (rw (answered, ok, read, under, whole) at h),
                      )
                ]
          ]
        ]
      ]

-- ===== src/Fleet/History.antt =====
-- Every history of calls of the hub after it was loaded from storage.
use dingzi.Base.{ℕ, ◌≡◌, refl, none, List, [], ◌∷◌, String, number_key, text_key, arith}
use dingzi.Base.Table.{lookup}
use dingzi.Traffic.{Traffic}
use dingzi.Fleet.{
  Hub, Machine, Host, Sample, State, new_hub, install, load, put, attach, detach, remove,
  set_traffic, rename, set_host,
}
use dingzi.Fleet.Reports.{push_sample, absorb}
use dingzi.Fleet.Coherence.{
  IsCoherent, new_hub-IsCoherent, install-IsCoherent, change-IsCoherent, remove-IsCoherent,
  attach-IsCoherent, detach-IsCoherent, put-IsCoherent,
}

pub data Call (Float : Type 0) : Type 0 where
  puts : Machine Float → Call Float
  attaches : ℕ → ℕ → ℕ → Call Float
  detaches : ℕ → ℕ → Call Float
  removes : ℕ → Call Float
  reports : ℕ → State Float → ℕ → Call Float
  sets_traffic : ℕ → (Traffic → Traffic) → Call Float
  renames : ℕ → String → Call Float
  sets_host : ℕ → Host → Call Float

module _ {Float : Type 0} where
  -- Storage gives ids and uuids that are each listed once.
  abbrev pub Loadable : Hub Float → List (Machine Float) → Type 0
  Loadable h [] = Unit
  Loadable h (m ∷ l) =
      (lookup m.id h.by_id ≡ none) × (lookup m.uuid h.by_uuid ≡ none) × Loadable (install m h) l

  -- Put is given a row of storage, where a uuid has one id.
  abbrev pub Allowed : Hub Float → Call Float → Type 0
  Allowed h (puts m) = lookup m.id h.by_id ≡ none → lookup m.uuid h.by_uuid ≡ none
  Allowed h c = Unit

  load-IsCoherent :
      (l : List (Machine Float)) (h : Hub Float)
      → IsCoherent h
      → Loadable h l
      → IsCoherent (load l h)
  unfolding load
  load-IsCoherent [] h v a = v
  load-IsCoherent (m ∷ l) h v a =
      load-IsCoherent l (install m h) (install-IsCoherent m h v a.0 a.1) a.2

module _ {Float : Type 0} (quotient : ℕ → ℕ → ℕ) (blank : Sample Float) where
  unfoldable pub step : Hub Float → Call Float → Hub Float
  step h (puts m) = (put m h).0
  step h (attaches id c now) = attach id c now h
  step h (detaches id c) = detach id c h
  step h (removes id) = (remove id h).0
  step h (reports id st at) = (push_sample quotient blank id st at h).0
  step h (sets_traffic id fn) = (set_traffic id fn h).0
  step h (renames id name) = (rename id name h).0
  step h (sets_host id host) = (set_host id host h).0

  pub data Reachable : Hub Float → Type 0 where
    start : (l : List (Machine Float)) → Loadable new_hub l → Reachable (load l new_hub)
    next : {h : Hub Float} → Reachable h → (c : Call Float) → Allowed h c → Reachable (step h c)

  step-IsCoherent :
      (h : Hub Float) (c : Call Float) → Allowed h c → IsCoherent h → IsCoherent (step h c)
  unfolding step push_sample absorb set_traffic rename set_host
  step-IsCoherent h (puts m) a v = put-IsCoherent m h v a
  step-IsCoherent h (attaches id c now) a v = attach-IsCoherent id c now h v
  step-IsCoherent h (detaches id c) a v = detach-IsCoherent id c h v
  step-IsCoherent h (removes id) a v = remove-IsCoherent id h v
  step-IsCoherent h (reports id st at) a v =
      let w = change-IsCoherent id (absorb quotient blank st at) h (λ x. (refl, refl)) v in
      ground (arith, w)
  step-IsCoherent h (sets_traffic id fn) a v = change-IsCoherent id _ h (λ x. (refl, refl)) v
  step-IsCoherent h (renames id name) a v = change-IsCoherent id _ h (λ x. (refl, refl)) v
  step-IsCoherent h (sets_host id host) a v = change-IsCoherent id _ h (λ x. (refl, refl)) v

  -- After any history the two maps of the hub agree: what is found by an id has that id and is
  -- found by its uuid, what is found by a uuid has that uuid and is found by its id, at one address.
  pub Reachable-IsCoherent : {h : Hub Float} → Reachable h → IsCoherent h
  Reachable-IsCoherent (start l a) = load-IsCoherent l new_hub new_hub-IsCoherent a
  Reachable-IsCoherent (next {h = before} r c a) =
      step-IsCoherent before c a (Reachable-IsCoherent r)

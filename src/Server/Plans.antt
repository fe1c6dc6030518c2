-- ===== src/Server/Plans.antt =====
-- What a request to patch a machine asks for, and when it may.
use dingzi.Base.{
  ℕ, ◌≤◌, ◌≡◌, ◌≢◌, inl, inr, refl, sym, ◌∙◌, ap, Bool, true, false, not, ◌||◌, Option, none, some,
  String, arith, text_key, number_key, Bool-cases, Option-cases, ℤ, pos, negsuc, ltb, eqb,
  if◌then◌else◌,
}
use dingzi.Traffic.{Traffic, valid_count_mode, max_int64, cycle_start}
use dingzi.Server.Admin.{
  Plan, PatchBody, patch_name, patch_quota, patch_mode, patch_day, plan_patch,
}

-- A field of the body, or what is there without it.
abbrev pub wanted : {A : Type 0} → Option A → A → A
wanted none old = old
wanted (some new) old = new

abbrev pub wanted_name : (String → String) → Option String → String → String
wanted_name trim_space none old = old
wanted_name trim_space (some text) old = trim_space text

-- The body as validation lets it pass.
pub record Proper (runes : String → ℕ) (trim_space : String → String) (body : PatchBody)
    : Type 0 where
  pub name :
      (text : String)
      → body.name ≡ some text
      → (trim_space text ≢ "") × (runes (trim_space text) ≤ 64)
  pub quota : (n : ℕ) → body.quota ≡ some n → n ≤ max_int64
  pub mode : (mode : String) → body.count_mode ≡ some mode → valid_count_mode mode ≡ true
  pub day : (day : ℤ) → body.reset_day ≡ some day → (n : ℕ) × (day ≡ pos n) × (1 ≤ n) × (n ≤ 31)

pub record Planned (runes : String → ℕ) (trim_space : String → String) (body : PatchBody) (now : ℕ)
    (name : String) (t : Traffic) (plan : Plan) : Type 0 where
  pub proper : Proper runes trim_space body
  pub named : plan.name ≡ wanted_name trim_space body.name name
  pub quota : plan.traffic.quota ≡ wanted body.quota t.quota
  pub mode : plan.traffic.count_mode ≡ wanted body.count_mode t.count_mode
  pub day : pos plan.traffic.reset_day ≡ wanted body.reset_day (pos t.reset_day)
  pub reset : plan.reset ≡ not (eqb plan.traffic.reset_day t.reset_day)
  pub cycle :
      plan.traffic.cycle_start
      ≡ (if plan.reset then cycle_start now plan.traffic.reset_day else t.cycle_start)

name_planned :
    (runes : String → ℕ) (trim_space : String → String) (body : Option String) (name after : String)
    → patch_name runes trim_space body name ≡ some after
    → (after ≡ wanted_name trim_space body name)
      × ((text : String)
          → body ≡ some text
          → (trim_space text ≢ "") × (runes (trim_space text) ≤ 64))
unfolding patch_name
name_planned runes trim_space none name after h =
    (ground (arith, h), λ text e. absurd (ground (arith, e)))
name_planned runes trim_space (some text) name after h = (
  ground (arith, h),
  λ other e.
      let same : text ≡ other = ground (arith, e) in
      rw (sym same) (
        (λ blank. absurd (ground (arith, h, (text_key.same_iff (trim_space text) "").1 blank))),
        ground (arith, h),
      ),
)

quota_planned :
    (body : Option ℕ) (t after : Traffic)
    → patch_quota body t ≡ some after
    → (after ≡ record t { quota = wanted body t.quota }) × ((n : ℕ) → body ≡ some n → n ≤ max_int64)
unfolding patch_quota
quota_planned none t after h = (ground (arith, h), λ n e. absurd (ground (arith, e)))
quota_planned (some n) t after h = (ground (arith, h), λ m e. ground (arith, h, e))

mode_planned :
    (body : Option String) (t after : Traffic)
    → patch_mode body t ≡ some after
    → (after ≡ record t { count_mode = wanted body t.count_mode })
      × ((mode : String) → body ≡ some mode → valid_count_mode mode ≡ true)
unfolding patch_mode
mode_planned none t after h = (ground (arith, h), λ n e. absurd (ground (arith, e)))
mode_planned (some mode) t after h = elim (Bool-cases (valid_count_mode mode)) [
  | inr bad ↦ absurd (ground (arith, (rw (patch_mode, bad) at h)))
  | inl good ↦
      let same : record t { count_mode = mode } ≡ after =
        ground (arith, (rw (patch_mode, good) at h)) in
      (sym same, λ other e. let is : mode ≡ other = ground (arith, e) in rw (sym is) good)
]

day_planned :
    (body : Option ℤ) (now : ℕ) (t after : Traffic) (reset : Bool)
    → patch_day body now t ≡ some (after, reset)
    → (after ≡ record t {
      reset_day = after.reset_day;
      cycle_start = if reset then cycle_start now after.reset_day else t.cycle_start;
    })
      × (pos after.reset_day ≡ wanted body (pos t.reset_day))
      × (reset ≡ not (eqb after.reset_day t.reset_day))
      × ((day : ℤ) → body ≡ some day → (n : ℕ) × (day ≡ pos n) × (1 ≤ n) × (n ≤ 31))
unfolding patch_day
day_planned none now t after reset h =
    let same : t ≡ after = ground (arith, h) in
    let kept : false ≡ reset = ground (arith, h) in
    simp (sym same, sym kept) (refl, refl, ground arith, λ day e. absurd (ground (arith, e)))
day_planned (some (negsuc n)) now t after reset h = absurd (ground (arith, h))
day_planned (some (pos day)) now t after reset h = elim (Bool-cases (ltb day 1 || ltb 31 day)) [
  | inl bad ↦ absurd (ground (arith, h, bad))
  | inr good ↦ elim (Bool-cases (eqb day t.reset_day)) [
    | inl same_day ↦
        let same : record t { reset_day = day } ≡ after = ground (arith, h, good, same_day) in
        let kept : false ≡ reset = ground (arith, h, good, same_day) in
        simp (sym same, sym kept) (refl, refl, rw same_day refl, bounds good)
    | inr new_day ↦
        let same : record t { reset_day = day; cycle_start = cycle_start now day } ≡ after =
          ground (arith, h, good, new_day) in
        let moved : true ≡ reset = ground (arith, h, good, new_day) in
        simp (sym same, sym moved) (refl, refl, rw new_day refl, bounds good)
  ]
]
  where
    bounds :
        (ltb day 1 || ltb 31 day) ≡ false
        → (other : ℤ) → some (pos day) ≡ some other
        → (n : ℕ) × (other ≡ pos n) × (1 ≤ n) × (n ≤ 31)
    bounds good other e =
        let is : pos day ≡ other = ground (arith, e) in
        (day, sym is, ground (arith, good), ground (arith, good))

pub plan_patch-Planned :
    (runes : String → ℕ) (trim_space : String → String) (body : PatchBody) (now : ℕ) (name : String)
    (t : Traffic) (plan : Plan)
    → plan_patch runes trim_space body now name t ≡ some plan
    → Planned runes trim_space body now name t plan
unfolding plan_patch
plan_patch-Planned runes trim_space body now name t plan h =
    elim (Option-cases (patch_name runes trim_space body.name name)) [
      | inl e ↦ absurd (ground (arith, (rw (plan_patch, e) at h)))
      | inr (name', e) ↦ elim (Option-cases (patch_quota body.quota t)) [
        | inl f ↦ absurd (ground (arith, (rw (plan_patch, e, f) at h)))
        | inr (t₁, f) ↦ elim (Option-cases (patch_mode body.count_mode t₁)) [
          | inl g ↦ absurd (ground (arith, (rw (plan_patch, e, f, g) at h)))
          | inr (t₂, g) ↦ elim (Option-cases (patch_day body.reset_day now t₂)) [
            | inl k ↦ absurd (ground (arith, (rw (plan_patch, e, f, g, k) at h)))
            | inr ((t₃, reset), k) ↦
                let (named, name_ok) = name_planned runes trim_space body.name name name' e in
                let (q, quota_ok) = quota_planned body.quota t t₁ f in
                let (m, mode_ok) = mode_planned body.count_mode t₁ t₂ g in
                let (d, day, moved, day_ok) = day_planned body.reset_day now t₂ t₃ reset k in
                let both =
                  m
                  ∙ ap
                      (λ (x : Traffic). record x {
                        count_mode = wanted body.count_mode x.count_mode;
                      })
                      q in
                let planned : some (record { name = name'; traffic = t₃; reset = reset })
                    ≡ some plan =
                  rw (plan_patch, e, f, g, k) at h in
                let same : record { name = name'; traffic = t₃; reset = reset } ≡ plan =
                  ground (arith, planned) in
                simp (sym same) (record {
                  proper = record {
                    name = name_ok;
                    quota = quota_ok;
                    mode = mode_ok;
                    day = day_ok;
                  };
                  named = named;
                  quota = ap Traffic.quota d ∙ ap Traffic.quota m ∙ ap Traffic.quota q;
                  mode =
                      ap Traffic.count_mode d
                      ∙ ap Traffic.count_mode m
                      ∙ ap (λ (x : Traffic). wanted body.count_mode x.count_mode) q;
                  day = day ∙ ap (λ (x : Traffic). wanted body.reset_day (pos x.reset_day)) both;
                  reset = moved ∙ ap (λ (x : Traffic). not (eqb t₃.reset_day x.reset_day)) both;
                  cycle =
                      ap Traffic.cycle_start d
                      ∙ ap
                          (λ (x : Traffic).
                            if reset then cycle_start now t₃.reset_day else x.cycle_start)
                          both;
                })
          ]
        ]
      ]
    ]

-- ===== src/Agent/Saved.antt =====
-- What Save, EnsureUUID and EnsureToken leave in the configuration and on the disk.
use dingzi.Base.{
  ◌≡◌, ◌⊎◌, inl, inr, refl, Bool, true, false, not, ◌||◌, Option, some, String, arith, text_key,
  ◌==◌, Bool-cases, Option-cases,
}
use dingzi.Agent.Config.{
  Config, Outside, Call, Disk, mkdir, marshals, create, chmod, write, sync, close, rename, save,
  ensure_uuid, ensure_token,
}

module _ {Float : Type 0} (x : Outside Float) where
  pub save-outcome :
      (works : Call → Bool) (c : Config Float) (disk : Disk)
      → ((save x works c disk).1 ≡ true) × ((save x works c disk).0.target ≡ some (x.marshal c))
        ⊎ ((save x works c disk).1 ≡ false) × ((save x works c disk).0.target ≡ disk.target)
  unfolding save
  save-outcome works c disk =
      elim (Bool-cases
        (c.path == "" || not (works mkdir) || not (works marshals) || not (works create))) [
          | inl early ↦ rw early (inr (refl, refl))
          | inr ready ↦
              elim (Bool-cases (
                not (works chmod)
                || not (works write)
                || not (works sync)
                || not (works close)
                || not (works rename))) [
                  | inl late ↦ rw (ready, late) (inr (refl, refl))
                  | inr fine ↦ rw (ready, fine) (inl (refl, refl))
                ]
        ]

  save-done :
      (works : Call → Bool) (c : Config Float) (disk : Disk)
      → (save x works c disk).1 ≡ true
      → (save x works c disk).0.target ≡ some (x.marshal c)
  save-done works c disk done = elim (save-outcome works c disk) [
    | inl (_, target) ↦ target
    | inr (failed, _) ↦ absurd (ground (arith, done, failed))
  ]

  pub ensure_uuid-cases :
      (fresh : String) (works : Call → Bool) (c : Config Float) (disk : Disk)
      → (c.path == "") ≡ false
      → (ensure_uuid x fresh works c disk).3 ≡ true
      → ((c.uuid == "") ≡ false)
          × ((ensure_uuid x fresh works c disk).0 ≡ c)
          × ((ensure_uuid x fresh works c disk).1 ≡ disk)
        ⊎ ((c.uuid == "") ≡ true)
          × ((ensure_uuid x fresh works c disk).0 ≡ record c { uuid = fresh })
          × ((ensure_uuid x fresh works c disk).1.target
              ≡ some (x.marshal (record c { uuid = fresh })))
  unfolding ensure_uuid
  ensure_uuid-cases fresh works c disk kept done = elim (Bool-cases (c.uuid == "")) [
    | inr has ↦ rw has (inl (refl, refl, refl))
    | inl lacks ↦
        let done' = rw (lacks, kept, ensure_uuid) at done in
        rw (lacks, kept) (inr (refl, refl, save-done works (record c { uuid = fresh }) disk done'))
  ]

  pub ensure_token-cases :
      (random : Option String) (works : Call → Bool) (c : Config Float) (disk : Disk)
      → (c.path == "") ≡ false
      → (ensure_token x random works c disk).2 ≡ true
      → ((ensure_token x random works c disk).0 ≡ c)
          × ((ensure_token x random works c disk).1 ≡ disk)
        ⊎ ((ensure_token x random works c disk).0.uuid ≡ c.uuid)
          × ((ensure_token x random works c disk).1.target
              ≡ some (x.marshal (ensure_token x random works c disk).0))
  unfolding ensure_token
  ensure_token-cases random works c disk kept done = elim (Bool-cases (c.token == "")) [
    | inr has ↦ elim (Option-cases (x.decoded_length c.token)) [
      | inl bad ↦ let done' = rw (has, bad, ensure_token) at done in absurd (ground (arith, done'))
      | inr (n, e) ↦ rw (has, e) (inl (refl, refl))
    ]
    | inl lacks ↦ elim (Option-cases random) [
      | inl bad ↦
          let done' = rw (lacks, bad, ensure_token) at done in absurd (ground (arith, done'))
      | inr (token, e) ↦
          let done' = rw (lacks, e, kept, ensure_token) at done in
          rw (lacks, e, kept) (inr (refl, save-done works (record c { token = token }) disk done'))
    ]
  ]

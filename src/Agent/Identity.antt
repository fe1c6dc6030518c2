-- ===== src/Agent/Identity.antt =====
-- The identity of the machine over a restart of the agent.
use dingzi.Base.{
  not, ◌&&◌, ℕ, ◌≡◌, ◌⊎◌, inl, inr, refl, Bool, true, false, Option, none, some, String, arith,
  text_key, ◌==◌, Bool-cases, Option-cases, ap, sym, ◌∙◌,
}
use dingzi.Agent.Config.{
  Config, Outside, FileRead, Call, Disk, contents, not_exist, layer, apply_env, apply_override,
  default_config, read_config, load_config, settle, ensure_uuid, save_again, ensure_token, identify,
}
use dingzi.Agent.Saved.{save-outcome, ensure_uuid-cases, ensure_token-cases}

layer_again : (v w old : String) → layer w (layer v (layer w (layer v old))) ≡ layer w (layer v old)
unfolding layer
layer_again v w old = ground arith

layer_unset :
    (v w old fresh : String)
    → (layer w (layer v old) == "") ≡ true
    → layer w (layer v fresh) ≡ fresh
unfolding layer
layer_unset v w old fresh h = ground arith

abbrev pub file_of : Option String → FileRead
file_of none = not_exist
file_of (some text) = contents text

module _ {Float : Type 0} (x : Outside Float) where
  load-settle :
      (path : String) (override : Config Float) (file : FileRead) (c : Config Float)
      → load_config x path override file ≡ some c
      → (read : Config Float) × (read_config x path file ≡ some read)
        × (c ≡ settle x path override read)
  unfolding load_config
  load-settle path override file c h = elim (Option-cases (read_config x path file)) [
    | inl none_ ↦ absurd (ground (arith, (rw (load_config, none_) at h)))
    | inr (read, e) ↦
        let same : settle x path override read ≡ c = ground (arith, (rw (load_config, e) at h)) in
        (read, e, sym same)
  ]

  settle-uuid :
      (path : String) (override read : Config Float)
      → (settle x path override read).uuid
        ≡ layer override.uuid (layer (x.getenv "DINGZI_UUID") read.uuid)
  unfolding settle apply_env apply_override
  settle-uuid path override read = refl

  settle-token :
      (path : String) (override read : Config Float)
      → (settle x path override read).token ≡ read.token
  unfolding settle apply_env apply_override
  settle-token path override read = refl

  settle-path :
      (path : String) (override read : Config Float) → (settle x path override read).path ≡ path
  unfolding settle apply_env apply_override
  settle-path path override read = refl

  -- A uuid over which the flags and the environment put nothing else.
  abbrev Settled : Config Float → String → Type 0
  Settled override u = layer override.uuid (layer (x.getenv "DINGZI_UUID") u) ≡ u

  layered-Settled :
      (override : Config Float) (u old : String)
      → u ≡ layer override.uuid (layer (x.getenv "DINGZI_UUID") old)
      → Settled override u
  layered-Settled override u old same =
      ap (λ k. layer override.uuid (layer (x.getenv "DINGZI_UUID") k)) same
      ∙ layer_again (x.getenv "DINGZI_UUID") override.uuid old
      ∙ sym same

  unset-Settled :
      (override : Config Float) (u old fresh : String)
      → u ≡ layer override.uuid (layer (x.getenv "DINGZI_UUID") old)
      → (u == "") ≡ true
      → Settled override fresh
  unset-Settled override u old fresh same lacks =
      layer_unset (x.getenv "DINGZI_UUID") override.uuid old fresh (rw same at lacks)

  abbrev pub Restarted : String → Config Float → Config Float → Disk → Type 0
  Restarted path override c disk =
      (c' : Config Float) × (load_config x path override (file_of disk.target) ≡ some c')
      × (c'.uuid ≡ c.uuid)
      × (c'.token ≡ c.token)

  reload :
      (path : String) (override c : Config Float) (disk : Disk)
      → (path == "") ≡ false
      → disk.target ≡ some (x.marshal c)
      → x.unmarshal (x.marshal c) (default_config x path) ≡ some c
      → Settled override c.uuid
      → Restarted path override c disk
  unfolding load_config read_config
  reload path override c disk kept saved yaml fixed = (
    settle x path override c,
    rw (saved, load_config, read_config, kept, yaml) refl,
    settle-uuid path override c ∙ fixed,
    settle-token path override c,
  )

  uuid-kept :
      (path : String) (override c : Config Float) (disk : Disk) (fresh : String)
      (works : Call → Bool)
      → (path == "") ≡ false
      → load_config x path override (file_of disk.target) ≡ some c
      → (ensure_uuid x fresh works c disk).3 ≡ true
      → let after = (ensure_uuid x fresh works c disk).0 in
        let disk' = (ensure_uuid x fresh works c disk).1 in
        (after.path ≡ path)
        × Settled override after.uuid
        × ((load_config x path override (file_of disk'.target) ≡ some after)
            ⊎ (disk'.target ≡ some (x.marshal after)))
  uuid-kept path override c disk fresh works kept loaded done =
      let (read, _, same) = load-settle path override (file_of disk.target) c loaded in
      let at_path : c.path ≡ path = rw same (settle-path path override read) in
      let named = ap (λ k. k.uuid) same ∙ settle-uuid path override read in
      let kept' : (c.path == "") ≡ false = rw at_path kept in
      elim (ensure_uuid-cases x fresh works c disk kept' done) [
        | inl (has, same_config, same_disk) ↦
            rw (same_config, same_disk)
              (at_path, layered-Settled override c.uuid read.uuid named, inl loaded)
        | inr (lacks, new, saved) ↦
            rw (new, saved)
              (at_path, unset-Settled override c.uuid read.uuid fresh named lacks, inr refl)
      ]

  -- What a start would read from a disk is the configuration in use.
  abbrev Stored : String → Config Float → Config Float → Disk → Type 0
  Stored path override c disk =
      (load_config x path override (file_of disk.target) ≡ some c)
      ⊎ (disk.target ≡ some (x.marshal c))

  save_again-Stored :
      (path : String) (override c : Config Float) (disk : Disk) (is_new : Bool)
      (works : Call → Bool)
      → Stored path override c disk
      → Stored path override c (save_again x is_new works c disk)
  save_again-Stored path override c disk is_new works stored =
      elim (Bool-cases (is_new && not (c.path == ""))) [
        | inr stays ↦ rw stays stored
        | inl saves ↦ elim (save-outcome x works c disk) [
          | inl (_, target) ↦ rw saves (inr target)
          | inr (_, target) ↦ rw (saves, target) stored
        ]
      ]

  token-Restarted :
      (path : String) (override c : Config Float) (disk : Disk) (random : Option String)
      (works : Call → Bool)
      → (path == "") ≡ false
      → c.path ≡ path
      → Settled override c.uuid
      → Stored path override c disk
      → (ensure_token x random works c disk).2 ≡ true
      → let (proved, after, _) = ensure_token x random works c disk in
        x.unmarshal (x.marshal proved) (default_config x path) ≡ some proved
        → Restarted path override proved after
  token-Restarted path override c disk random works kept at_path fixed stored done yaml =
      let proved = (ensure_token x random works c disk).0 in
      let after = (ensure_token x random works c disk).1 in
      let kept' : (c.path == "") ≡ false = rw at_path kept in
      elim (ensure_token-cases x random works c disk kept' done) [
        | inl (same, same_disk) ↦ elim stored [
          | inl again ↦ rw (same, same_disk) (c, again, refl, refl)
          | inr saved ↦
              let yaml' = rw same at yaml in
              rw (same, same_disk) (reload path override c disk kept saved yaml' fixed)
        ]
        | inr (same, saved) ↦ reload path override proved after kept saved yaml (rw same fixed)
      ]

  identify-cases :
      (c : Config Float) (disk : Disk) (fresh : String) (random : Option String)
      (works : ℕ → Call → Bool)
      → (identify x fresh random works c disk).2 ≡ true
      → let (named, disk', is_new, done) = ensure_uuid x fresh (works 0) c disk in
        (done ≡ true)
        × (identify x fresh random works c disk
            ≡ ensure_token x random (works 2) named (save_again x is_new (works 1) named disk'))
  unfolding identify
  identify-cases c disk fresh random works h =
      elim (Bool-cases (ensure_uuid x fresh (works 0) c disk).3) [
        | inl done ↦ (done, rw done refl)
        | inr failed ↦ absurd (ground (arith, (rw (identify, failed) at h)))
      ]

  -- An agent with a file: its configuration is loaded and its identity ensured without an error, and it
  -- is started again with the same flags and environment. When yaml reads back the configuration in
  -- use, the second run loads the uuid and the token of the first, whatever became of the Save of
  -- main.go in between.
  pub identify-Restarted :
      (path : String) (override c : Config Float) (disk : Disk) (fresh : String)
      (random : Option String) (works : ℕ → Call → Bool)
      → (path == "") ≡ false
      → load_config x path override (file_of disk.target) ≡ some c
      → (identify x fresh random works c disk).2 ≡ true
      → (let used = (identify x fresh random works c disk).0 in
          x.unmarshal (x.marshal used) (default_config x path) ≡ some used)
      → let (used, after, _) = identify x fresh random works c disk in
        Restarted path override used after
  identify-Restarted path override c disk fresh random works kept loaded h yaml =
      let (done, same) = identify-cases c disk fresh random works h in
      let (named, disk', is_new, _) = ensure_uuid x fresh (works 0) c disk in
      let (at_path, fixed, stored) =
        uuid-kept path override c disk fresh (works 0) kept loaded done in
      let stored' = save_again-Stored path override named disk' is_new (works 1) stored in
      let h' = rw same at h in
      let yaml' = rw same at yaml in
      rw same (
        token-Restarted path override named (save_again x is_new (works 1) named disk') random
          (works 2) kept at_path fixed stored' h' yaml')

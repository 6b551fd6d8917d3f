-- ===== src/Config/Resaved.antt =====
-- What is loaded from a file that a save has written, with the migration of src/lib.rs.
use wintermute_brain.Prelude.Paths.{PathBuf, parent}
use wintermute_brain.Prelude.{
  ℕ, Bool, true, false, ◌≡◌, refl, sym, subst, ◌∙◌, inl, inr, List, [], ◌∷◌, Option, none, some,
  Text, codes, text_eq, text_eq_iff, Result, ok, err, Bool-cases, Option-cases, ◌||◌, arith,
}
use wintermute_brain.Tiers.{any_eq}
use wintermute_brain.Config.{
  Float64, BrainError, Environment, Config, validate, allowed_model_names, legacy_model_to_tier,
  apply_legacy_tier_backcompat,
}
use wintermute_brain.Config.Files.{
  Disk, Calls, Saved, dir, Toml, write_and_rename, while_writing, raw_has_top_level_key, config_of,
  load_from_file, save_to_file,
}
use wintermute_brain.Config.Atomic.{after, Ends, save_to_file-Atomic}
use wintermute_brain.Config.Reload.{no_failure}

haiku_known : any_eq allowed_model_names (codes "haiku") ≡ true
unfolding any_eq text_eq
haiku_known = refl

sonnet_known : any_eq allowed_model_names (codes "sonnet") ≡ true
unfolding any_eq text_eq
sonnet_known = refl

opus_known : any_eq allowed_model_names (codes "opus") ≡ true
unfolding any_eq text_eq
opus_known = refl

local_known : any_eq allowed_model_names (codes "local-3b") ≡ true
unfolding any_eq text_eq
local_known = refl

nothing : {t : Text} → ¬ (◌≡◌ {A = Option Text} none (some t))
nothing e = absurd (ground arith)

unsaved : {e : BrainError} → ¬ (◌≡◌ {A = Result BrainError (Unit {0})} (err e) (ok tt))
unsaved h = absurd (ground arith)

same_ok : {a b : Text} → ◌≡◌ {A = Result Text Text} (ok a) (ok b) → a ≡ b
same_ok e = ground arith

same_some : {a b : Text} → ◌≡◌ {A = Option Text} (some a) (some b) → a ≡ b
same_some e = ground arith

known-tier :
    (tier other : Text)
    → any_eq allowed_model_names tier ≡ true
    → ◌≡◌ {A = Option Text} (some tier) (some other)
    → any_eq allowed_model_names other ≡ true
known-tier tier other known e = subst (λ t. any_eq allowed_model_names t ≡ true) (same_some e) known

-- A tier of a legacy model is a known name.
legacy_model_to_tier-known :
    (model tier : Text)
    → legacy_model_to_tier model ≡ some tier
    → any_eq allowed_model_names tier ≡ true
unfolding legacy_model_to_tier
legacy_model_to_tier-known model tier e =
    elim (Bool-cases (text_eq model (codes "haiku") || text_eq model (codes "claude-haiku-4-5"))) [
      | inl haiku ↦ known-tier (codes "haiku") tier haiku_known (rw haiku at e)
      | inr other ↦
          elim (Bool-cases
            (text_eq model (codes "sonnet") || text_eq model (codes "claude-sonnet-4-6"))) [
              | inl sonnet ↦
                  known-tier (codes "sonnet") tier sonnet_known (rw sonnet at (rw other at e))
              | inr other' ↦
                  elim (Bool-cases
                    (text_eq model (codes "opus") || text_eq model (codes "claude-opus-4-8"))) [
                      | inl opus ↦
                          known-tier (codes "opus") tier opus_known
                            (rw opus at (rw other' at (rw other at e)))
                      | inr none' ↦ absurd (nothing (rw none' at (rw other' at (rw other at e))))
                    ]
            ]
    ]

module _ (f : Float64) (toml : Toml (Config f)) where
  open toml use {to_string_pretty, from_str}

  validate-with_tier :
      (c : Config f) (tier : Text)
      → any_eq allowed_model_names c.default_tier ≡ true
      → any_eq allowed_model_names tier ≡ true
      → validate f (record c { default_tier = tier }) ≡ validate f c
  unfolding validate
  validate-with_tier c tier was is = rw (was, is) refl

  -- What a load makes of a text that is parsed as this configuration: the configuration itself; or, where the
  -- text has no key `default_tier` and the tier is the built-in one, the configuration with the tier of
  -- its legacy model.
  pub data Reloads (c : Config f) (text : Text) : Result BrainError (Config f) → Type 0 where
    as_saved : {r : Result BrainError (Config f)} → r ≡ ok c → Reloads c text r
    migrated :
        (tier : Text) {r : Result BrainError (Config f)}
        → raw_has_top_level_key f toml text (codes "default_tier") ≡ false
        → text_eq c.default_tier (codes "local-3b") ≡ true
        → legacy_model_to_tier c.default_model ≡ some tier
        → r ≡ ok (record c { default_tier = tier })
        → Reloads c text r

  config_of-Reloads :
      (env : Environment) (path : PathBuf) (c : Config f) (text : Text)
      → from_str env text ≡ ok c
      → validate f c ≡ ok tt
      → Reloads c text (config_of f toml env path text)
  unfolding config_of apply_legacy_tier_backcompat
  config_of-Reloads env path c text parsed valid =
      elim (Bool-cases (raw_has_top_level_key f toml text (codes "default_tier"))) [
        | inl has_key ↦ as_saved (rw parsed (rw has_key (rw valid refl)))
        | inr no_key ↦ elim (Bool-cases (text_eq c.default_tier (codes "local-3b"))) [
          | inr chosen ↦ as_saved (rw parsed (rw no_key (rw chosen (rw valid refl))))
          | inl built_in ↦ elim (Option-cases (legacy_model_to_tier c.default_model)) [
            | inl other ↦ as_saved (rw parsed (rw no_key (rw built_in (rw other (rw valid refl)))))
            | inr (tier, legacy) ↦
                let was : any_eq allowed_model_names c.default_tier ≡ true =
                  subst (λ t. any_eq allowed_model_names t ≡ true)
                    (sym ((text_eq_iff c.default_tier (codes "local-3b")).0 built_in))
                    local_known in
                let valid' : validate f (record c { default_tier = tier }) ≡ ok tt =
                  validate-with_tier c tier was
                    (legacy_model_to_tier-known c.default_model tier legacy)
                  ∙ valid in
                migrated tier no_key built_in legacy
                  (rw parsed (rw no_key (rw built_in (rw legacy (rw valid' refl)))))
          ]
        ]
      ]

  saved-Reloads :
      (env : Environment) (path : PathBuf) (d e : Disk) (c : Config f) (text : Text)
      → Reloads c text (config_of f toml env path text)
      → (r : Result BrainError (Unit {0})) → r ≡ ok tt
      → Ends path d text r e
      → Reloads c text (load_from_file f toml env none path e)
  unfolding load_from_file
  saved-Reloads env path d e c text back (ok done) ok' ends = rw ends back
  saved-Reloads env path d e c text back (err cause) ok' ends = cc

  ended-Reloads :
      (env : Environment) (calls : Calls) (path : PathBuf) (d : Disk) (c : Config f) (text : Text)
      → to_string_pretty c ≡ ok text
      → Reloads c text (config_of f toml env path text)
      → (save_to_file f toml calls path d c).0 ≡ ok tt
      → Reloads c text
          (load_from_file f toml env none path (after d (save_to_file f toml calls path d c).1))
  ended-Reloads env calls path d c text printed back saved =
      elim (save_to_file-Atomic f toml calls path d c) [
        | inl (e, failed) ↦ absurd (unsaved (rw failed at saved))
        | inr (text', valid, printed', atomic) ↦
            let same : text' ≡ text = same_ok (sym printed' ∙ printed) in
            saved-Reloads env path d _ c text back _ saved (
              subst
                (λ t.
                  Ends path d t (save_to_file f toml calls path d c).0
                    (after d (save_to_file f toml calls path d c).1))
                same atomic.1)
      ]

  while_writing-result :
      (ns : List ℕ) (tmp : PathBuf) (text : Text) (d : Disk) (next : Saved)
      → (while_writing ns tmp text d next).0 ≡ next.0
  unfolding while_writing
  while_writing-result [] tmp text d next = refl
  while_writing-result (n ∷ ns) tmp text d next = while_writing-result ns tmp text d next

  dir-none : (has_root : Bool) (components : List Text) → dir has_root components none ≡ none
  dir-none false [] = refl
  dir-none false (t ∷ ts) = refl
  dir-none true components = refl

  -- A valid configuration that has a text, on a path that has a parent, where `toml` parses that text as the
  -- configuration: when no call fails, it is saved, and a load afterwards succeeds. What is loaded is the
  -- configuration; or else the text has no key `default_tier`, the tier is the built-in one and the model
  -- a legacy one, and what is loaded has the tier of that model and is the same otherwise.
  pub save_to_file-load_from_file :
      (env : Environment) (written : List ℕ) (path p : PathBuf) (d : Disk) (c : Config f)
      (text : Text)
      → validate f c ≡ ok tt
      → to_string_pretty c ≡ ok text
      → parent path ≡ some p
      → from_str env text ≡ ok c
      → ((save_to_file f toml (no_failure written) path d c).0 ≡ ok tt)
        × Reloads c text (
            load_from_file f toml env none path
              (after d (save_to_file f toml (no_failure written) path d c).1))
  unfolding save_to_file write_and_rename
  save_to_file-load_from_file env written path p d c text valid printed has_parent parsed =
      let saved : (save_to_file f toml (no_failure written) path d c).0 ≡ ok tt = rw valid (
        rw printed (
          rw has_parent
            (rw (dir-none p.has_root p.components) (while_writing-result written _ text d _)))) in
      (
        saved,
        ended-Reloads env (no_failure written) path d c text printed
            (config_of-Reloads env path c text parsed valid) saved,
      )

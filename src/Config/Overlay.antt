-- ===== src/Config/Overlay.antt =====
-- The variables of the environment that `load_effective` of src/main.rs heeds.
use wintermute_brain.Prelude.Paths.{PathBuf}
use wintermute_brain.Prelude.{
  true, false, ◌≡◌, refl, sym, subst, ap, ◌∙◌, inl, inr, List, [], ◌∷◌, Option, none, some, Text,
  codes, All, Result, ok, err, ◌>>=◌, Result-cases, Option-cases,
}
use wintermute_brain.Session.{default_idle_gap_ms}
use wintermute_brain.Config.{
  Float64, Environment, Config, env_string, nix_uid, default_recall_sock, default_config,
  validate_model_name,
}
use wintermute_brain.Config.Env.{bool_var, u64_var, f64_var, text_var, path_or, from_env}
use wintermute_brain.Config.Files.{Disk, Toml, load_from_file, config_of}
use wintermute_brain.Config.Cli.{overlaid, load_effective}

abbrev pub heeded : List Text
heeded =
    codes "XDG_RUNTIME_DIR"
    ∷ codes "UID"
    ∷ codes "WM_BRAIN_DEFAULT_MODEL"
    ∷ codes "WM_BRAIN_RECALL_SOCK"
    ∷ codes "WM_USER_NAME"
    ∷ codes "WM_TIMEZONE"
    ∷ codes "WM_BRAIN_CHILD_LOCK"
    ∷ []

abbrev pub AgreeOn : List Text → Environment → Environment → Type 0
AgreeOn vars env env' = All (λ (var : Text). env var ≡ env' var) vars

abbrev WhenOk : {E A : Type 0} → (A → Type 0) → Result E A → Type 0
WhenOk P (ok a) = P a
WhenOk P (err e) = Unit {0}

WhenOk-bind :
    {E A B : Type 0} (P : B → Type 0) (r : Result E A) (k : A → Result E B)
    → ((a : A) → r ≡ ok a → WhenOk P (k a))
    → WhenOk P (r >>= k)
WhenOk-bind P (ok a) k h = h a refl
WhenOk-bind P (err e) k h = tt

ok-WhenOk : {E A : Type 0} (P : A → Type 0) (r : Result E A) (a : A) → WhenOk P r → r ≡ ok a → P a
ok-WhenOk P r a h e = subst (WhenOk P) e h

ok-injective : {E A : Type 0} (a b : A) → ◌≡◌ {A = Result E A} (ok a) (ok b) → a ≡ b
ok-injective a b h = cc

module _ (f : Float64) where
  -- What `load_effective` reads of the environment's configuration.
  record Heeds (env : Environment) (c : Config f) : Type 0 where
    model : c.default_model ≡ text_var f env (codes "WM_BRAIN_DEFAULT_MODEL") (codes "sonnet")
    sock :
        c.recall_sock
        ≡ path_or (default_recall_sock env) (env_string env (codes "WM_BRAIN_RECALL_SOCK"))
    name : c.user_name ≡ env_string env (codes "WM_USER_NAME")
    zone : c.timezone ≡ env_string env (codes "WM_TIMEZONE")
    lock : bool_var f env (codes "WM_BRAIN_CHILD_LOCK") false ≡ ok c.child_lock

  from_env-Heeds : (env : Environment) → WhenOk (Heeds env) (from_env f env)
  unfolding from_env
  from_env-Heeds env =
      WhenOk-bind (Heeds env)
        (validate_model_name (text_var f env (codes "WM_BRAIN_DEFAULT_MODEL") (codes "sonnet"))) _
        (λ v h.
          WhenOk-bind (Heeds env) (bool_var f env (codes "WM_BRAIN_CHILD_LOCK") false) _
            (λ child_lock lock.
              WhenOk-bind (Heeds env) (bool_var f env (codes "WM_BRAIN_ALMANAC_SPEAK") true) _
                (λ a1 h1.
                  WhenOk-bind (Heeds env)
                    (bool_var f env (codes "WM_BRAIN_WRITEBACK_AUTO_COMMIT") false) _
                    (λ a2 h2.
                      WhenOk-bind (Heeds env)
                        (f64_var f env (codes "WM_BRAIN_WRITEBACK_CONFIDENCE_FLOOR") f.one_half) _
                        (λ a3 h3.
                          WhenOk-bind (Heeds env)
                            (u64_var f env (codes "WM_BRAIN_IDLE_GAP_MS") default_idle_gap_ms) _
                            (λ a4 h4.
                              WhenOk-bind (Heeds env)
                                (u64_var f env (codes "WM_BRAIN_RECAP_MAX_MEMORIES") 5) _
                                (λ a5 h5.
                                  WhenOk-bind (Heeds env)
                                    (bool_var f env (codes "WM_BRAIN_RECAP_OPENER") false) _
                                    (λ a6 h6. record {
                                      model = refl;
                                      sock = refl;
                                      name = refl;
                                      zone = refl;
                                      lock = lock;
                                    }))))))))

  module _ (env env' : Environment) (agree : AgreeOn heeded env env') where
    env_string-agree : (var : Text) → env var ≡ env' var → env_string env var ≡ env_string env' var
    unfolding env_string
    env_string-agree var same = rw same refl

    sock-agree : default_recall_sock env ≡ default_recall_sock env'
    unfolding default_recall_sock nix_uid
    sock-agree =
        let (xdg, (uid, _)) = agree in
        rw (env_string-agree (codes "XDG_RUNTIME_DIR") xdg) (rw uid refl)

    overlaid-agree :
        (toml : Toml (Config f)) (cfg e e' : Config f) (cli_sock : Option PathBuf) (key : Text)
        → Heeds env e
        → Heeds env' e'
        → overlaid f toml cfg e (default_config f env) cli_sock key
          ≡ overlaid f toml cfg e' (default_config f env') cli_sock key
    unfolding overlaid default_config text_var bool_var
    overlaid-agree toml cfg e e' cli_sock key h h' =
        let (_, (_, (model, (sock, (name, (zone, (lock, _))))))) = agree in
        let models : e.default_model ≡ e'.default_model =
          h.model ∙ rw (env_string-agree (codes "WM_BRAIN_DEFAULT_MODEL") model) (sym h'.model) in
        let socks : e.recall_sock ≡ e'.recall_sock =
          h.sock
          ∙ rw sock-agree
              (rw (env_string-agree (codes "WM_BRAIN_RECALL_SOCK") sock) (sym h'.sock)) in
        let names : e.user_name ≡ e'.user_name =
          h.name ∙ env_string-agree (codes "WM_USER_NAME") name ∙ sym h'.name in
        let zones : e.timezone ≡ e'.timezone =
          h.zone ∙ env_string-agree (codes "WM_TIMEZONE") zone ∙ sym h'.zone in
        let locks : e.child_lock ≡ e'.child_lock =
          ok-injective _ _
            (sym h.lock ∙ rw (env_string-agree (codes "WM_BRAIN_CHILD_LOCK") lock) h'.lock) in
        rw models (rw socks (rw names (rw zones (rw locks (rw sock-agree refl)))))

    default_config-agree : default_config f env ≡ default_config f env'
    unfolding default_config
    default_config-agree = rw sock-agree refl

    module _ (toml : Toml (Config f))
        (reads : (raw : Text) → toml.from_str env raw ≡ toml.from_str env' raw) where
      load_from_file-agree :
          (unreadable : Option Text) (path : PathBuf) (d : Disk)
          → load_from_file f toml env unreadable path d
            ≡ load_from_file f toml env' unreadable path d
      unfolding load_from_file config_of
      load_from_file-agree (some source) path d = refl
      load_from_file-agree none path d = elim (Option-cases (d path)) [
        | inl absent ↦ rw absent (ap (λ (c : Config f). ok c) default_config-agree)
        | inr (raw, found) ↦ rw found (rw (reads raw) refl)
      ]

      -- Of two environments that `from_env` accepts and that agree on these seven variables, `wmd start`
      -- makes the same configuration, or the same error: no other variable that `from_env` reads has an
      -- effect. `toml` gives the same for both.
      pub load_effective-agree :
          (e e' : Config f)
          → from_env f env ≡ ok e
          → from_env f env' ≡ ok e'
          → (unreadable : Option Text) (path : PathBuf) (cli_sock : Option PathBuf) (key : Text)
            (d : Disk)
          → load_effective f toml env unreadable path cli_sock key d
            ≡ load_effective f toml env' unreadable path cli_sock key d
      unfolding load_effective
      load_effective-agree e e' accepted accepted' unreadable path cli_sock key d = rw accepted (
          rw accepted' (
            rw (load_from_file-agree unreadable path d)
              (elim (Result-cases (load_from_file f toml env' unreadable path d)) [
                | inr (cause, failed) ↦ rw failed refl
                | inl (cfg, loaded) ↦ rw loaded (
                    rw
                      (overlaid-agree toml cfg e e' cli_sock key
                        (ok-WhenOk (Heeds env) (from_env f env) e (from_env-Heeds env) accepted)
                        (ok-WhenOk (Heeds env') (from_env f env') e' (from_env-Heeds env')
                          accepted'))
                      refl)
              ])))

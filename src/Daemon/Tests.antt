-- ===== src/Daemon/Tests.antt =====
-- A turn of src/daemon.rs after a long silence, with a pending model and with another history.
use wintermute_brain.Config.{effective_model, default_config, consume_pending, consume_pending_tier}
use wintermute_brain.Config.Tests.{
  Plain, bare_environment, whole_numbers, named_toml, first_config, config_path, no_files,
  full_disk,
}
use wintermute_brain.Session.{SessionStartPayload, new_session, advance, session_id_for}
use wintermute_brain.History.{History}
use wintermute_brain.Turn.Tests.{float, world, brain, turn}
use wintermute_brain.Daemon.{DaemonState, Outside, turn_user, consumed, had_pending, dispatch}
use wintermute_brain.Tiers.{any_eq}
use wintermute_brain.Config.Files.{Toml, raw_has_top_level_key}
use wintermute_brain.Config.Reload.{ReadsBack}
use wintermute_brain.Daemon.Restart.{Restarts, dispatch-Restarts}
use wintermute_brain.Daemon.Pending.{pending_in, chosen, SameTurn, dispatch-pending}
use wintermute_brain.Daemon.Sessions.{with_history, OnlyThis, dispatch-new_session}
use wintermute_brain.Prelude.{ℕ, ◌≡◌, refl, [], ◌∷◌, none, some, true, Text, codes, text_eq, ok}

abbrev outside : Outside ℕ float whole_numbers
outside = record {
  w = world;
  toml = named_toml;
  calls = full_disk;
  search = λ limit. none;
  router = λ tool args. record { ok = true; body = args };
  child_guard = [];
  gate_guard = [];
}

abbrev waiting : DaemonState ℕ float whole_numbers
waiting = record {
  brain = brain;
  session_tracker = record { current = none; idle_gap_ms = 300000; end_phrases = [] };
  config = record first_config {
    pending_model = some (codes "opus");
    pending_tier = some (codes "opus");
  };
  config_path = some config_path;
  disk = no_files;
  persona = codes "You are kind.";
  recap_context = none;
  session_thread_query_count = 0;
}

-- Every file holds the configuration with no pending choice.
abbrev reading_toml : Toml Plain
reading_toml = record {
  to_string_pretty = λ c. ok c.default_model;
  from_str = λ env raw. ok first_config;
  Value = Text;
  value_from_str = λ raw. ok raw;
  as_table = λ v. some (codes "default_tier" ∷ []);
}

abbrev restarting : Outside ℕ float whole_numbers
restarting = record outside { toml = reading_toml }

abbrev long_ago : History
long_ago = record {
  turns = record { user = codes "hello"; assistant = codes "Hi."; ts = 1 } ∷ [];
  max_turns = 4;
}

dispatch-pending_example :
    ((dispatch outside (turn_user turn) 900000 waiting).0.config.pending_model ≡ none)
    × ((dispatch outside (turn_user turn) 900000 waiting).0.config.pending_tier ≡ none)
    × (effective_model whole_numbers (dispatch outside (turn_user turn) 900000 waiting).0.config
        ≡ codes "sonnet")
    × SameTurn
        (dispatch outside
          (turn_user turn)
          900000
          (pending_in (some (codes "opus")) (some (codes "haiku")) waiting))
        (dispatch outside (turn_user turn) 900000 (chosen none none (codes "opus") waiting))
    × (dispatch outside
          (turn_user turn)
          900000
          (pending_in (some (codes "opus")) (some (codes "haiku")) waiting)
        ≡ dispatch outside (turn_user turn) 900000 (pending_in (some (codes "opus")) none waiting))
unfolding default_config
dispatch-pending_example =
    dispatch-pending outside turn 900000 (codes "opus") (some (codes "haiku")) waiting

abbrev opened : SessionStartPayload
opened = record { session_id = session_id_for 900000; ts = 900000 }

waiting-opens : (advance waiting.session_tracker 900000).1 ≡ new_session none opened
unfolding advance
waiting-opens = refl

world-answers : ¬ ((world.ladder ≡ none) × (world.llm ≡ none))
world-answers (no_ladder, no_client) = cc

dispatch-new_session_example :
    (dispatch outside (turn_user turn) 900000 (with_history long_ago waiting)
      ≡ dispatch outside (turn_user turn) 900000 waiting)
    × OnlyThis turn.transcript 900000
        (dispatch outside (turn_user turn) 900000 waiting).0.brain.history
dispatch-new_session_example =
    dispatch-new_session outside turn 900000 long_ago waiting none opened world-answers
      waiting-opens

consumed-ReadsBack :
    ReadsBack whole_numbers reading_toml bare_environment (consumed whole_numbers waiting.config)
unfolding ReadsBack raw_has_top_level_key any_eq text_eq consumed consume_pending
    consume_pending_tier default_config
consumed-ReadsBack text printed = (refl, refl)

dispatch-Restarts_example :
    Restarts bare_environment restarting config_path no_files
      (consumed whole_numbers waiting.config)
      (dispatch restarting (turn_user turn) 900000 waiting)
unfolding had_pending
dispatch-Restarts_example =
    dispatch-Restarts bare_environment restarting turn 900000 config_path waiting refl refl
      consumed-ReadsBack

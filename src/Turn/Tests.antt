-- ===== src/Turn/Tests.antt =====
-- A turn of a user on a concrete ladder, whose only rung says a forbidden word.
use wintermute_brain.Cache.{Float, Faults}
use wintermute_brain.Bus.{Sink, publish}
use wintermute_brain.Writeback.{new_writeback}
use wintermute_brain.Redline.{
  RedlineAction, regenerate, is_active, normalise, scan, search_from, is_word,
}
use wintermute_brain.Redline.Enforce.{starts_ascii, Clean}
use wintermute_brain.Router.{auto}
use wintermute_brain.Tiers
use wintermute_brain.Tiers.{local}
use wintermute_brain.Ladder.{LadderClient, MessageRequest, answered, accept, ordinary, new_floor}
use wintermute_brain.Prelude.Unicode.{ascii, is_empty, trim, is_whitespace}
use wintermute_brain.Prelude.{
  ℕ, ◌≡◌, refl, true, false, List, [], ◌∷◌, none, some, Text, codes, starts_with,
}
use wintermute_brain.Turn.{Brain, World, TurnConfig, TurnUserEvent, reply_of}
use wintermute_brain.Turn.Redlined.{redlined}
use wintermute_brain.Turn.Dispatch.{handle_turn_user}
use wintermute_brain.Turn.Recorded.{Ended}
use wintermute_brain.Turn.Heard.{handle_turn_user-Ended}
use wintermute_brain.Turn.Enforced.{redlined-Clean}
use wintermute_brain.Turn.Ladder.{said}
use wintermute_brain.Splitter
use wintermute_brain.Splitter.Chunks.{stream}

abbrev pub float : Float
float = record {
  F32 = ℕ;
  zero_f = 0;
  minus_one = 0;
  add = λ a b. a;
  mul = λ a b. a;
  div = λ a b. a;
  sqrt = λ a. a;
  gt = λ a b. false;
  ge = λ a b. false;
  eq = λ a b. true;
  to_le_bytes = λ x. (x, 0, 0, 0);
  from_le_bytes = λ b. b.0;
}

abbrev fine : Faults
fine = record {
  select_ok = true;
  update_ok = true;
  count_ok = true;
  delete_ok = true;
  insert_ok = true;
}

abbrev client : ℕ → LadderClient
client attempt = record {
  ladder = Tiers.new (codes "local-3b") local (codes "qwen2.5:3b") ∷ [];
  backends = record {
    generate = λ endpoint model prompt. (codes "A robot." ∷ [], answered (codes "A robot."));
    cloud = none;
    verify = λ text transcript. accept;
  };
  stakes = λ transcript. ordinary;
}

abbrev pub world : World ℕ float
world = record {
  u = ascii;
  empty_object = 0;
  from_json = record { from_str = λ text. none; get = λ key v. none; as_str = λ v. none };
  fetch = λ transcript. none;
  ladder = some client;
  recall_up = λ attempt. true;
  llm = none;
  has_extractor = false;
  key_structurally_present = false;
  key_healthy = false;
  minted_turn_id = codes "gen-1";
  cache_disabled = false;
  embed = λ text. none;
  cache_panics = false;
  lookup_faults = fine;
  insert_faults = fine;
  cache_json = λ similarity latency_ms. latency_ms;
  insert_panics = false;
  cache_now_ms = 5;
  insert_now_ms = 6;
  cache_latency_ms = 1;
  latency_ms = 1;
}

abbrev forbidden : List Text
forbidden = codes "robot" ∷ []

abbrev action : RedlineAction
action = regenerate 2 (some (codes "Well then."))

abbrev config : TurnConfig
config = record {
  prefer = auto;
  command_max_words = 6;
  pending_tier = none;
  forbidden_terms = forbidden;
  redline = action;
  repair_repeat_phrases = [];
  repair_louder_phrases = [];
  idle_gap_ms = 300000;
  persona = codes "You are kind.";
  child_guard = [];
  gate_guard = [];
  recap_context = none;
}

abbrev pub turn : TurnUserEvent
turn = record { transcript = codes "who are you"; ts = 5; turn_id = some (codes "t1") }

abbrev pub brain : Brain ℕ float
brain = record {
  history = record { turns = []; max_turns = 4 };
  writeback = new_writeback;
  floor = new_floor;
  cache = none;
  intents = record { pending = []; intent_counter = 0 };
  redline_counter = 0;
  sink = record {
    log = [];
    on_bus = [];
    attempts = 0;
    accepts = λ attempt. true;
    rejects = λ attempt. false;
  };
}

-- A reply that the bus rejects: the publish succeeds, and nothing is on the bus.
abbrev rejecting : Sink ℕ
rejecting = record brain.sink { rejects = λ attempt. true }

reply_rejected :
    ((publish (reply_of (codes "Well then.") 5 (codes "t1")) rejecting).1 ≡ true)
    × ((publish (reply_of (codes "Well then.") 5 (codes "t1")) rejecting).0.on_bus ≡ [])
unfolding publish
reply_rejected = (refl, refl)

handle_turn_user-Ended_example :
    Ended
      (codes "who are you")
      5
      brain
      (handle_turn_user world config false (codes "sonnet") turn 5 brain)
handle_turn_user-Ended_example =
    handle_turn_user-Ended world config false (codes "sonnet") turn 5 brain (λ (e, _). cc)

abbrev request : MessageRequest
request = record {
  model = codes "sonnet";
  max_tokens = 1024;
  system = none;
  messages = [];
  stream = true;
}

phrase-Clean : Clean ascii forbidden (codes "Well then.")
unfolding scan normalise is_empty search_from starts_with is_word
phrase-Clean = refl

robot-starts_ascii : starts_ascii (normalise ascii (codes "robot")) ≡ true
unfolding normalise
robot-starts_ascii = refl

action-is_active : is_active action ≡ true
unfolding is_active
action-is_active = refl

redlined-Clean_example :
    (said : Text) × ((redlined world client forbidden action
        (codes "who are you")
        request
        (codes "local-3b")
        5
        (codes "t1")
        (codes "A robot.")
        brain).1
      ≡ some said)
    × Clean ascii forbidden said
redlined-Clean_example =
    redlined-Clean world client forbidden action (codes "who are you") request (codes "local-3b") 5
      (codes "t1") (codes "A robot.") brain (robot-starts_ascii, tt) action-is_active phrase-Clean

-- Redline has replaced the answer by its phrase, and the forbidden word is said in a partial sentence.
robot_said : stream ascii Splitter.new (codes "A robot." ∷ []) ≡ codes "A robot." ∷ []
unfolding stream Splitter.push Splitter.flush Splitter.drain_sentences Splitter.drain Splitter.scan
    Splitter.may_end Splitter.skips Splitter.is_ellipsis Splitter.is_terminator Splitter.dots
    Splitter.is_decimal Splitter.is_initial Splitter.at_boundary is_empty trim is_whitespace
robot_said = refl

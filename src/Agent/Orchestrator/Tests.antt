-- ===== src/Agent/Orchestrator/Tests.antt =====
-- One turn that answers (src/moc/agent/orchestrator.py).
use moreofchat.Prelude.{
  ℕ, ◌==◌, ◌≡◌, refl, String, true, false, none, some, List, [], ◌∷◌, ltb, map,
}
use moreofchat.Result.{ok}
use moreofchat.Str.{Text, strip, lstrip, is_space}
use moreofchat.Agent.State.{answer, msa}
use moreofchat.Agent.Engine.Advance.Tests.{
  engine, asked, names_faculty, answered, resumed_fees, faculty_given,
}
use moreofchat.Agent.FigureAudit.{FigureAudit}
use moreofchat.Agent.Guards.{
  Numerals, check_numeric_grounding, orphans_of, hedged_of, is_grounded, unique, collect_sources,
  of_passages, of_constants,
}
use moreofchat.Agent.Orchestrator.{
  Retrieval, Completion, Usage, message_in, message_out, llm_call, understood, Services, TurnResult,
  meter, gated, resolve_composed, resolve_action,
}
use moreofchat.Agent.Orchestrator.Turn.{
  embedding, with_evidence, spoken, topic, requery, decide_turn, understood_turn, after_search,
  after_extraction, handle_turn,
}
use moreofchat.Agent.Orchestrator.Checked.{IsAnswered, handle_turn-IsAnswered}
use moreofchat.Agent.Orchestrator.Metered.{IsMetered, handle_turn-IsMetered}

-- Each code point of a text is a figure.
abbrev numerals : Numerals ℕ Text
numerals = record {
  same = λ a b. a == b;
  extract_quantities =
      λ text. map (λ c. record { value = c; raw = c ∷ []; approximate = false }) text;
  extract_numbers = λ text. text;
  sort = λ values. values;
}

abbrev retrieval : Retrieval ℕ ℕ
retrieval = record {
  passages = (70 ∷ (71 ∷ [])) ∷ [];
  confidence = some 9;
  script_constants = [];
  embedding_model = "small";
  embedding_tokens = 0;
}

abbrev completion : Completion
completion = record {
  text = 71 ∷ [];
  model = "m";
  provider = "p";
  input_tokens = 10;
  output_tokens = 2;
  cached_tokens = 0;
  cache_write_tokens = 0;
  degraded = false;
}

abbrev audit : FigureAudit Completion
audit = record { passed = true; unsupported = []; checked = 0; degraded = false; completion = none }

abbrev services : Services String ℕ String ℕ
services = record {
  redact = λ text. (text, []);
  extract = λ text state. understood names_faculty none;
  search = λ query. ok retrieval;
  compose = λ decision found text lang. some completion;
  audit = λ text found. audit;
  topic_of = λ script node. [];
  reply_language = λ text. none;
  reply_text = λ key decision text lang. [];
  outage_text = λ key lang. [];
}

abbrev result : TurnResult ℕ String
result = record {
  reply = 71 ∷ [];
  action = answer;
  register = msa;
  state = answered.state;
  degraded = false;
  redacted = [];
  grounding = some (record {
    passed = true;
    orphan_numbers = [];
    hedged_numbers = [];
    reply_numbers = 71 ∷ [];
    source_numbers = 70 ∷ (71 ∷ []);
  });
  audit = some audit;
  completions = completion ∷ [];
  provider_unavailable = false;
}

abbrev rows : List Usage
rows = message_in ∷ (llm_call completion ∷ (message_out ∷ []))

run : handle_turn ltb numerals services engine asked (33 ∷ []) ≡ ok (result, rows)
unfolding handle_turn after_search after_extraction understood_turn topic requery decide_turn
    with_evidence embedding spoken meter gated resolve_composed resolve_action strip lstrip is_space
    check_numeric_grounding orphans_of hedged_of is_grounded collect_sources unique of_passages
    of_constants
run = rw (resumed_fees, faculty_given) refl

handle_turn-IsAnswered_example : IsAnswered ltb numerals services engine asked (33 ∷ []) (71 ∷ [])
handle_turn-IsAnswered_example =
    handle_turn-IsAnswered ltb numerals services engine asked (33 ∷ []) result rows run refl

handle_turn-IsMetered_example : IsMetered rows
handle_turn-IsMetered_example =
    handle_turn-IsMetered ltb numerals services engine asked (33 ∷ []) result rows run

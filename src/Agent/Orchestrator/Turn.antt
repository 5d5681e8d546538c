-- ===== src/Agent/Orchestrator/Turn.antt =====
-- `Orchestrator.handle` (src/moc/agent/orchestrator.py).
use moreofchat.Prelude.{
  String, str_eq, Bool, true, false, ◌||◌, Option, none, some, List, [], ◌∷◌, ◌++◌, ◌==◌, not,
  is_empty, or_else, if◌then◌else◌,
}
use moreofchat.Result.{Result, ok, err, ◌>>=◌}
use moreofchat.Str.{Text}
use moreofchat.Agent.State.{handoff, masri, TurnInput, ConversationState}
use moreofchat.Agent.Engine.{ScriptEngine, resumes}
use moreofchat.Agent.Engine as Engine
use moreofchat.Agent.Engine.Advance.{advance}
use moreofchat.Agent.Guards.{Numerals}
use moreofchat.Agent.Orchestrator.{
  Retrieval, Completion, Key, provider_unavailable, handoff_reply, Usage, message_in, message_out,
  embedding_call, Extracted, understood, unavailable, beyond_vocabulary, Services, SearchFailure,
  all_unavailable, search_raised, TurnResult, meter, resolve_action,
}

-- What the engine raises, and what the retriever does.
pub data TurnError (E : Type 0) : Type 0 where
  engine_error : Engine.Error → TurnError E
  search_error : SearchFailure E → TurnError E

abbrev pub searched : {E A : Type 0} → Result (SearchFailure E) A → Result (TurnError E) A
searched (ok a) = ok a
searched (err e) = err (search_error e)

abbrev pub advanced : {E A : Type 0} → Result Engine.Error A → Result (TurnError E) A
advanced (ok a) = ok a
advanced (err e) = err (engine_error e)

-- A text that is empty counts as none.
unfoldable pub spoken : Option String → Option String
spoken none = none
spoken (some s) = if str_eq s "" then none else some s

unfoldable pub embedding : {N F : Type 0} → Retrieval N F → List Usage
embedding r =
    if r.embedding_tokens == 0 then [] else embedding_call r.embedding_model r.embedding_tokens ∷ []

module _ {N V F : Type 0} where
  unfoldable pub with_evidence : TurnInput V F → Retrieval N F → TurnInput V F
  with_evidence t r = record t {
    confidence = r.confidence;
    grounded = not (is_empty r.passages) || not (is_empty r.script_constants);
  }

module _ {E N V F : Type 0} (below : F → F → Bool) (numerals : Numerals N Text)
    (services : Services E N V F) where
  -- `_unavailable` and `_beyond_vocabulary`.
  unfoldable pub outage : Key → ConversationState V → Text × List String → Bool → TurnResult N V
  outage key state redaction is_down = record {
    reply = services.outage_text key (services.reply_language redaction.0);
    action = handoff;
    register = masri;
    state = state;
    degraded = is_down;
    redacted = redaction.1;
    grounding = none;
    audit = none;
    completions = [];
    provider_unavailable = is_down;
  }

  unfoldable pub topic : ScriptEngine F → Option String → Text
  topic engine none = []
  topic engine (some node) = if str_eq node "" then [] else services.topic_of engine node

  -- The second search of a turn that resumes a node, and the rows of both.
  unfoldable pub requery :
      Text → Text → Retrieval N F → Result (TurnError E) (Retrieval N F × List Usage)
  requery [] text first = ok (first, embedding first)
  requery (c ∷ topic) text first =
      searched (services.search ((c ∷ topic) ++ (32 ∷ text))) >>= λ second.
      ok (second, embedding first ++ embedding second)

  unfoldable pub decide_turn :
      ScriptEngine F
      → ConversationState V
      → Text × List String
      → TurnInput V F
      → Retrieval N F
      → Result (TurnError E) (TurnResult N V × List Usage)
  decide_turn engine state redaction turn retrieval =
      advanced (advance below engine state (with_evidence turn retrieval)) >>= λ d. ok (
        resolve_action numerals services d.action d retrieval redaction
          (or_else (spoken turn.language) (services.reply_language redaction.0)))

  unfoldable pub understood_turn :
      ScriptEngine F
      → ConversationState V
      → Text × List String
      → TurnInput V F
      → Option Completion
      → Retrieval N F
      → Result (TurnError E) (TurnResult N V × List Usage)
  understood_turn engine state redaction turn usage first =
      requery (topic engine (resumes engine state turn)) redaction.0 first >>= λ found.
      decide_turn engine state redaction turn found.0 >>= λ done.
      ok (done.0, message_in ∷ (meter usage ++ found.1 ++ done.1 ++ (message_out ∷ [])))

  -- The intake with an extraction that succeeded.
  unfoldable pub after_search :
      ScriptEngine F
      → ConversationState V
      → Text × List String
      → TurnInput V F
      → Option Completion
      → Result (SearchFailure E) (Retrieval N F)
      → Result (TurnError E) (TurnResult N V × List Usage)
  after_search engine state redaction turn usage (err all_unavailable) =
      ok (outage provider_unavailable state redaction true, message_in ∷ (message_out ∷ []))
  after_search engine state redaction turn usage (err (search_raised e)) =
      err (search_error (search_raised e))
  after_search engine state redaction turn usage (ok first) =
      understood_turn engine state redaction turn usage first

  unfoldable pub after_extraction :
      ScriptEngine F
      → ConversationState V
      → Text × List String
      → Extracted V F
      → Result (TurnError E) (TurnResult N V × List Usage)
  after_extraction engine state redaction unavailable =
      ok (outage provider_unavailable state redaction true, message_in ∷ (message_out ∷ []))
  after_extraction engine state redaction beyond_vocabulary =
      ok (outage handoff_reply state redaction false, message_in ∷ (message_out ∷ []))
  after_extraction engine state redaction (understood turn usage) =
      after_search engine state redaction turn usage (services.search redaction.0)

  -- The turn, and the rows that it adds to the ledger.
  unfoldable pub handle_turn :
      ScriptEngine F
      → ConversationState V
      → Text
      → Result (TurnError E) (TurnResult N V × List Usage)
  handle_turn engine state text =
      let redaction = services.redact text in
      after_extraction engine state redaction (services.extract redaction.0 state)

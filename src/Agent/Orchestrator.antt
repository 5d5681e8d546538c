-- ===== src/Agent/Orchestrator.antt =====
-- src/moc/agent/orchestrator.py: one message to a reply. The redactor, the extractor, the retriever,
-- the composing model, the figure audit and the wording of the scripted replies are the parameter
-- `Services`; the ledger is the list of its new rows. The two calls of the intake run at once in the
-- code: here an exception of the extractor comes before one of the retriever. The clock and the fields
-- of the result that only report (titles, authorised texts, provenance, timings) are left out.
pub mod Turn
pub mod Grounded
pub mod Checked
pub mod Metered
mod Tests
use moreofchat.Prelude.{
  ℕ, String, str_eq, Bool, true, false, ◌&&◌, ◌||◌, Option, none, some, List, [], ◌∷◌, ◌++◌, ◌==◌,
  not, is_empty, if◌then◌else◌,
}
use moreofchat.Result.{Result}
use moreofchat.Str.{Text, strip}
use moreofchat.Agent.State.{
  Action, answer, clarify, handoff, refuse, Register, masri, TurnInput, ConversationState, Decision,
}
use moreofchat.Agent.Engine.{ScriptEngine}
use moreofchat.Agent.FigureAudit.{FigureAudit}
use moreofchat.Agent.Guards.{Constant, Numerals, GroundingResult, check_numeric_grounding}

pub record Retrieval (N F : Type 0) : Type 0 where
  pub passages : List Text
  pub confidence : Option F
  pub script_constants : List (Constant N Text)
  pub embedding_model : String
  pub embedding_tokens : ℕ

pub record Completion : Type 0 where
  pub text : Text
  pub model : String
  pub provider : String
  pub input_tokens : ℕ
  pub output_tokens : ℕ
  pub cached_tokens : ℕ
  pub cache_write_tokens : ℕ
  pub degraded : Bool

-- The keys of the scripted replies.
pub data Key : Type 0 where
  handoff_reply clarify_reply low_confidence refuse_reply grounding_failed provider_unavailable :
      Key

-- The rows of the ledger that a turn writes.
pub data Usage : Type 0 where
  message_in : Usage
  message_out : Usage
  llm_call : Completion → Usage
  embedding_call : String → ℕ → Usage

-- What the extractor answers, with the call that it made, or `AllProvidersUnavailable`, or
-- `ExtractionFailed`.
pub data Extracted (V F : Type 0) : Type 0 where
  understood : TurnInput V F → Option Completion → Extracted V F
  unavailable : Extracted V F
  beyond_vocabulary : Extracted V F

-- What the retriever raises: `AllProvidersUnavailable`, or another exception.
pub data SearchFailure (E : Type 0) : Type 0 where
  all_unavailable : SearchFailure E
  search_raised : E → SearchFailure E

-- `compose` answers none where all providers are unavailable. `reply_text` takes the language, if any.
pub record Services (E N V F : Type 0) : Type 0 where
  pub redact : Text → Text × List String
  pub extract : Text → ConversationState V → Extracted V F
  pub search : Text → Result (SearchFailure E) (Retrieval N F)
  pub compose : Decision V F → Retrieval N F → Text → Option String → Option Completion
  pub audit : Text → Retrieval N F → FigureAudit Completion
  pub topic_of : ScriptEngine F → String → Text
  pub reply_language : Text → Option String
  pub reply_text : Key → Decision V F → Text → Option String → Text
  pub outage_text : Key → Option String → Text

pub record TurnResult (N V : Type 0) : Type 0 where
  pub reply : Text
  pub action : Action
  pub register : Register
  pub state : ConversationState V
  pub degraded : Bool
  pub redacted : List String
  pub grounding : Option (GroundingResult N)
  pub audit : Option (FigureAudit Completion)
  pub completions : List Completion
  pub provider_unavailable : Bool

unfoldable pub is_failure : Key → Bool
is_failure provider_unavailable = true
is_failure grounding_failed = true
is_failure _ = false

abbrev clarification : Bool → Key
clarification true = low_confidence
clarification false = clarify_reply

unfoldable pub non_answer_key : Action → Bool → Key
non_answer_key handoff gate_closed = handoff_reply
non_answer_key refuse gate_closed = refuse_reply
non_answer_key answer gate_closed = clarification gate_closed
non_answer_key clarify gate_closed = clarification gate_closed

-- `_meter`: a call that did not happen writes nothing.
unfoldable pub meter : Option Completion → List Usage
meter none = []
meter (some c) = llm_call c ∷ []

-- What `_scripted` takes by keyword, each with its default in `plain`.
pub record Evidence (N : Type 0) : Type 0 where
  pub degraded : Bool
  pub grounding : Option (GroundingResult N)
  pub audit : Option (FigureAudit Completion)
  pub completions : List Completion
  pub provider_unavailable : Bool

abbrev pub plain : {N : Type 0} → Evidence N
plain = record {
  degraded = false;
  grounding = none;
  audit = none;
  completions = [];
  provider_unavailable = false;
}

module _ {E N V F : Type 0} (numerals : Numerals N Text) (services : Services E N V F) where
  unfoldable pub scripted :
      Decision V F → Text × List String → Key → Option String → Evidence N → TurnResult N V
  scripted d redaction key lang evidence = record {
    reply = services.reply_text key d redaction.0 lang;
    action = if is_failure key then handoff else d.action;
    register = d.register;
    state = d.state;
    degraded = evidence.degraded;
    redacted = redaction.1;
    grounding = evidence.grounding;
    audit = evidence.audit;
    completions = evidence.completions;
    provider_unavailable = evidence.provider_unavailable;
  }

  -- The two gates on a composed text.
  unfoldable pub gated :
      Decision V F
      → Text × List String
      → Completion
      → GroundingResult N
      → FigureAudit Completion
      → TurnResult N V
  gated d redaction c grounding audit =
      if not grounding.passed || not audit.passed
      then scripted d redaction grounding_failed none (record {
        degraded = c.degraded || audit.degraded;
        grounding = some grounding;
        audit = some audit;
        completions = c ∷ [];
        provider_unavailable = false;
      })
      else record {
        reply = c.text;
        action = d.action;
        register = d.register;
        state = d.state;
        degraded = c.degraded;
        redacted = redaction.1;
        grounding = some grounding;
        audit = some audit;
        completions = c ∷ [];
        provider_unavailable = false;
      }

  unfoldable pub resolve_composed :
      Decision V F
      → Retrieval N F
      → Text × List String
      → Option Completion
      → TurnResult N V × List Usage
  resolve_composed d retrieval redaction none = (
    scripted d redaction provider_unavailable none
        (record plain { degraded = true; provider_unavailable = true }),
    [],
  )
  resolve_composed d retrieval redaction (some c) =
      let audit = services.audit c.text retrieval in
      let grounding =
        check_numeric_grounding numerals c.text retrieval.passages retrieval.script_constants in
      if is_empty (strip c.text)
      then (
        scripted d redaction provider_unavailable none (record plain { degraded = true }),
        meter (some c),
      )
      else (gated d redaction c grounding audit, meter (some c) ++ meter audit.completion)

  -- `_resolve`, with the rows that it writes.
  unfoldable pub resolve_action :
      Action
      → Decision V F
      → Retrieval N F
      → Text × List String
      → Option String
      → TurnResult N V × List Usage
  resolve_action answer d retrieval redaction lang =
      resolve_composed d retrieval redaction (services.compose d retrieval redaction.0 lang)
  resolve_action action d retrieval redaction lang =
      (scripted d redaction (non_answer_key action d.gate_closed) lang plain, [])

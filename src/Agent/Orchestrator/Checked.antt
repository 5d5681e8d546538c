-- ===== src/Agent/Orchestrator/Checked.antt =====
-- What stands behind an answer that is sent (src/moc/agent/orchestrator.py).
use moreofchat.Prelude.{
  not, is_empty, ◌||◌, ℕ, [], ◌∷◌, ◌++◌, ◌≡◌, refl, ap, ◌∙◌, String, Bool, Option, none, some, List,
  arith, subst,
}
use moreofchat.Result.{Result, ok, err, >>=-eq-ok, ok-injective}
use moreofchat.Str.{Text}
use moreofchat.Agent.State.{answer, TurnInput, ConversationState, Decision}
use moreofchat.Agent.Engine.{ScriptEngine, resumes}
use moreofchat.Agent.Engine as Engine
use moreofchat.Agent.Engine.Advance.{advance}
use moreofchat.Agent.Engine.Advance.Gates.{Supported, answer-Supported}
use moreofchat.Agent.Guards.{Numerals}
use moreofchat.Agent.Orchestrator.{
  Retrieval, Completion, Usage, Extracted, understood, unavailable, beyond_vocabulary, Services,
  TurnResult, SearchFailure, all_unavailable, search_raised,
}
use moreofchat.Agent.Orchestrator.Turn.{
  with_evidence, outage, requery, decide_turn, understood_turn, after_extraction, handle_turn,
  searched, advanced, topic, after_search,
}
use moreofchat.Agent.Orchestrator.Grounded.{IsGrounded, resolve_action-answer}

advanced-ok :
    {E A : Type 0} (r : Result Engine.Error A) (a : A) → advanced {E = E} r ≡ ok a → r ≡ ok a
advanced-ok (ok b) a same = ap (λ x. ok x) (ok-injective same)
advanced-ok (err e) a same = cc

-- The turn with the confidence of a retrieval, and grounded where that has a passage or a constant.
abbrev pub backed_by : {N V F : Type 0} → TurnInput V F → Retrieval N F → TurnInput V F
backed_by t r = record t {
  confidence = r.confidence;
  grounded = not (is_empty r.passages) || not (is_empty r.script_constants);
}

module _ {E N V F : Type 0} (below : F → F → Bool) (numerals : Numerals N Text)
    (services : Services E N V F) where
  -- What was retrieved: the hits of the redacted message, or, where the turn resumes a node, those of
  -- that node's topic with the message behind it.
  pub data IsSearched (engine : ScriptEngine F) (state : ConversationState V) (t : TurnInput V F)
      (text : Text) (r : Retrieval N F) : Type 0 where
    by_message : services.search text ≡ ok r → IsSearched engine state t text r
    by_topic :
        (node : String)
        → resumes engine state t ≡ some node
        → services.search (services.topic_of engine node ++ (32 ∷ text)) ≡ ok r
        → IsSearched engine state t text r

  -- What an answer to the customer rests on: the extraction of the redacted message, a retrieval for
  -- it, a decision of the engine that was earned on the two, and a reply composed and grounded on them.
  pub data IsAnswered (engine : ScriptEngine F) (state : ConversationState V) (text reply : Text)
      : Type 0 where
    answered :
        (t : TurnInput V F) (usage : Option Completion) (r : Retrieval N F) (d : Decision V F)
        → services.extract text state ≡ understood t usage
        → IsSearched engine state t text r
        → advance below engine state (backed_by t r) ≡ ok d
        → Supported below engine state (backed_by t r) d
        → IsGrounded numerals services d r text reply
        → IsAnswered engine state text reply

  topic-some :
      (engine : ScriptEngine F) (o : Option String) (c : ℕ) (rest : Text)
      → topic below numerals services engine o ≡ c ∷ rest
      → (node : String) × (o ≡ some node) × (services.topic_of engine node ≡ c ∷ rest)
  unfolding topic
  topic-some engine none c rest named = cc
  topic-some engine (some node) c rest named = (node, refl, ground (arith, named))

  searched-ok :
      (came : Result (SearchFailure E) (Retrieval N F)) (r : Retrieval N F)
      → searched came ≡ ok r
      → came ≡ ok r
  searched-ok (ok a) r same = ap (λ x. ok x) (ok-injective same)
  searched-ok (err e) r same = cc

  requery-IsSearched :
      (engine : ScriptEngine F) (state : ConversationState V) (t : TurnInput V F)
      (topic_text text : Text) (first second : Retrieval N F) (rows : List Usage)
      → topic below numerals services engine (resumes engine state t) ≡ topic_text
      → services.search text ≡ ok first
      → requery below numerals services topic_text text first ≡ ok (second, rows)
      → IsSearched engine state t text second
  unfolding requery
  requery-IsSearched engine state t [] text first second rows named came done =
      by_message (came ∙ ap (λ (p : Retrieval N F × List Usage). ok p.0) (ok-injective done))
  requery-IsSearched engine state t (c ∷ rest) text first second rows named came done =
      let found = >>=-eq-ok (searched (services.search ((c ∷ rest) ++ (32 ∷ text)))) _ done in
      let at = topic-some engine (resumes engine state t) c rest named in
      by_topic at.0 at.1 (
        ap (λ (topic_text : Text). services.search (topic_text ++ (32 ∷ text))) at.2
        ∙ searched-ok _ found.0 found.1
        ∙ ap (λ (p : Retrieval N F × List Usage). ok p.0) (ok-injective found.2))

  decide_turn-answer :
      (engine : ScriptEngine F) (state : ConversationState V) (redaction : Text × List String)
      (t : TurnInput V F) (usage : Option Completion) (r : Retrieval N F) (result : TurnResult N V)
      (rows : List Usage)
      → services.extract redaction.0 state ≡ understood t usage
      → IsSearched engine state t redaction.0 r
      → decide_turn below numerals services engine state redaction t r ≡ ok (result, rows)
      → result.action ≡ answer
      → IsAnswered engine state redaction.0 result.reply
  unfolding decide_turn with_evidence
  decide_turn-answer engine state redaction t usage r result rows read found done said =
      let decided =
        >>=-eq-ok (advanced {E = E} (advance below engine state (with_evidence t r))) _ done in
      let d : Decision V F = decided.0 in
      let advances : advance below engine state (with_evidence t r) ≡ ok d =
        advanced-ok _ d decided.1 in
      let same = ap (λ (p : TurnResult N V × List Usage). p.0) (ok-injective decided.2) in
      let both =
        resolve_action-answer numerals services d.action d r redaction _ refl
          (ap (λ (p : TurnResult N V). p.action) same ∙ said) in
      answered t usage r d read found advances
        (answer-Supported below engine state (with_evidence t r) d advances both.0)
        (subst (λ (p : TurnResult N V). IsGrounded numerals services d r redaction.0 p.reply) same
          both.1)

  after_search-answer :
      (engine : ScriptEngine F) (state : ConversationState V) (redaction : Text × List String)
      (t : TurnInput V F) (usage : Option Completion)
      (came : Result (SearchFailure E) (Retrieval N F)) (result : TurnResult N V)
      (rows : List Usage)
      → services.extract redaction.0 state ≡ understood t usage
      → services.search redaction.0 ≡ came
      → after_search below numerals services engine state redaction t usage came ≡ ok (result, rows)
      → result.action ≡ answer
      → IsAnswered engine state redaction.0 result.reply
  unfolding after_search understood_turn outage
  after_search-answer engine state redaction t usage (err all_unavailable) result rows read found
        done said =
      absurd (cc (ap (λ (p : TurnResult N V × List Usage). p.0.action) (ok-injective done), said))
  after_search-answer engine state redaction t usage (err (search_raised e)) result rows read found
        done said =
      cc
  after_search-answer engine state redaction t usage (ok first) result rows read came done said =
      let found =
        >>=-eq-ok
          (requery below numerals services
            (topic below numerals services engine (resumes engine state t)) redaction.0 first)
          _ done in
      let decided =
        >>=-eq-ok (decide_turn below numerals services engine state redaction t found.0.0) _
          found.2 in
      let same = ap (λ (p : TurnResult N V × List Usage). p.0) (ok-injective decided.2) in
      subst (λ (p : TurnResult N V). IsAnswered engine state redaction.0 p.reply) same
        (decide_turn-answer engine state redaction t usage found.0.0 decided.0.0 decided.0.1 read
          (requery-IsSearched engine state t _ redaction.0 first found.0.0 found.0.1 refl came
            found.1)
          decided.1 (ap (λ (p : TurnResult N V). p.action) same ∙ said))

  after_extraction-answer :
      (engine : ScriptEngine F) (state : ConversationState V) (redaction : Text × List String)
      (x : Extracted V F) (result : TurnResult N V) (rows : List Usage)
      → services.extract redaction.0 state ≡ x
      → after_extraction below numerals services engine state redaction x ≡ ok (result, rows)
      → result.action ≡ answer
      → IsAnswered engine state redaction.0 result.reply
  unfolding after_extraction outage
  after_extraction-answer engine state redaction unavailable result rows read done said =
      absurd (cc (ap (λ (p : TurnResult N V × List Usage). p.0.action) (ok-injective done), said))
  after_extraction-answer engine state redaction beyond_vocabulary result rows read done said =
      absurd (cc (ap (λ (p : TurnResult N V × List Usage). p.0.action) (ok-injective done), said))
  after_extraction-answer engine state redaction (understood t usage) result rows read done said =
      after_search-answer engine state redaction t usage (services.search redaction.0) result rows
        read refl done said

  -- A turn that ends in an answer has earned it. The extractor understood the redacted message; the
  -- retriever answered that message, or the topic of the node that it resumes with the message behind
  -- it; on the two the engine decided to answer, with all that `Supported` asks for; the reply is the
  -- text that the composing model returned for that decision, that retrieval and the redacted message,
  -- and it is not blank; the numeric gate passed it on the passages and script constants of that
  -- retrieval, and so did the figure audit. On every other path, outages and failed gates included,
  -- the action is another.
  pub handle_turn-IsAnswered :
      (engine : ScriptEngine F) (state : ConversationState V) (text : Text)
      (result : TurnResult N V) (rows : List Usage)
      → handle_turn below numerals services engine state text ≡ ok (result, rows)
      → result.action ≡ answer
      → IsAnswered engine state (services.redact text).0 result.reply
  unfolding handle_turn
  handle_turn-IsAnswered engine state text result rows =
      after_extraction-answer engine state (services.redact text)
        (services.extract (services.redact text).0 state) result rows refl

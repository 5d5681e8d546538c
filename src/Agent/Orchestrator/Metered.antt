-- ===== src/Agent/Orchestrator/Metered.antt =====
-- The rows that a turn adds to the ledger (src/moc/agent/orchestrator.py).
use moreofchat.Prelude.{
  ◌≡◌, sym, ap, String, Bool, Option, none, some, List, [], ◌∷◌, ◌++◌, is_empty, if-elim, All,
  All-append, subst, ◌==◌,
}
use Prim.{⊥, Unit, tt}
use moreofchat.Result.{Result, ok, err, >>=-eq-ok, ok-injective}
use moreofchat.Str.{Text, strip}
use moreofchat.Agent.State.{
  Action, answer, clarify, handoff, refuse, TurnInput, ConversationState, Decision,
}
use moreofchat.Agent.Engine.{ScriptEngine, resumes}
use moreofchat.Agent.Engine.Advance.{advance}
use moreofchat.Agent.Guards.{Numerals}
use moreofchat.Agent.Orchestrator.{
  Retrieval, Completion, Usage, message_in, message_out, llm_call, embedding_call, Extracted,
  understood, unavailable, beyond_vocabulary, Services, TurnResult, meter, resolve_composed,
  resolve_action, SearchFailure, all_unavailable, search_raised,
}
use moreofchat.Agent.Orchestrator.Turn.{
  embedding, with_evidence, requery, decide_turn, understood_turn, after_search, after_extraction,
  handle_turn, searched, advanced, topic,
}

-- A row of a call to a provider, not of a message.
abbrev pub IsCall : Usage → Type 0
IsCall message_in = ⊥
IsCall message_out = ⊥
IsCall (llm_call c) = Unit {0}
IsCall (embedding_call model tokens) = Unit {0}

abbrev pub AreCalls : List Usage → Type 0
AreCalls rows = All IsCall rows

meter-AreCalls : (c : Option Completion) → AreCalls (meter c)
unfolding meter
meter-AreCalls none = tt
meter-AreCalls (some c) = (tt, tt)

embedding-AreCalls : {N F : Type 0} (r : Retrieval N F) → AreCalls (embedding r)
unfolding embedding
embedding-AreCalls r =
    if-elim AreCalls (r.embedding_tokens == 0) (λ nothing. tt) (λ counted. (tt, tt))

module _ {E N V F : Type 0} (numerals : Numerals N Text) (services : Services E N V F) where
  resolve_composed-AreCalls :
      (d : Decision V F) (r : Retrieval N F) (redaction : Text × List String)
      (composed : Option Completion)
      → AreCalls (resolve_composed numerals services d r redaction composed).1
  unfolding resolve_composed
  resolve_composed-AreCalls d r redaction none = tt
  resolve_composed-AreCalls d r redaction (some c) =
      if-elim (λ (t : TurnResult N V × List Usage). AreCalls t.1) (is_empty (strip c.text))
        (λ blank. meter-AreCalls (some c))
        (λ filled.
          All-append IsCall (meter (some c)) _ (meter-AreCalls (some c))
            (meter-AreCalls (services.audit c.text r).completion))

  resolve_action-AreCalls :
      (action : Action) (d : Decision V F) (r : Retrieval N F) (redaction : Text × List String)
      (lang : Option String)
      → AreCalls (resolve_action numerals services action d r redaction lang).1
  unfolding resolve_action
  resolve_action-AreCalls answer d r redaction lang =
      resolve_composed-AreCalls d r redaction (services.compose d r redaction.0 lang)
  resolve_action-AreCalls handoff d r redaction lang = tt
  resolve_action-AreCalls refuse d r redaction lang = tt
  resolve_action-AreCalls clarify d r redaction lang = tt

-- One row for the message, then the calls, then one row for the reply.
abbrev pub IsMetered : List Usage → Type 0
IsMetered rows =
    (calls : List Usage) × (rows ≡ message_in ∷ (calls ++ (message_out ∷ []))) × AreCalls calls

module _ {E N V F : Type 0} (below : F → F → Bool) (numerals : Numerals N Text)
    (services : Services E N V F) where
  requery-AreCalls :
      (topic_text text : Text) (first second : Retrieval N F) (rows : List Usage)
      → requery below numerals services topic_text text first ≡ ok (second, rows)
      → AreCalls rows
  unfolding requery
  requery-AreCalls [] text first second rows done =
      subst (λ (p : Retrieval N F × List Usage). AreCalls p.1) (ok-injective done)
        (embedding-AreCalls first)
  requery-AreCalls (c ∷ topic_text) text first second rows done =
      let found = >>=-eq-ok (searched (services.search ((c ∷ topic_text) ++ (32 ∷ text)))) _ done in
      subst (λ (p : Retrieval N F × List Usage). AreCalls p.1) (ok-injective found.2)
        (All-append IsCall (embedding first) (embedding found.0) (embedding-AreCalls first)
          (embedding-AreCalls found.0))

  decide_turn-AreCalls :
      (engine : ScriptEngine F) (state : ConversationState V) (redaction : Text × List String)
      (t : TurnInput V F) (r : Retrieval N F) (result : TurnResult N V) (rows : List Usage)
      → decide_turn below numerals services engine state redaction t r ≡ ok (result, rows)
      → AreCalls rows
  unfolding decide_turn
  decide_turn-AreCalls engine state redaction t r result rows done =
      let decided =
        >>=-eq-ok (advanced {E = E} (advance below engine state (with_evidence t r))) _ done in
      subst (λ (p : TurnResult N V × List Usage). AreCalls p.1) (ok-injective decided.2)
        (resolve_action-AreCalls numerals services decided.0.action decided.0 r redaction _)

  after_search-IsMetered :
      (engine : ScriptEngine F) (state : ConversationState V) (redaction : Text × List String)
      (t : TurnInput V F) (usage : Option Completion)
      (came : Result (SearchFailure E) (Retrieval N F)) (result : TurnResult N V)
      (rows : List Usage)
      → after_search below numerals services engine state redaction t usage came ≡ ok (result, rows)
      → IsMetered rows
  unfolding after_search understood_turn
  after_search-IsMetered engine state redaction t usage (err all_unavailable) result rows done =
      ([], sym (ap (λ (p : TurnResult N V × List Usage). p.1) (ok-injective done)), tt)
  after_search-IsMetered engine state redaction t usage (err (search_raised e)) result rows done =
      cc
  after_search-IsMetered engine state redaction t usage (ok first) result rows done =
      let text = topic below numerals services engine (resumes engine state t) in
      let found = >>=-eq-ok (requery below numerals services text redaction.0 first) _ done in
      let decided =
        >>=-eq-ok (decide_turn below numerals services engine state redaction t found.0.0) _
          found.2 in
      let searches = requery-AreCalls text redaction.0 first found.0.0 found.0.1 found.1 in
      let resolved =
        decide_turn-AreCalls engine state redaction t found.0.0 decided.0.0 decided.0.1 decided.1 in
      (
        meter usage ++ found.0.1 ++ decided.0.1,
        sym (ap (λ (p : TurnResult N V × List Usage). p.1) (ok-injective decided.2)),
        All-append IsCall (meter usage ++ found.0.1) decided.0.1
            (All-append IsCall (meter usage) found.0.1 (meter-AreCalls usage) searches) resolved,
      )

  after_extraction-IsMetered :
      (engine : ScriptEngine F) (state : ConversationState V) (redaction : Text × List String)
      (x : Extracted V F) (result : TurnResult N V) (rows : List Usage)
      → after_extraction below numerals services engine state redaction x ≡ ok (result, rows)
      → IsMetered rows
  unfolding after_extraction
  after_extraction-IsMetered engine state redaction unavailable result rows done =
      ([], sym (ap (λ (p : TurnResult N V × List Usage). p.1) (ok-injective done)), tt)
  after_extraction-IsMetered engine state redaction beyond_vocabulary result rows done =
      ([], sym (ap (λ (p : TurnResult N V × List Usage). p.1) (ok-injective done)), tt)
  after_extraction-IsMetered engine state redaction (understood t usage) result rows done =
      after_search-IsMetered engine state redaction t usage (services.search redaction.0) result
        rows done

  -- Every turn that returns is billed as one message in and one message out, first and last on the
  -- ledger, with nothing but provider calls between: on an answer, on a scripted reply, on an outage
  -- and on a message beyond the vocabulary.
  pub handle_turn-IsMetered :
      (engine : ScriptEngine F) (state : ConversationState V) (text : Text)
      (result : TurnResult N V) (rows : List Usage)
      → handle_turn below numerals services engine state text ≡ ok (result, rows)
      → IsMetered rows
  unfolding handle_turn
  handle_turn-IsMetered engine state text result rows =
      after_extraction-IsMetered engine state (services.redact text)
        (services.extract (services.redact text).0 state) result rows

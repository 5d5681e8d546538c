-- ===== src/Agent/Orchestrator/Grounded.antt =====
-- The gates on a composed reply (src/moc/agent/orchestrator.py).
use moreofchat.Prelude.{
  ◌≡◌, refl, String, true, false, ◌||◌, Option, none, some, List, not, is_empty, if-elim, arith,
  Bool-cases, inl, inr,
}
use moreofchat.Str.{Text, strip}
use moreofchat.Agent.State.{Action, answer, clarify, handoff, refuse, Decision}
use moreofchat.Agent.Guards.{Numerals, check_numeric_grounding}
use moreofchat.Agent.Orchestrator.{
  Retrieval, Completion, Usage, Services, TurnResult, scripted, gated, resolve_composed,
  resolve_action, is_failure, non_answer_key,
}

module _ {E N V F : Type 0} (numerals : Numerals N Text) (services : Services E N V F) where
  -- The reply is the text that the composing model returned for this decision, these passages and the
  -- redacted message, is not blank, and passed both gates on what was retrieved.
  pub data IsGrounded (d : Decision V F) (r : Retrieval N F) (text reply : Text) : Type 0 where
    grounded :
        (c : Completion) (lang : Option String)
        → services.compose d r text lang ≡ some c
        → reply ≡ c.text
        → is_empty (strip c.text) ≡ false
        → (check_numeric_grounding numerals c.text r.passages r.script_constants).passed ≡ true
        → (services.audit c.text r).passed ≡ true
        → IsGrounded d r text reply

  gated-answer :
      (d : Decision V F) (r : Retrieval N F) (redaction : Text × List String) (c : Completion)
      (lang : Option String)
      → services.compose d r redaction.0 lang ≡ some c
      → is_empty (strip c.text) ≡ false
      → (gated numerals services d redaction c
          (check_numeric_grounding numerals c.text r.passages r.script_constants)
          (services.audit c.text r)).action
        ≡ answer
      → IsGrounded d r redaction.0
          (gated numerals services d redaction c
            (check_numeric_grounding numerals c.text r.passages r.script_constants)
            (services.audit c.text r)).reply
  unfolding gated scripted is_failure
  gated-answer d r redaction c lang composed filled =
      let grounding = check_numeric_grounding numerals c.text r.passages r.script_constants in
      let audit = services.audit c.text r in
      if-elim (λ (t : TurnResult N V). t.action ≡ answer → IsGrounded d r redaction.0 t.reply)
        (not grounding.passed || not audit.passed) (λ failed said. cc)
        (λ passed said.
          grounded c lang composed refl filled (ground (arith, passed)) (ground (arith, passed)))

  resolve_composed-answer :
      (d : Decision V F) (r : Retrieval N F) (redaction : Text × List String) (lang : Option String)
      (composed : Option Completion)
      → services.compose d r redaction.0 lang ≡ composed
      → (resolve_composed numerals services d r redaction composed).0.action ≡ answer
      → IsGrounded d r redaction.0
          (resolve_composed numerals services d r redaction composed).0.reply
  unfolding resolve_composed scripted is_failure
  resolve_composed-answer d r redaction lang none came = λ said. cc
  resolve_composed-answer d r redaction lang (some c) came =
      if-elim
        (λ (t : TurnResult N V × List Usage).
          t.0.action ≡ answer → IsGrounded d r redaction.0 t.0.reply)
        (is_empty (strip c.text)) (λ blank said. cc)
        (λ filled. gated-answer d r redaction c lang came filled)

  pub resolve_action-answer :
      (action : Action) (d : Decision V F) (r : Retrieval N F) (redaction : Text × List String)
      (lang : Option String)
      → d.action ≡ action
      → (resolve_action numerals services action d r redaction lang).0.action ≡ answer
      → (d.action ≡ answer)
        × IsGrounded d r redaction.0
            (resolve_action numerals services action d r redaction lang).0.reply
  unfolding resolve_action scripted is_failure non_answer_key
  resolve_action-answer answer d r redaction lang same said = (
    same,
    resolve_composed-answer d r redaction lang (services.compose d r redaction.0 lang) refl said,
  )
  resolve_action-answer handoff d r redaction lang same said = cc
  resolve_action-answer refuse d r redaction lang same said = cc
  resolve_action-answer clarify d r redaction lang same said = elim (Bool-cases d.gate_closed) [
    | inl closed ↦ ground (arith, same, said, closed)
    | inr held ↦ ground (arith, same, said, held)
  ]

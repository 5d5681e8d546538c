-- ===== src/Agent/Replies/Tests.antt =====
-- Scripted replies (src/moc/agent/replies.py) at concrete entries.
use moreofchat.Prelude.{◌≡◌, refl, true, none, some, [], ◌∷◌}
use moreofchat.Result.{ok, err, is_ok}
use moreofchat.Dict.{Dict, get}
use moreofchat.Str.{Text}
use moreofchat.Agent.State.{msa}
use moreofchat.Agent.Replies.{
  Voice, key_error, say, node_clarification, refusal, scripted_reply, register_key,
  resolve_register, is_lang, wording, or_required, say_or_default, entry_of,
}
use moreofchat.Agent.Replies.Language.{say-speaks}

abbrev outage : Dict Text
outage = ("masri", 1587 ∷ []) ∷ ("english", 79 ∷ 75 ∷ []) ∷ []

abbrev formal : Voice
formal = record { register = msa; lang = none }

say-speaks_example :
    (is_ok (say formal outage) ≡ true)
    × (say (record { register = msa; lang = some "en" }) outage ≡ ok (79 ∷ 75 ∷ []))
    × (say (record { register = msa; lang = none }) outage ≡ ok (1587 ∷ []))
unfolding get
say-speaks_example = say-speaks outage formal (1587 ∷ []) refl

refuses_by_default :
    refusal (("default", outage) ∷ ("fees", []) ∷ []) (some "fees") formal ≡ ok (1587 ∷ [])
unfolding refusal say_or_default entry_of say scripted_reply or_required wording register_key
    resolve_register is_lang get
refuses_by_default = refl

no_override : node_clarification [] (some "fees") formal ≡ ok none
unfolding node_clarification entry_of get
no_override = refl

no_default : refusal [] none formal ≡ err (key_error "default")
unfolding refusal say_or_default entry_of get
no_default = refl

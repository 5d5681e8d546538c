-- ===== src/Agent/Replies.antt =====
-- src/moc/agent/replies.py: the wording of a scripted reply by register and language. An entry maps a
-- register's name to its wording; a missing key that the code reads with brackets raises `KeyError`.
pub mod Language
mod Tests
use moreofchat.Prelude.{
  String, str_eq, Bool, true, false, ◌&&◌, Option, none, some, List, [], ◌∷◌, not, is_empty,
  if◌then◌else◌, or_else,
}
use moreofchat.Result.{Result, ok, err, require, ◌>>=◌}
use moreofchat.Dict.{Dict, get}
use moreofchat.Str.{Text}
use moreofchat.Agent.State.{Register, masri, msa, english}

pub data KeyError : Type 0 where
  key_error : String → KeyError

pub record Voice : Type 0 where
  pub register : Register
  pub lang : Option String

-- `str(register)`
unfoldable pub register_key : Register → String
register_key masri = "masri"
register_key msa = "msa"
register_key english = "english"

abbrev pub is_english : Register → Bool
is_english english = true
is_english masri = false
is_english msa = false

unfoldable pub is_lang : String → Option String → Bool
is_lang code none = false
is_lang code (some lang) = str_eq lang code

unfoldable pub resolve_register : Register → Option String → Register
resolve_register register lang =
    if is_lang "en" lang && not (is_english register)
    then english
    else if is_lang "ar" lang && is_english register
    then masri
    else register

-- An empty wording counts as none.
unfoldable pub wording : Option Text → Option Text
wording none = none
wording (some t) = if is_empty t then none else some t

unfoldable pub or_required : Option Text → Result KeyError Text → Result KeyError Text
or_required none required = required
or_required (some t) required = ok t

unfoldable pub scripted_reply : Dict Text → Register → Option String → Result KeyError Text
scripted_reply entry register lang =
    or_required (wording (get (register_key (resolve_register register lang)) entry))
      (require (key_error "masri") (get "masri" entry))

unfoldable pub say : Voice → Dict Text → Result KeyError Text
say voice entry = scripted_reply entry voice.register voice.lang

-- An empty entry counts as none, and so does an absent node.
unfoldable pub entry_of : Option String → Dict (Dict Text) → Option (Dict Text)
entry_of none entries = none
entry_of (some node) entries = elim (get node entries) [
  | none ↦ none
  | some entry ↦ if is_empty entry then none else some entry
]

-- `entries` are the replies under `clarify_by_node`, empty where there are none.
unfoldable pub node_clarification :
    Dict (Dict Text) → Option String → Voice → Result KeyError (Option Text)
node_clarification entries node voice = elim (entry_of node entries) [
  | none ↦ ok none
  | some entry ↦ say voice entry >>= λ text. ok (some text)
]

unfoldable pub say_or_default : Option (Dict Text) → Dict (Dict Text) → Voice → Result KeyError Text
say_or_default (some entry) entries voice = say voice entry
say_or_default none entries voice =
    require (key_error "default") (get "default" entries) >>= λ entry. say voice entry

-- `entries` are those under `grounding_failed`.
unfoldable pub verification_pending :
    Dict (Dict Text) → Option String → Voice → Result KeyError Text
verification_pending entries node voice = say_or_default (entry_of node entries) entries voice

-- `entries` are those under `refuse`.
unfoldable pub refusal : Dict (Dict Text) → Option String → Voice → Result KeyError Text
refusal entries node voice = say_or_default (entry_of node entries) entries voice

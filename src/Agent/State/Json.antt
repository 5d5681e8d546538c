-- ===== src/Agent/State/Json.antt =====
-- `ConversationState.to_json` and `from_json`: what `conversations.state` holds.
use moreofchat.Prelude.{is_empty, false, ℕ, String, ◌≡◌, refl, Option, none, some, [], ◌∷◌}
use moreofchat.Dict.{Dict, get}
use moreofchat.Agent.State.{ConversationState}

-- The JSON values that occur as fields of the record.
pub data Json (V : Type 0) : Type 0 where
  null : Json V
  text : String → Json V
  number : ℕ → Json V
  object : Dict V → Json V

module _ {V : Type 0} where
  text_or_null : Option String → Json V
  text_or_null none = null
  text_or_null (some s) = text s

  pub to_json : ConversationState V → Dict (Json V)
  unfolding text_or_null
  to_json s =
      ("script_id", text s.script_id)
      ∷ ("script_version", number s.script_version)
      ∷ ("node", text_or_null s.node)
      ∷ ("slots", object s.slots)
      ∷ ("consecutive_clarifications", number s.consecutive_clarifications)
      ∷ ("quoted_unit_id", text_or_null s.quoted_unit_id)
      ∷ []

  -- A field of another JSON type than the column ever holds is read as missing.
  as_text : Option (Json V) → Option String
  as_text (some (text s)) = some s
  as_text _ = none

  as_number : Option (Json V) → Option ℕ
  as_number (some (number n)) = some n
  as_number _ = none

  -- `record.get("slots") or {}`
  as_slots : Option (Json V) → Dict V
  as_slots (some (object d)) = d
  as_slots _ = []

  -- `record.get("consecutive_clarifications", 0)`
  as_count : Option (Json V) → ℕ
  as_count (some (number n)) = n
  as_count _ = 0

  build : Dict (Json V) → Option String → Option ℕ → Option (ConversationState V)
  unfolding as_text as_slots as_count
  build r (some id) (some version) = some (record {
    script_id = id;
    script_version = version;
    node = as_text (get "node" r);
    slots = as_slots (get "slots" r);
    consecutive_clarifications = as_count (get "consecutive_clarifications" r);
    quoted_unit_id = as_text (get "quoted_unit_id" r);
  })
  build r _ _ = none

  -- `none` is the `KeyError` of a record with no script id or version.
  pub from_json : Dict (Json V) → Option (ConversationState V)
  unfolding build as_text as_number
  from_json r = build r (as_text (get "script_id" r)) (as_number (get "script_version" r))

text_or_null-as_text :
    (V : Type 0) (o : Option String) → as_text {V = V} (some (text_or_null o)) ≡ o
unfolding text_or_null as_text
text_or_null-as_text V none = refl
text_or_null-as_text V (some s) = refl

module _ {V : Type 0} where
  -- Reading back the record that a state was written as gives that state, every field included.
  pub from_json-to_json : (s : ConversationState V) → from_json (to_json s) ≡ some s
  unfolding from_json to_json get
  from_json-to_json s = cc (text_or_null-as_text V s.node, text_or_null-as_text V s.quoted_unit_id)

-- A written state is not the empty object.
pub is_empty-to_json : {V : Type 0} (s : ConversationState V) → is_empty (to_json s) ≡ false
unfolding to_json
is_empty-to_json s = refl

-- A record that has only the two required fields, as an early row does, is read as a state at no
-- node, with no slot, no clarification counted and no quoted unit.
pub from_json_defaults :
    (V : Type 0) (id : String) (version : ℕ)
    → from_json {V = V} (("script_id", text id) ∷ ("script_version", number version) ∷ [])
      ≡ some (record {
        script_id = id;
        script_version = version;
        node = none;
        slots = [];
        consecutive_clarifications = 0;
        quoted_unit_id = none;
      })
unfolding from_json get
from_json_defaults V id version = refl

-- ===== src/Agent/Conversations.antt =====
-- src/moc/agent/conversations.py: the rows of `conversations` of one tenant, found by channel and
-- sender. A new row's id is an argument; `start` is what the script engine starts from.
pub mod Save
mod Tests
use moreofchat.Prelude.{
  ℕ, String, str_eq, Bool, true, false, ◌&&◌, Option, none, some, List, [], ◌∷◌, keep, map,
  is_empty, if◌then◌else◌, or_else,
}
use moreofchat.Result.{Result, ok, err, require, ◌>>=◌}
use moreofchat.Dict.{Dict}
use moreofchat.Agent.State.{ConversationState}
use moreofchat.Agent.State.Json.{Json, to_json, from_json}

-- The state is JSON, with no field where the column has its default.
pub record Conversation (V : Type 0) : Type 0 where
  pub id : String
  pub channel : Option String
  pub sender_ref : Option String
  pub state : Dict (Json V)
  pub channel_account_id : Option String
  pub last_inbound_at : Option ℕ
  pub contact_id : Option String

-- `scalar_one_or_none()` on several rows, and a stored state that lacks a required field.
pub data Error : Type 0 where
  multiple_results : Error
  key_error : Error

unfoldable pub scalar_one_or_none : {A : Type 0} → List A → Result Error (Option A)
scalar_one_or_none [] = ok none
scalar_one_or_none (a ∷ []) = ok (some a)
scalar_one_or_none (a ∷ (b ∷ rest)) = err multiple_results

-- `column = :text`, which no null is.
abbrev pub is_text : String → Option String → Bool
is_text s none = false
is_text s (some t) = str_eq t s

module _ {V : Type 0} where
  abbrev pub is_thread : String → String → Conversation V → Bool
  is_thread channel sender_ref c = is_text channel c.channel && is_text sender_ref c.sender_ref

  unfoldable pub load_row :
      ConversationState V → Option (Conversation V) → Result Error (ConversationState V)
  load_row start none = ok start
  load_row start (some c) =
      if is_empty c.state then ok start else require key_error (from_json c.state)

  unfoldable pub load :
      String
      → String
      → ConversationState V
      → List (Conversation V)
      → Result Error (ConversationState V)
  load channel sender_ref start rows =
      scalar_one_or_none (keep (is_thread channel sender_ref) rows) >>= load_row start

  unfoldable pub id_of : Option (Conversation V) → Option String
  id_of none = none
  id_of (some c) = some c.id

  unfoldable pub find : String → String → List (Conversation V) → Result Error (Option String)
  find channel sender_ref rows =
      scalar_one_or_none (keep (is_thread channel sender_ref) rows) >>= λ row. ok (id_of row)

  unfoldable pub touch : String → Option ℕ → List (Conversation V) → List (Conversation V)
  touch id last_inbound_at rows =
      map (λ c. if str_eq c.id id then record c { last_inbound_at = last_inbound_at } else c) rows

  -- `DO UPDATE SET`: a contact that the row has stays.
  unfoldable pub overwrite : Conversation V → Conversation V → Conversation V
  overwrite held new = record held {
    state = new.state;
    channel_account_id = new.channel_account_id;
    last_inbound_at = new.last_inbound_at;
    contact_id = or_else held.contact_id new.contact_id;
  }

  unfoldable pub upsert :
      String → String → Conversation V → List (Conversation V) → List (Conversation V) × String
  upsert channel sender_ref new [] = (new ∷ [], new.id)
  upsert channel sender_ref new (c ∷ rows) =
      let rest = upsert channel sender_ref new rows in
      if is_thread channel sender_ref c
      then (overwrite c new ∷ rows, c.id)
      else (c ∷ rest.0, rest.1)

  unfoldable pub save :
      String
      → String
      → String
      → Option String
      → Option ℕ
      → ConversationState V
      → Option String
      → List (Conversation V)
      → List (Conversation V) × String
  save id channel sender_ref channel_account_id last_inbound_at state contact_id rows =
      upsert channel sender_ref
        (record {
          id = id;
          channel = some channel;
          sender_ref = some sender_ref;
          state = to_json state;
          channel_account_id = channel_account_id;
          last_inbound_at = last_inbound_at;
          contact_id = contact_id;
        })
        rows

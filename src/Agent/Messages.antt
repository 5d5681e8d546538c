-- ===== src/Agent/Messages.antt =====
-- src/moc/agent/handoff.py, `ContactStore` and `MessageLog`: the people behind the addresses and the
-- thread that an agent reads. A new row's id and the clock are arguments.
use moreofchat.Prelude.{
  ℕ, String, str_eq, Bool, true, ◌&&◌, Option, none, some, List, [], ◌∷◌, ◌++◌, keep, if◌then◌else◌,
  ltb, not,
}
use moreofchat.Result.{Result, ok, err}
use moreofchat.Dict.{Dict, contains}
use moreofchat.Agent.Handoff.{Handoff}

pub record Message (P : Type 0) : Type 0 where
  pub id : String
  pub conversation_id : String
  pub channel : String
  pub author : String
  pub body : Option String
  pub created_at : ℕ
  pub provenance : Option (Dict P)
  pub timings : Option (Dict P)

pub record Contact : Type 0 where
  pub id : String
  pub contact_ref : String
  pub display_name : Option String

-- An author that is none of the three, and `one()` where the conversation is not there.
pub data Error : Type 0 where
  unknown_author : String → Error
  no_result : Error

abbrev pub customer : String
customer = "customer"

abbrev pub bot : String
bot = "bot"

abbrev pub agent : String
agent = "agent"

-- `display_name` is none in each call of the workers, and then the name that the row has stays.
unfoldable pub resolve : String → String → List Contact → List Contact × String
resolve id contact_ref [] =
    (record { id = id; contact_ref = contact_ref; display_name = none } ∷ [], id)
resolve id contact_ref (c ∷ contacts) =
    let rest = resolve id contact_ref contacts in
    if str_eq c.contact_ref contact_ref then (c ∷ contacts, c.id) else (c ∷ rest.0, rest.1)

-- `max(h.returned_at)` over the handoffs of the conversation.
unfoldable pub later : Option ℕ → Option ℕ → Option ℕ
later none b = b
later (some a) none = some a
later (some a) (some b) = some (if ltb a b then b else a)

unfoldable pub last_return : {J : Type 0} → String → List (Handoff J) → Option ℕ
last_return conversation_id [] = none
last_return conversation_id (h ∷ rows) =
    let rest = last_return conversation_id rows in
    if str_eq h.conversation_id conversation_id then later h.returned_at rest else rest

-- `created_at > coalesce(..., '-infinity')`
unfoldable pub is_after : ℕ → Option ℕ → Bool
is_after at none = true
is_after at (some since) = ltb since at

module _ {P : Type 0} where
  -- `json.dumps(x) if x else None`
  unfoldable pub or_null : Option (Dict P) → Option (Dict P)
  or_null none = none
  or_null (some []) = none
  or_null (some (field ∷ fields)) = some (field ∷ fields)

  -- `conversations` are the ids of the tenant's conversations.
  unfoldable pub append :
      List String → Message P → List (Message P) → Result Error (List (Message P))
  append conversations m messages =
      if not (contains m.author (customer ∷ (bot ∷ (agent ∷ []))))
      then err (unknown_author m.author)
      else if contains m.conversation_id conversations
      then ok (
          messages
          ++ (record m { provenance = or_null m.provenance; timings = or_null m.timings } ∷ []))
      else err no_result

  unfoldable pub is_pending : String → Option ℕ → Message P → Bool
  is_pending conversation_id since m =
      str_eq m.conversation_id conversation_id
      && str_eq m.author customer
      && is_after m.created_at since

  unfoldable pub insert_message : Message P → List (Message P) → List (Message P)
  insert_message m [] = m ∷ []
  insert_message m (n ∷ messages) =
      let rest = insert_message m messages in
      if ltb n.created_at m.created_at then n ∷ rest else m ∷ (n ∷ messages)

  unfoldable pub order_by_created : List (Message P) → List (Message P)
  order_by_created [] = []
  order_by_created (m ∷ messages) = insert_message m (order_by_created messages)

  unfoldable pub unprocessed_inbound :
      {J : Type 0} → String → List (Handoff J) → List (Message P) → List (Message P)
  unprocessed_inbound conversation_id handoffs messages =
      order_by_created
        (keep (is_pending conversation_id (last_return conversation_id handoffs)) messages)

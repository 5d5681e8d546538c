-- ===== src/Agent/Handoff.antt =====
-- src/moc/agent/handoff.py: the rows of `handoffs` and the cursors of `conversations` for one tenant.
-- `J` is the type of a cursor, the JSON of `conversations.state`; the ids and the clock are arguments.
-- A statement that raises leaves the tables as they were.
pub mod Live
pub mod Resume
pub mod Release
mod Tests
use moreofchat.Prelude.{
  ℕ, ◌+◌, String, str_eq, Bool, true, false, ◌&&◌, Option, none, some, List, [], ◌∷◌, ◌++◌, map,
  not, any, keep, if◌then◌else◌,
}
use moreofchat.Result.{Result, ok, err, ◌>>=◌}
use moreofchat.Dict.{Dict, get, put}

pub data Status : Type 0 where
  opened claimed returned : Status

pub record Handoff (J : Type 0) : Type 0 where
  pub id : String
  pub conversation_id : String
  pub reason : String
  pub status : Status
  pub resume_state : J
  pub opened_at : ℕ
  pub claimed_at : Option ℕ
  pub claimed_by : Option String
  pub returned_at : Option ℕ
  pub team : Option String
  pub lead_qualified : Option Bool
  pub lead_score : Option ℕ

pub record Tables (J : Type 0) : Type 0 where
  pub handoffs : List (Handoff J)
  pub cursors : Dict J

-- `one()` on no row or on several, and the unique index on the live handoff of a conversation.
pub data StoreError : Type 0 where
  no_result : StoreError
  multiple_results : StoreError
  integrity_error : StoreError

-- What `open` is told of a lead: all three absent where the handoff is none.
pub record LeadNote : Type 0 where
  pub team : Option String
  pub lead_qualified : Option Bool
  pub lead_score : Option ℕ

abbrev pub is_live : Status → Bool
is_live returned = false
is_live opened = true
is_live claimed = true

module _ {J : Type 0} where
  -- `conversation_id = :conversation_id AND status <> 'returned'`
  abbrev pub holds : String → Handoff J → Bool
  holds conversation_id h = str_eq h.conversation_id conversation_id && is_live h.status

  -- `id = :id AND status <> 'returned'`
  abbrev pub matches : String → Handoff J → Bool
  matches id h = str_eq h.id id && is_live h.status

  abbrev pub update : String → (Handoff J → Handoff J) → List (Handoff J) → List (Handoff J)
  update id set [] = []
  update id set (h ∷ rows) = (if matches id h then set h else h) ∷ update id set rows

  unfoldable pub one : List (Handoff J) → Result StoreError (Handoff J)
  one [] = err no_result
  one (h ∷ []) = ok h
  one (h ∷ (other ∷ rows)) = err multiple_results

  unfoldable pub open_row : String → String → String → J → LeadNote → ℕ → Handoff J
  open_row id conversation_id reason resume_state lead now = record {
    id = id;
    conversation_id = conversation_id;
    reason = reason;
    status = opened;
    resume_state = resume_state;
    opened_at = now;
    claimed_at = none;
    claimed_by = none;
    returned_at = none;
    team = lead.team;
    lead_qualified = lead.lead_qualified;
    lead_score = lead.lead_score;
  }

  -- `INSERT ... SELECT` from the conversation: no conversation, no row.
  unfoldable pub insert : Handoff J → Option J → Tables J → Result StoreError (Tables J × Handoff J)
  insert h none t = err no_result
  insert h (some cursor) t =
      if any (holds h.conversation_id) t.handoffs
      then err integrity_error
      else ok (record t { handoffs = t.handoffs ++ (h ∷ []) }, h)

  unfoldable pub open_handoff :
      String
      → String
      → String
      → J
      → LeadNote
      → ℕ
      → Tables J
      → Result StoreError (Tables J × Handoff J)
  open_handoff id conversation_id reason resume_state lead now t =
      insert (open_row id conversation_id reason resume_state lead now)
        (get conversation_id t.cursors) t

  abbrev pub claim_row : String → ℕ → Handoff J → Handoff J
  claim_row agent_id now h = record h {
    status = claimed;
    claimed_at = some now;
    claimed_by = some agent_id;
  }

  unfoldable pub claim : String → String → ℕ → Tables J → Result StoreError (Tables J × Handoff J)
  claim id agent_id now t =
      one (map (claim_row agent_id now) (keep (matches id) t.handoffs)) >>= λ h.
      ok (record t { handoffs = update id (claim_row agent_id now) t.handoffs }, h)

  abbrev pub return_row : ℕ → Handoff J → Handoff J
  return_row now h = record h { status = returned; returned_at = some now }

  unfoldable pub return_to_bot : String → ℕ → Tables J → Result StoreError (Tables J × Handoff J)
  return_to_bot id now t = one (map (return_row now) (keep (matches id) t.handoffs)) >>= λ h. ok (
    record {
      handoffs = update id (return_row now) t.handoffs;
      cursors = put h.conversation_id h.resume_state t.cursors;
    },
    h,
  )

  -- `one_or_none()` of the live rows of a conversation.
  unfoldable pub one_or_none : List (Handoff J) → Result StoreError (Option (Handoff J))
  one_or_none [] = ok none
  one_or_none (h ∷ []) = ok (some h)
  one_or_none (h ∷ (other ∷ rows)) = err multiple_results

  unfoldable pub live_for_conversation : String → Tables J → Result StoreError (Option (Handoff J))
  live_for_conversation conversation_id t = one_or_none (keep (holds conversation_id) t.handoffs)

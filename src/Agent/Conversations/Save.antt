-- ===== src/Agent/Conversations/Save.antt =====
-- What a saved conversation loads as (src/moc/agent/conversations.py).
use moreofchat.Prelude.{
  ℕ, ◌≤◌, ◌≡◌, refl, sym, ◌∙◌, String, str_eq, eq_iff, true, false, ◌&&◌, Option, none, some, List,
  [], ◌∷◌, keep, length, arith,
}
use moreofchat.Result.{ok, ◌>>=◌}
use moreofchat.Agent.State.{ConversationState}
use moreofchat.Agent.State.Json.{to_json, from_json-to_json, is_empty-to_json}
use moreofchat.Agent.Conversations.{
  Conversation, is_text, is_thread, load, load_row, id_of, find, overwrite, upsert, save,
  scalar_one_or_none,
}

-- Two keys that one row is found by are the same key.
is_text-same :
    (s t : String) (held : Option String)
    → is_text s held ≡ true
    → is_text t held ≡ true
    → str_eq s t ≡ true
is_text-same s t none first second = cc
is_text-same s t (some u) first second =
    (eq_iff s t).1 (sym ((eq_iff u s).0 first) ∙ (eq_iff u t).0 second)

module _ {V : Type 0} where
  -- At most one row for a channel and a sender, which the unique index states.
  abbrev pub IsSingle : String → String → List (Conversation V) → Type 0
  IsSingle channel sender_ref rows = length (keep (is_thread channel sender_ref) rows) ≤ 1

  replaced : Conversation V → List (Conversation V) → List (Conversation V)
  replaced new [] = new ∷ []
  replaced new (c ∷ rows) = overwrite c new ∷ rows

  id_in : Conversation V → List (Conversation V) → String
  id_in new [] = new.id
  id_in new (c ∷ rows) = c.id

  keep-upsert :
      (channel sender_ref : String) (new : Conversation V) (rows : List (Conversation V))
      → is_thread channel sender_ref new ≡ true
      → (keep (is_thread channel sender_ref) (upsert channel sender_ref new rows).0
          ≡ replaced new (keep (is_thread channel sender_ref) rows))
        × ((upsert channel sender_ref new rows).1
            ≡ id_in new (keep (is_thread channel sender_ref) rows))
  unfolding upsert overwrite replaced id_in
  keep-upsert channel sender_ref new [] own = (rw own refl, refl)
  keep-upsert channel sender_ref new (c ∷ rows) own =
      let rest = keep-upsert channel sender_ref new rows own in ground (arith, rest.0, rest.1)

  own_thread :
      (channel sender_ref : String) (new : Conversation V)
      → new.channel ≡ some channel
      → new.sender_ref ≡ some sender_ref
      → is_thread channel sender_ref new ≡ true
  own_thread channel sender_ref new on_channel from =
      rw (on_channel, from, (eq_iff channel channel).1 refl, (eq_iff sender_ref sender_ref).1 refl)

  load_stored :
      (start s : ConversationState V) (c : Conversation V)
      → c.state ≡ to_json s
      → load_row start (some c) ≡ ok s
  unfolding load_row
  load_stored start s c stored = rw (stored, is_empty-to_json s, from_json-to_json s)

  replaced-loads :
      (start s : ConversationState V) (new : Conversation V) (held : List (Conversation V))
      → length held ≤ 1
      → new.state ≡ to_json s
      → ((scalar_one_or_none (replaced new held) >>= load_row start) ≡ ok s)
        × ((scalar_one_or_none (replaced new held) >>= λ row. ok (id_of row))
            ≡ ok (some (id_in new held)))
        × (length (replaced new held) ≤ 1)
  unfolding replaced id_in id_of scalar_one_or_none overwrite
  replaced-loads start s new [] single stored = (load_stored start s new stored, refl, omega arith)
  replaced-loads start s new (c ∷ []) single stored =
      (load_stored start s (overwrite c new) stored, refl, omega arith)
  replaced-loads start s new (c ∷ (d ∷ held)) single stored = grind (arith, single)

  is_thread-other :
      (channel sender_ref other_channel other_ref : String) (c : Conversation V)
      → (str_eq channel other_channel && str_eq sender_ref other_ref) ≡ false
      → is_thread channel sender_ref c ≡ true
      → is_thread other_channel other_ref c ≡ false
  is_thread-other channel sender_ref other_channel other_ref c other own = ground (
    arith,
    other,
    own,
    is_text-same channel other_channel c.channel,
    is_text-same sender_ref other_ref c.sender_ref,
  )

  keep-upsert_other :
      (channel sender_ref other_channel other_ref : String) (new : Conversation V)
      (rows : List (Conversation V))
      → (str_eq channel other_channel && str_eq sender_ref other_ref) ≡ false
      → is_thread channel sender_ref new ≡ true
      → keep (is_thread other_channel other_ref) (upsert channel sender_ref new rows).0
        ≡ keep (is_thread other_channel other_ref) rows
  unfolding upsert overwrite
  keep-upsert_other channel sender_ref other_channel other_ref new [] other own =
      rw (is_thread-other channel sender_ref other_channel other_ref new other own) refl
  keep-upsert_other channel sender_ref other_channel other_ref new (c ∷ rows) other own = ground (
    arith,
    keep-upsert_other channel sender_ref other_channel other_ref new rows other own,
    is_thread-other channel sender_ref other_channel other_ref c other,
  )

  -- The row that a turn saves is the one that the next turn of the same sender finds, and it loads as
  -- the very state that was saved, whether the thread is new or was there; there is still one row for
  -- the sender. This needs at most one such row before, as the unique index states.
  pub save-load :
      (id channel sender_ref : String) (account : Option String) (at : Option ℕ)
      (state start : ConversationState V) (contact_id : Option String)
      (rows : List (Conversation V))
      → IsSingle channel sender_ref rows
      → (load channel sender_ref start
            (save id channel sender_ref account at state contact_id rows).0
          ≡ ok state)
        × (find channel sender_ref (save id channel sender_ref account at state contact_id rows).0
            ≡ ok (some (save id channel sender_ref account at state contact_id rows).1))
        × IsSingle channel sender_ref
            (save id channel sender_ref account at state contact_id rows).0
  unfolding save load find
  save-load id channel sender_ref account at state start contact_id rows single =
      let new : Conversation V = record {
        id = id;
        channel = some channel;
        sender_ref = some sender_ref;
        state = to_json state;
        channel_account_id = account;
        last_inbound_at = at;
        contact_id = contact_id;
      } in
      let kept =
        keep-upsert channel sender_ref new rows (own_thread channel sender_ref new refl refl) in
      rw (kept.0, kept.1)
        (replaced-loads start state new (keep (is_thread channel sender_ref) rows) single refl)

  -- A turn of one sender leaves every other thread, of another sender or another channel, as it was:
  -- it loads as the same state and is found by the same id.
  pub save-others :
      (id channel sender_ref other_channel other_ref : String) (account : Option String)
      (at : Option ℕ) (state start : ConversationState V) (contact_id : Option String)
      (rows : List (Conversation V))
      → (str_eq channel other_channel && str_eq sender_ref other_ref) ≡ false
      → (load other_channel other_ref start
            (save id channel sender_ref account at state contact_id rows).0
          ≡ load other_channel other_ref start rows)
        × (find other_channel other_ref
              (save id channel sender_ref account at state contact_id rows).0
            ≡ find other_channel other_ref rows)
  unfolding save load find
  save-others id channel sender_ref other_channel other_ref account at state start contact_id rows
        other =
      let new : Conversation V = record {
        id = id;
        channel = some channel;
        sender_ref = some sender_ref;
        state = to_json state;
        channel_account_id = account;
        last_inbound_at = at;
        contact_id = contact_id;
      } in
      let kept =
        keep-upsert_other channel sender_ref other_channel other_ref new rows other
          (own_thread channel sender_ref new refl refl) in
      rw kept (refl, refl)

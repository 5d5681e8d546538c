-- ===== src/Workers/Streams/Delivery.antt =====
-- A pass over a batch of entries (src/moc/workers/streams.py), for a handler that acknowledges no
-- entry itself: that is the consumer's.
use moreofchat.Prelude.{
  ◌≤◌, String, str_eq, ◌≡◌, refl, ap, ◌∙◌, Bool, false, Option, none, some, List, [], ◌∷◌, ◌++◌,
  length, All, arith,
}
use moreofchat.Dict.{get}
use moreofchat.Workers.Streams.{
  Entry, Outcome, StreamConsumer, Server, process_payload, process, process_all,
}
use moreofchat.Workers.Streams.Laws.{
  IsStream, IsBuried, IsSettled, bury-IsBuried, bury-others, settle-IsSettled, settle-others,
}

module _ {W : Type 0} (server : Server W) (c : StreamConsumer) (s : IsStream server c)
    (handle : String → W → W × Outcome) where
  -- An entry with a payload is settled by how the handler ended; one without is buried.
  pub IsAccounted : String → Option String → W → W × Bool → Type 0
  IsAccounted id none w after = (after.1 ≡ false) × IsBuried server c s id "" after.0
  IsAccounted id (some payload) w after = IsSettled server c s id payload (handle payload w) after

  process_payload-IsAccounted :
      (id : String) (payload : Option String) (w : W)
      → IsAccounted id payload w (process_payload server c handle id payload w)
  unfolding process_payload IsAccounted
  process_payload-IsAccounted id none w =
      (refl, bury-IsBuried server c s id "" "missing payload" [] w)
  process_payload-IsAccounted id (some payload) w =
      settle-IsSettled server c s id payload (handle payload w)

  -- No entry is lost. An entry that was processed is acknowledged because the handler returned, or is
  -- acknowledged with its payload in the newest dead letter, or is left to the next delivery in the
  -- state that the failed handler left, with attempts to spare. An entry without payload is buried.
  pub process-IsAccounted :
      (e : Entry) (w : W)
      → IsAccounted e.entry_id (get "payload" e.fields) w (process server c handle e w)
  unfolding process
  process-IsAccounted e w = process_payload-IsAccounted e.entry_id (get "payload" e.fields) w

  -- The handler leaves the pending list as it is.
  unfoldable pub KeepsPending : Type 0
  KeepsPending = (payload id : String) (w : W) → s.pending id (handle payload w).0 ≡ s.pending id w

  process_payload-others :
      (id other : String) (payload : Option String) (w : W)
      → KeepsPending
      → str_eq id other ≡ false
      → s.pending other (process_payload server c handle id payload w).0 ≡ s.pending other w
  unfolding process_payload KeepsPending
  process_payload-others id other none w keeps differs =
      bury-others server c s id "" "missing payload" [] other w differs
  process_payload-others id other (some payload) w keeps differs =
      settle-others server c s id payload other (handle payload w) differs ∙ keeps payload other w

  process-others :
      (e : Entry) (other : String) (w : W)
      → KeepsPending
      → str_eq e.entry_id other ≡ false
      → s.pending other (process server c handle e w).0 ≡ s.pending other w
  unfolding process
  process-others e other w keeps differs =
      process_payload-others e.entry_id other (get "payload" e.fields) w keeps differs

  process_all-others :
      (entries : List Entry) (other : String) (w : W)
      → KeepsPending
      → All (λ (e : Entry). str_eq e.entry_id other ≡ false) entries
      → s.pending other (process_all server c handle entries w).0 ≡ s.pending other w
  unfolding process_all
  process_all-others [] other w keeps differ = refl
  process_all-others (e ∷ entries) other w keeps differ =
      process_all-others entries other (process server c handle e w).0 keeps differ.1
      ∙ process-others e other w keeps differ.0

  process_all-append :
      (front back : List Entry) (w : W)
      → (process_all server c handle (front ++ back) w).0
        ≡ (process_all server c handle back (process_all server c handle front w).0).0
  unfolding process_all
  process_all-append [] back w = refl
  process_all-append (e ∷ front) back w =
      process_all-append front back (process server c handle e w).0

  -- An entry that fails or is buried stops no other: every entry of the batch is processed, in order,
  -- and what its own processing decides of it still holds at the end of the batch, where the later
  -- entries have other ids and the handler acknowledges nothing.
  pub process_all-isolates :
      (front : List Entry) (e : Entry) (back : List Entry) (w : W)
      → KeepsPending
      → All (λ (later : Entry). str_eq later.entry_id e.entry_id ≡ false) back
      → s.pending e.entry_id (process_all server c handle (front ++ (e ∷ back)) w).0
        ≡ s.pending e.entry_id (process server c handle e (process_all server c handle front w).0).0
  unfolding process_all
  process_all-isolates front e back w keeps differ =
      ap (s.pending e.entry_id) (process_all-append front (e ∷ back) w)
      ∙ process_all-others back e.entry_id
          (process server c handle e (process_all server c handle front w).0).0 keeps differ

  -- The count of a batch is at most the number of its entries.
  process_all-count_le :
      (entries : List Entry) (w : W) → (process_all server c handle entries w).1 ≤ length entries
  unfolding process_all
  process_all-count_le [] w = omega arith
  process_all-count_le (e ∷ entries) w =
      let rest = process_all-count_le entries (process server c handle e w).0 in ground arith

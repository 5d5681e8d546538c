-- ===== src/Workers/Streams/Laws.antt =====
-- What becomes of an entry of the work stream (src/moc/workers/streams.py). `IsStream` states what the
-- code relies on in the stream server: what an acknowledgement and an addition do.
use moreofchat.Prelude.{
  ℕ, ◌<◌, String, str_eq, ◌≡◌, refl, ◌∙◌, ◌⊎◌, inl, inr, Bool, true, false, Option, some, List, leb,
  if-elim, arith,
}
use moreofchat.Workers.Streams.{
  DeadLetter, Outcome, returned, terminal, failed, StreamConsumer, Server, bury, attempts, settle,
}

-- `pending` is the group's list of entries delivered and not acknowledged; `newest` is the last entry
-- of the dead-letter stream, which a cap on its length never drops.
pub record IsStream {W : Type 0} (server : Server W) (c : StreamConsumer) : Type 0 where
  pub pending : String → W → Bool
  pub newest : W → Option DeadLetter
  pub xack-pending : (id : String) (w : W) → pending id (server.xack c.stream c.group id w) ≡ false
  pub xack-others :
      (id other : String) (w : W)
      → str_eq id other ≡ false
      → pending other (server.xack c.stream c.group id w) ≡ pending other w
  pub xack-newest : (id : String) (w : W) → newest (server.xack c.stream c.group id w) ≡ newest w
  pub xadd-pending :
      (id : String) (l : DeadLetter) (w : W)
      → pending id (server.xadd c.dead_letter_stream c.dead_letter_maxlen l w) ≡ pending id w
  pub xadd-newest :
      (l : DeadLetter) (w : W)
      → newest (server.xadd c.dead_letter_stream c.dead_letter_maxlen l w) ≡ some l

module _ {W : Type 0} (server : Server W) (c : StreamConsumer) (s : IsStream server c) where
  -- The entry is out of the pending list and its payload is in the newest dead letter.
  pub IsBuried : String → String → W → Type 0
  IsBuried id payload w =
      (s.pending id w ≡ false)
      × ((l : DeadLetter) × (s.newest w ≡ some l) × (l.entry_id ≡ id) × (l.payload ≡ payload))

  pub bury-IsBuried :
      (id payload reason : String) (frames : List ℕ) (w : W)
      → IsBuried id payload (bury server c id payload reason frames w)
  unfolding bury IsBuried
  bury-IsBuried id payload reason frames w =
      (s.xack-pending id _, (_, s.xack-newest id _ ∙ s.xadd-newest _ w, refl, refl))

  pub bury-others :
      (id payload reason : String) (frames : List ℕ) (other : String) (w : W)
      → str_eq id other ≡ false
      → s.pending other (bury server c id payload reason frames w) ≡ s.pending other w
  unfolding bury
  bury-others id payload reason frames other w differs =
      s.xack-others id other _ differs ∙ s.xadd-pending other _ w

  -- What a handler's call may leave of an entry: acknowledged after the handler returned, buried, or
  -- left as it is for another delivery, and this only after a failure with attempts to spare.
  pub IsSettled : String → String → W × Outcome → W × Bool → Type 0
  IsSettled id payload called after =
      ((called.1 ≡ returned) × (after.1 ≡ true) × (s.pending id after.0 ≡ false))
      ⊎ ((after.1 ≡ false) × IsBuried id payload after.0)
      ⊎ ((after.1 ≡ false)
          × (after.0 ≡ called.0)
          × (attempts server c id called.0 < c.max_attempts))

  pub settle-IsSettled :
      (id payload : String) (called : W × Outcome)
      → IsSettled id payload called (settle server c id payload called)
  unfolding settle IsSettled
  settle-IsSettled id payload (w, returned) = inl (refl, refl, s.xack-pending id w)
  settle-IsSettled id payload (w, terminal f) =
      inr (inl (refl, bury-IsBuried id payload f.reason f.frames w))
  settle-IsSettled id payload (w, failed f) =
      if-elim (λ (after : W). IsSettled id payload (w, failed f) (after, false))
        (leb c.max_attempts (attempts server c id w))
        (λ spent. inr (inl (refl, bury-IsBuried id payload f.reason f.frames w)))
        (λ spare. inr (inr (refl, refl, ground arith)))

  pub settle-others :
      (id payload other : String) (called : W × Outcome)
      → str_eq id other ≡ false
      → s.pending other (settle server c id payload called).0 ≡ s.pending other called.0
  unfolding settle
  settle-others id payload other (w, returned) differs = s.xack-others id other w differs
  settle-others id payload other (w, terminal f) differs =
      bury-others id payload f.reason f.frames other w differs
  settle-others id payload other (w, failed f) differs =
      if-elim (λ (after : W). s.pending other after ≡ s.pending other w)
        (leb c.max_attempts (attempts server c id w))
        (λ spent. bury-others id payload f.reason f.frames other w differs) (λ spare. refl)

-- ===== src/Workers/Outbound/Handle.antt =====
-- What the sender does with a job, and what the consumer then makes of it (src/moc/workers/outbound.py
-- over src/moc/workers/streams.py).
use moreofchat.Prelude.{
  ◌≤◌, String, ◌≡◌, ◌≢◌, refl, sym, ap, subst, ◌∙◌, Bool, false, Option, none, some, leb, if-elim,
  arith,
}
use moreofchat.Prelude.Int.{ℤ}
use moreofchat.Dict.{get}
use moreofchat.Result.{ok}
use Prim.Native.String.{◌++◌ as str_append}
use text.Mathlib.TextLemmas.{append_cancel_left}
use moreofchat.Workers.Streams.{
  Entry, StreamConsumer, Server, Failure, Outcome, returned, terminal, failed, process,
  process_payload, settle, attempts,
}
use moreofchat.Workers.Streams.Laws.{IsStream, IsBuried, bury-IsBuried}
use moreofchat.Workers.Outbound.{
  RateLimit, Stored, KeyServer, draw, take_token, OutboundJob, Channels, send_with, handle_routed,
  handle_job, handle,
}

-- What the code relies on in the key-value server: a hash set is read back, and no other changes.
pub record IsKeyServer {W : Type 0} (server : KeyServer W) : Type 0 where
  pub hset-here :
      (key : String) (s : Stored) (w : W) → server.hgetall key (server.hset key s w) ≡ some s
  pub hset-others :
      (key other : String) (s : Stored) (w : W)
      → other ≢ key
      → server.hgetall other (server.hset key s w) ≡ server.hgetall other w

-- A draw stores what it leaves in the bucket of its tenant, and the bucket of any other tenant is as
-- it was: one tenant's traffic takes no token of another's.
pub take_token-isolates :
    {W : Type 0} (server : KeyServer W) (laws : IsKeyServer server) (l : RateLimit)
    (tenant other : String) (now : ℤ) (w : W)
    → other ≢ tenant
    → (server.hgetall (str_append l.key_prefix tenant) (take_token server l tenant now w).0
        ≡ some (draw l now (server.hgetall (str_append l.key_prefix tenant) w)).0)
      × (server.hgetall (str_append l.key_prefix other) (take_token server l tenant now w).0
          ≡ server.hgetall (str_append l.key_prefix other) w)
unfolding take_token
take_token-isolates server laws l tenant other now w differs = (
  laws.hset-here _ _ w,
  laws.hset-others _ _ _ w (λ same. differs (append_cancel_left l.key_prefix other tenant same)),
)

module _ {W P : Type 0} (stream : Server W) (c : StreamConsumer) (s : IsStream stream c)
    (channels : Channels W P) (keys : KeyServer W) (l : RateLimit) (now : ℤ) where
  settle-terminal :
      (id payload : String) (f : Failure) (called : W × Outcome)
      → called.1 ≡ terminal f
      → IsBuried stream c s id payload (settle stream c id payload called).0
  unfolding settle
  settle-terminal id payload f (w, returned) ended = cc
  settle-terminal id payload f (w, failed g) ended = cc
  settle-terminal id payload f (w, terminal g) ended =
      bury-IsBuried stream c s id payload g.reason g.frames w

  settle-spent :
      (id payload : String) (f : Failure) (called : W × Outcome)
      → called.1 ≡ failed f
      → c.max_attempts ≤ attempts stream c id called.0
      → IsBuried stream c s id payload (settle stream c id payload called).0
  unfolding settle
  settle-spent id payload f (w, returned) ended spent = cc
  settle-spent id payload f (w, terminal g) ended spent = cc
  settle-spent id payload f (w, failed g) ended spent =
      if-elim (λ (after : W). IsBuried stream c s id payload after)
        (leb c.max_attempts (attempts stream c id w))
        (λ over. bury-IsBuried stream c s id payload g.reason g.frames w) (λ under. ground arith)

  settled :
      (e : Entry) (payload : String) (job : OutboundJob) (w : W)
      → get "payload" e.fields ≡ some payload
      → channels.from_json payload ≡ ok job
      → process stream c (handle channels keys l now) e w
        ≡ settle stream c e.entry_id payload
            (handle_routed channels keys l job now (channels.for_job job.tenant_id job.channel w))
  unfolding process process_payload handle handle_job
  settled e payload job w has_payload decodes =
      ap (λ p. process_payload stream c (handle channels keys l now) e.entry_id p w) has_payload
      ∙ ap (λ r. settle stream c e.entry_id payload (handle_job channels keys l now r w)) decodes

  routed-none :
      (job : OutboundJob) (found : W × Option P)
      → found.1 ≡ none
      → (f : Failure) × ((handle_routed channels keys l job now found).1 ≡ terminal f)
  unfolding handle_routed
  routed-none job (w, none) missing = (_, refl)
  routed-none job (w, some provider) missing = cc

  routed-throttled :
      (job : OutboundJob) (found : W × Option P) (provider : P)
      → found.1 ≡ some provider
      → (take_token keys l job.tenant_id now found.0).1 ≡ false
      → (f : Failure) × (handle_routed channels keys l job now found
          ≡ ((take_token keys l job.tenant_id now found.0).0, failed f))
  unfolding handle_routed send_with
  routed-throttled job (w, none) provider routed refused = cc
  routed-throttled job (w, some other) provider routed refused = (
    _,
    ap (λ b. send_with channels keys l job other ((take_token keys l job.tenant_id now w).0, b))
        refused,
  )

  -- A job whose tenant has no sender on its channel is buried with its payload on the first attempt:
  -- it is neither retried nor sent through another tenant's account.
  pub unroutable-IsBuried :
      (e : Entry) (payload : String) (job : OutboundJob) (w : W)
      → get "payload" e.fields ≡ some payload
      → channels.from_json payload ≡ ok job
      → (channels.for_job job.tenant_id job.channel w).1 ≡ none
      → IsBuried stream c s e.entry_id payload (process stream c (handle channels keys l now) e w).0
  unroutable-IsBuried e payload job w has_payload decodes missing =
      let found = channels.for_job job.tenant_id job.channel w in
      let ended = routed-none job found missing in
      subst (λ (after : W × Bool). IsBuried stream c s e.entry_id payload after.0)
        (sym (settled e payload job w has_payload decodes))
        (settle-terminal e.entry_id payload ended.0 (handle_routed channels keys l job now found)
          ended.1)

  -- A reply that finds no token on its last attempt is buried, although nothing was tried with its
  -- sender: the attempts that the rate limit refused count like those that failed.
  pub throttled-IsBuried :
      (e : Entry) (payload : String) (job : OutboundJob) (provider : P) (w : W)
      → get "payload" e.fields ≡ some payload
      → channels.from_json payload ≡ ok job
      → (channels.for_job job.tenant_id job.channel w).1 ≡ some provider
      → (take_token keys l job.tenant_id now (channels.for_job job.tenant_id job.channel w).0).1
        ≡ false
      → c.max_attempts
        ≤ attempts stream c e.entry_id
            (take_token keys l job.tenant_id now (channels.for_job job.tenant_id job.channel w).0).0
      → IsBuried stream c s e.entry_id payload (process stream c (handle channels keys l now) e w).0
  throttled-IsBuried e payload job provider w has_payload decodes routed refused spent =
      let found = channels.for_job job.tenant_id job.channel w in
      let ended = routed-throttled job found provider routed refused in
      let left = (take_token keys l job.tenant_id now found.0).0 in
      subst (λ (after : W × Bool). IsBuried stream c s e.entry_id payload after.0)
        (sym (
          settled e payload job w has_payload decodes
          ∙ ap (settle stream c e.entry_id payload) ended.1))
        (settle-spent e.entry_id payload ended.0 (left, failed ended.0) refl spent)

-- ===== src/Workers/Outbound.antt =====
-- src/moc/workers/outbound.py: the sender and its token bucket. The amounts and the clock, which the
-- code keeps as floats, are integers: an amount counts parts of a token, `unit` to the token, and the
-- refill is the parts per tick of the clock. The key-value server, the registry of senders and the
-- job's decoder are parameters.
pub mod Bucket
pub mod Handle
mod Tests
use moreofchat.Prelude.{
  ℕ, ◌+◌, ◌<◌, String, Bool, true, false, Option, none, some, ltb, if◌then◌else◌, get_or, List, [],
}
use moreofchat.Prelude.Int.{ℤ, pos, pos_part, neg_part, scale, ◌+ℤ◌, ◌-ℤ◌}
use moreofchat.Dict.{Dict}
use moreofchat.Result.{Result, ok, err}
use moreofchat.Workers.Streams.{Failure, Outcome, returned, terminal, failed}
use Prim.Native.String.{◌++◌ as str_append}

pub record RateLimit : Type 0 where
  pub key_prefix : String
  pub capacity : ℕ
  pub refill : ℕ
  pub unit : ℕ

-- The fields of the stored hash, either of which may be absent.
pub record Stored : Type 0 where
  pub tokens : Option ℤ
  pub updated_at : Option ℤ

unfoldable pub ltb_ℤ : ℤ → ℤ → Bool
ltb_ℤ a b = ltb (pos_part a + neg_part b) (pos_part b + neg_part a)

unfoldable pub min_ℤ : ℤ → ℤ → ℤ
min_ℤ a b = if ltb_ℤ b a then b else a

-- The tokens held and the time they were held at, before a draw.
unfoldable pub held : RateLimit → ℤ → Option Stored → ℤ × ℤ
held l now none = (pos l.capacity, now)
held l now (some s) = (get_or s.tokens (pos l.capacity), get_or s.updated_at now)

unfoldable pub refilled : RateLimit → ℤ → ℤ × ℤ → ℤ
refilled l now (tokens, last) = min_ℤ (pos l.capacity) (tokens +ℤ scale l.refill (now -ℤ last))

-- What a draw stores and whether it grants a token.
unfoldable pub draw_from : RateLimit → ℤ → ℤ → Stored × Bool
draw_from l now tokens =
    if ltb_ℤ tokens (pos l.unit)
    then (record { tokens = some tokens; updated_at = some now }, false)
    else (record { tokens = some (tokens -ℤ pos l.unit); updated_at = some now }, true)

unfoldable pub draw : RateLimit → ℤ → Option Stored → Stored × Bool
draw l now stored = draw_from l now (refilled l now (held l now stored))

pub record KeyServer (W : Type 0) : Type 0 where
  pub hgetall : String → W → Option Stored
  pub hset : String → Stored → W → W

unfoldable pub take_token : {W : Type 0} → KeyServer W → RateLimit → String → ℤ → W → W × Bool
take_token server l tenant_id now w =
    let key = str_append l.key_prefix tenant_id in
    let drawn = draw l now (server.hgetall key w) in (server.hset key drawn.0 w, drawn.1)

pub record OutboundJob : Type 0 where
  pub tenant_id : String
  pub channel : String
  pub to : String
  pub text : Option String
  pub template : Option String
  pub template_variables : Option (Dict String)
  pub last_inbound_at : Option String
  pub thread_ref : Option String

-- `P` is the type of the adapters. `from_json` answers the exception where the payload is no job, and
-- `send` the one that it raises; `unroutable` and `rate_limited` are what the handler's own two
-- exceptions print.
pub record Channels (W P : Type 0) : Type 0 where
  pub from_json : String → Result Failure OutboundJob
  pub for_job : String → String → W → W × Option P
  pub send : P → OutboundJob → W → W × Option Failure
  pub unroutable : OutboundJob → Failure
  pub rate_limited : OutboundJob → Failure

abbrev pub raised : Option Failure → Outcome
raised none = returned
raised (some f) = failed f

module _ {W P : Type 0} (channels : Channels W P) (server : KeyServer W) (l : RateLimit) where
  unfoldable pub send_with : OutboundJob → P → W × Bool → W × Outcome
  send_with job provider (w, false) = (w, failed (channels.rate_limited job))
  send_with job provider (w, true) =
      let sent = channels.send provider job w in (sent.0, raised sent.1)

  unfoldable pub handle_routed : OutboundJob → ℤ → W × Option P → W × Outcome
  handle_routed job now (w, none) = (w, terminal (channels.unroutable job))
  handle_routed job now (w, some provider) =
      send_with job provider (take_token server l job.tenant_id now w)

  unfoldable pub handle_job : ℤ → Result Failure OutboundJob → W → W × Outcome
  handle_job now (err f) w = (w, failed f)
  handle_job now (ok job) w = handle_routed job now (channels.for_job job.tenant_id job.channel w)

  -- `_handle` at the time `now` of the clock.
  unfoldable pub handle : ℤ → String → W → W × Outcome
  handle now payload w = handle_job now (channels.from_json payload) w

-- ===== src/Workers/Outbound/Tests.antt =====
-- The sender run against servers kept as lists, one token to a hundred parts.
use moreofchat.Prelude.{
  String, str_eq, eq_refl, eq_iff, ◌≡◌, ◌≢◌, refl, ap, ◌∙◌, true, false, ◌||◌, Option, none, some,
  List, [], ◌∷◌, not, any, if◌then◌else◌, arith,
}
use Prim.{tt}
use moreofchat.Prelude.Int.{pos, scale, ◌+ℤ◌, ◌-ℤ◌, ◌≤ℤ◌}
use moreofchat.Result.{ok}
use moreofchat.Dict.{Dict, get, put, get-put}
use moreofchat.Workers.Streams.{
  Entry, DeadLetter, StreamConsumer, Server, process, attempts, first_or_one,
}
use moreofchat.Workers.Streams.Laws.{IsStream, IsBuried}
use moreofchat.Workers.Outbound.{
  RateLimit, Stored, KeyServer, draw, take_token, OutboundJob, Channels, handle, ltb_ℤ, min_ℤ, held,
  refilled, draw_from,
}
use moreofchat.Workers.Outbound.Bucket.{bucket, draws, last_of, draws-limit}
use moreofchat.Workers.Outbound.Handle.{IsKeyServer, throttled-IsBuried}

record World : Type 0 where
  acked : List String
  letters : List DeadLetter
  hashes : Dict Stored
  sent : List String

abbrev newest_of : List DeadLetter → Option DeadLetter
newest_of [] = none
newest_of (l ∷ others) = some l

abbrev stream : Server World
stream = record {
  xgroup_create = λ stream_name group w. (w, none);
  xreadgroup = λ group consumer stream_name cursor count block w. (w, []);
  xpending_range = λ stream_name group id w. 5 ∷ [];
  xack = λ stream_name group id w. record w { acked = id ∷ w.acked };
  xadd = λ stream_name maxlen l w. record w { letters = l ∷ w.letters };
}

abbrev consumer : StreamConsumer
consumer = record {
  stream = "moc:outbound";
  group = "sender";
  consumer = "outbound-1";
  batch_size = 8;
  block_ms = 5000;
  max_attempts = 5;
  dead_letter_stream = "moc:outbound:dead";
  dead_letter_maxlen = 5000;
}

abbrev stream_IsStream : IsStream stream consumer
stream_IsStream = record {
  pending = λ id w. not (any (λ a. str_eq a id) w.acked);
  newest = λ w. newest_of w.letters;
  xack-pending = λ id w. ap (λ b. not (b || any (λ a. str_eq a id) w.acked)) (eq_refl id);
  xack-others =
      λ id other w differs. ap (λ b. not (b || any (λ a. str_eq a other) w.acked)) differs;
  xack-newest = λ id w. refl;
  xadd-pending = λ id l w. refl;
  xadd-newest = λ l w. refl;
}

abbrev keys : KeyServer World
keys = record {
  hgetall = λ key w. get key w.hashes;
  hset = λ key s w. record w { hashes = put key s w.hashes };
}

put_here : (key : String) (s : Stored) (m : Dict Stored) → get key (put key s m) ≡ some s
put_here key s m = get-put key key s m ∙ ap (λ b. if b then some s else get key m) (eq_refl key)

put_others :
    (key other : String) (s : Stored) (m : Dict Stored)
    → other ≢ key
    → get other (put key s m) ≡ get other m
put_others key other s m differs = grind (arith, get-put key other s m, eq_iff key other, differs)

abbrev keys_IsKeyServer : IsKeyServer keys
keys_IsKeyServer = record {
  hset-here = λ key s w. put_here key s w.hashes;
  hset-others = λ key other s w differs. put_others key other s w.hashes differs;
}

abbrev limit : RateLimit
limit = record { key_prefix = "moc:bucket:"; capacity = 200; refill = 5; unit = 100 }

abbrev reply : OutboundJob
reply = record {
  tenant_id = "sinai";
  channel = "whatsapp";
  to = "20100";
  text = some "hello";
  template = none;
  template_variables = none;
  last_inbound_at = none;
  thread_ref = none;
}

-- The payload "other" is a job of a tenant that no sender serves; an adapter is its tenant's name.
abbrev channels : Channels World String
channels = record {
  from_json = λ payload.
      ok (if str_eq payload "other" then record reply { tenant_id = "broker" } else reply);
  for_job = λ tenant channel w. (w, if str_eq tenant "sinai" then some tenant else none);
  send = λ provider job w. (record w { sent = provider ∷ w.sent }, none);
  unroutable = λ job. record { reason = "Unroutable"; frames = [] };
  rate_limited = λ job. record { reason = "RateLimited"; frames = [] };
}

abbrev drained : World
drained = record {
  acked = [];
  letters = [];
  hashes = ("moc:bucket:sinai", bucket (pos 99) (pos 10)) ∷ [];
  sent = [];
}

abbrev entry_of : String → Entry
entry_of payload = record { entry_id = "7-0"; fields = ("payload", payload) ∷ [] }

-- Three draws from a full bucket of two tokens at once: the third is refused.
draw_thrice : (draws limit (bucket (pos 200) (pos 0)) (pos 0 ∷ (pos 0 ∷ (pos 1 ∷ [])))).1 ≡ 200
unfolding draws draw held refilled draw_from min_ℤ ltb_ℤ scale ◌+ℤ◌ ◌-ℤ◌
draw_thrice = refl

-- A clock that starts again from 5 after 1000 leaves a full bucket far below zero.
draw_backwards : (draw limit (pos 5) (some (bucket (pos 200) (pos 1000)))).1 ≡ false
unfolding draw held refilled draw_from min_ℤ ltb_ℤ scale ◌+ℤ◌ ◌-ℤ◌
draw_backwards = refl

draws-limit_example :
    pos (draws limit (bucket (pos 200) (pos 0)) (pos 0 ∷ (pos 30 ∷ []))).1
    ≤ℤ (pos 200 +ℤ scale 5 (last_of (pos 0) (pos 0 ∷ (pos 30 ∷ [])) -ℤ pos 0))
draws-limit_example =
    draws-limit limit (pos 200) (pos 0) (pos 0 ∷ (pos 30 ∷ [])) (omega arith)
      (omega arith, (omega arith, tt))

broker_is_another : ◌≢◌ {A = String} "broker" "sinai"
broker_is_another same =
    let equal : str_eq "broker" "sinai" ≡ true = (eq_iff "broker" "sinai").1 same in cc

throttled-IsBuried_example :
    IsBuried stream consumer stream_IsStream "7-0" "reply"
      (process stream consumer (handle channels keys limit (pos 10)) (entry_of "reply") drained).0
unfolding get take_token draw held refilled draw_from min_ℤ ltb_ℤ scale ◌+ℤ◌ ◌-ℤ◌ attempts
    first_or_one
throttled-IsBuried_example =
    throttled-IsBuried stream consumer stream_IsStream channels keys limit (pos 10)
      (entry_of "reply") "reply" reply "sinai" drained refl refl refl refl (omega arith)

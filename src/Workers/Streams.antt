-- ===== src/Workers/Streams.antt =====
-- src/moc/workers/streams.py: the consumer-group mechanics that the workers share. The stream server
-- is a service: `Server` holds the commands that the code sends to it, on the state `W` of everything
-- outside the worker. A text is its list of code points where the code cuts it.
pub mod Laws
pub mod Delivery
mod Tests
use moreofchat.Prelude.{
  ℕ, ◌+◌, ◌-◌, String, Bool, true, false, Option, none, some, List, [], ◌∷◌, leb, if◌then◌else◌,
  get_or, length, drop, is_some, ◌++◌,
}
use moreofchat.Result.{Result, ok, err, ◌>>=◌}
use moreofchat.Dict.{Dict, get}
use text.Mathlib.Text.{find?}

pub record Entry : Type 0 where
  pub entry_id : String
  pub fields : Dict String

pub record DeadLetter : Type 0 where
  pub payload : String
  pub reason : String
  pub entry_id : String
  pub traceback : List ℕ

-- `repr(exc)` and the formatted traceback of an exception.
pub record Failure : Type 0 where
  pub reason : String
  pub frames : List ℕ

-- How the handler ends: it returns, raises `TerminalFailure`, or raises anything else.
pub data Outcome : Type 0 where
  returned : Outcome
  terminal : Failure → Outcome
  failed : Failure → Outcome

pub record StreamConsumer : Type 0 where
  pub stream : String
  pub group : String
  pub consumer : String
  pub batch_size : ℕ
  pub block_ms : ℕ
  pub max_attempts : ℕ
  pub dead_letter_stream : String
  pub dead_letter_maxlen : ℕ

-- `xgroup_create` answers the text of the error that it raises, `xreadgroup` the entries by stream,
-- and `xpending_range` the delivery counts of the entries with the id asked for.
pub record Server (W : Type 0) : Type 0 where
  pub xgroup_create : String → String → W → W × Option String
  pub xreadgroup :
      String → String → String → String → ℕ → Option ℕ → W → W × List (String × List Entry)
  pub xpending_range : String → String → String → W → List ℕ
  pub xack : String → String → String → W → W
  pub xadd : String → ℕ → DeadLetter → W → W

abbrev pub traceback_limit : ℕ
traceback_limit = 4000

-- `frames[-limit:]`
unfoldable pub last_of : ℕ → List ℕ → List ℕ
last_of limit frames = drop (length frames - limit) frames

module _ {W : Type 0} (server : Server W) (c : StreamConsumer) where
  unfoldable pub bury : String → String → String → List ℕ → W → W
  bury entry_id payload reason frames w = server.xack c.stream c.group entry_id (
      server.xadd c.dead_letter_stream c.dead_letter_maxlen
        (record {
          payload = payload;
          reason = reason;
          entry_id = entry_id;
          traceback = last_of traceback_limit frames;
        })
        w)

  unfoldable pub first_or_one : List ℕ → ℕ
  first_or_one [] = 1
  first_or_one (times_delivered ∷ others) = times_delivered

  unfoldable pub attempts : String → W → ℕ
  attempts entry_id w = first_or_one (server.xpending_range c.stream c.group entry_id w)

  -- What follows the call of the handler.
  unfoldable pub settle : String → String → W × Outcome → W × Bool
  settle entry_id payload (w, returned) = (server.xack c.stream c.group entry_id w, true)
  settle entry_id payload (w, terminal f) = (bury entry_id payload f.reason f.frames w, false)
  settle entry_id payload (w, failed f) = (
    if leb c.max_attempts (attempts entry_id w)
        then bury entry_id payload f.reason f.frames w
        else w,
    false,
  )

  module _ (handle : String → W → W × Outcome) where
    unfoldable pub process_payload : String → Option String → W → W × Bool
    process_payload entry_id none w = (bury entry_id "" "missing payload" [] w, false)
    process_payload entry_id (some payload) w = settle entry_id payload (handle payload w)

    unfoldable pub process : Entry → W → W × Bool
    process e w = process_payload e.entry_id (get "payload" e.fields) w

    unfoldable pub process_all : List Entry → W → W × ℕ
    process_all [] w = (w, 0)
    process_all (e ∷ entries) w =
        let here = process e w in
        let rest = process_all entries here.0 in (rest.0, if here.1 then rest.1 + 1 else rest.1)

    -- The entries of every stream of the answer, in order.
    unfoldable pub entries_of : List (String × List Entry) → List Entry
    entries_of [] = []
    entries_of ((_, entries) ∷ others) = entries ++ entries_of others

    unfoldable pub drain : String → Bool → W → W × ℕ
    drain cursor block w =
        let response =
          server.xreadgroup c.group c.consumer c.stream cursor c.batch_size
            (if block then some c.block_ms else none) w in
        process_all (entries_of response.1) response.0

    -- The flag is `_group_ready`; the error is the exception that `xgroup_create` raised.
    unfoldable pub created : W × Option String → Result String (W × Bool)
    created (w, none) = ok (w, true)
    created (w, some error) = if is_some (find? error "BUSYGROUP") then ok (w, true) else err error

    unfoldable pub ensure_group : W × Bool → Result String (W × Bool)
    ensure_group (w, true) = ok (w, true)
    ensure_group (w, false) = created (server.xgroup_create c.stream c.group w)

    unfoldable pub run_once : Bool → W × Bool → Result String ((W × Bool) × ℕ)
    run_once block s = ensure_group s >>= λ ready.
        let backlog = drain "0" false ready.0 in
        let fresh = drain ">" block backlog.0 in ok ((fresh.0, ready.1), backlog.1 + fresh.1)

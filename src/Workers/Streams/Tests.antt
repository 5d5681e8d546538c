-- ===== src/Workers/Streams/Tests.antt =====
-- The consumer run against a stream server kept as two lists: the acknowledged ids and the letters.
use moreofchat.Prelude.{
  ℕ, String, str_eq, eq_refl, ◌≡◌, refl, ap, Bool, true, false, ◌||◌, Option, none, some, List, [],
  ◌∷◌, not, any, if◌then◌else◌,
}
use moreofchat.Result.{ok}
use moreofchat.Dict.{get}
use moreofchat.Workers.Streams.{
  Entry, DeadLetter, Outcome, returned, failed, StreamConsumer, Server, process, process_all,
  process_payload, run_once, ensure_group, created, drain, settle, bury, attempts, first_or_one,
  entries_of, last_of,
}
use moreofchat.Workers.Streams.Laws.{IsStream}
use moreofchat.Workers.Streams.Delivery.{
  IsAccounted, KeepsPending, process-IsAccounted, process_all-isolates,
}

record World : Type 0 where
  acked : List String
  letters : List DeadLetter

abbrev newest_of : List DeadLetter → Option DeadLetter
newest_of [] = none
newest_of (l ∷ others) = some l

abbrev entry : String → String → Entry
entry id payload = record { entry_id = id; fields = ("payload", payload) ∷ [] }

-- Every read of new entries answers the same three; each has been delivered twice.
abbrev server : Server World
server = record {
  xgroup_create = λ stream group w. (w, some "BUSYGROUP Consumer Group name already exists");
  xreadgroup = λ group consumer stream cursor count block w. (
    w,
    if str_eq cursor ">"
        then ("work", entry "1-0" "a" ∷ (entry "2-0" "poison" ∷ (entry "3-0" "c" ∷ []))) ∷ []
        else [],
  );
  xpending_range = λ stream group id w. 2 ∷ [];
  xack = λ stream group id w. record { acked = id ∷ w.acked; letters = w.letters };
  xadd = λ stream maxlen l w. record { acked = w.acked; letters = l ∷ w.letters };
}

abbrev consumer_of : ℕ → StreamConsumer
consumer_of max_attempts = record {
  stream = "work";
  group = "workers";
  consumer = "outbound-1";
  batch_size = 8;
  block_ms = 1000;
  max_attempts = max_attempts;
  dead_letter_stream = "work:dead";
  dead_letter_maxlen = 5000;
}

abbrev is_pending : String → World → Bool
is_pending id w = not (any (λ a. str_eq a id) w.acked)

abbrev world_IsStream : IsStream server (consumer_of 2)
world_IsStream = record {
  pending = is_pending;
  newest = λ w. newest_of w.letters;
  xack-pending = λ id w. ap (λ b. not (b || any (λ a. str_eq a id) w.acked)) (eq_refl id);
  xack-others =
      λ id other w differs. ap (λ b. not (b || any (λ a. str_eq a other) w.acked)) differs;
  xack-newest = λ id w. refl;
  xadd-pending = λ id l w. refl;
  xadd-newest = λ l w. refl;
}

abbrev handle : String → World → World × Outcome
handle payload w = (
  w,
  if str_eq payload "poison"
      then failed (record { reason = "boom"; frames = 1 ∷ (2 ∷ []) })
      else returned,
)

abbrev start : World
start = record { acked = []; letters = [] }

abbrev poison_letter : DeadLetter
poison_letter = record {
  payload = "poison";
  reason = "boom";
  entry_id = "2-0";
  traceback = 1 ∷ (2 ∷ []);
}

run_buries :
    run_once server (consumer_of 2) handle true (start, false)
    ≡ ok
        ((record { acked = "3-0" ∷ ("2-0" ∷ ("1-0" ∷ [])); letters = poison_letter ∷ [] }, true), 2)
unfolding run_once ensure_group created drain entries_of process_all process process_payload settle
    bury attempts first_or_one last_of get
run_buries = refl

run_retries :
    run_once server (consumer_of 3) handle true (start, false)
    ≡ ok ((record { acked = "3-0" ∷ ("1-0" ∷ []); letters = [] }, true), 2)
unfolding run_once ensure_group created drain entries_of process_all process process_payload settle
    bury attempts first_or_one last_of get
run_retries = refl

last_three : last_of 3 (1 ∷ (2 ∷ (3 ∷ (4 ∷ [])))) ≡ 2 ∷ (3 ∷ (4 ∷ []))
unfolding last_of
last_three = refl

keeps_pending : KeepsPending server (consumer_of 2) world_IsStream handle
unfolding KeepsPending
keeps_pending = λ payload id w. refl

process-IsAccounted_example :
    IsAccounted server
      (consumer_of 2)
      world_IsStream
      handle
      "2-0"
      (some "poison")
      start
      (process server (consumer_of 2) handle (entry "2-0" "poison") start)
unfolding get
process-IsAccounted_example =
    process-IsAccounted server (consumer_of 2) world_IsStream handle (entry "2-0" "poison") start

process_all-isolates_example :
    is_pending "2-0"
      (process_all server
        (consumer_of 2)
        handle
        (entry "1-0" "a" ∷ (entry "2-0" "poison" ∷ (entry "3-0" "c" ∷ [])))
        start).0
    ≡ is_pending "2-0"
        (process server
          (consumer_of 2)
          handle
          (entry "2-0" "poison")
          (process_all server (consumer_of 2) handle (entry "1-0" "a" ∷ []) start).0).0
process_all-isolates_example =
    process_all-isolates server (consumer_of 2) world_IsStream handle (entry "1-0" "a" ∷ [])
      (entry "2-0" "poison") (entry "3-0" "c" ∷ []) start keeps_pending (refl, tt)

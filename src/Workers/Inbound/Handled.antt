-- ===== src/Workers/Inbound/Handled.antt =====
-- How the handling of one message ends (src/moc/workers/inbound.py).
use moreofchat.Prelude.{
  ℕ, ◌≡◌, refl, String, str_eq, true, false, Option, none, some, [], ◌∷◌, ◌++◌, if-elim,
}
use Prim.{Unit, tt}
use moreofchat.Result.{Result, ok, err}
use moreofchat.Workers.Inbound.{InboundMessage, Db, World, Error, Fresh, InboundWorker, raised}
use moreofchat.Workers.Outbound.{OutboundJob}
use moreofchat.Workers.Inbound.Session.{reply_job, publish}
use moreofchat.Workers.Inbound.Handle.{turn, enqueue_reply, commit, handle}
use moreofchat.Workers.Inbound.Logged.{IsKept}
use moreofchat.Workers.Inbound.Turn.{turn-ok}

-- A reply's job: its words, for the sender on the tenant's channel, in the thread of the message.
abbrev pub job_to : String → InboundMessage → String → OutboundJob
job_to received_at m reply = record {
  tenant_id = m.tenant_id;
  channel = m.channel;
  to = m.sender_ref;
  text = some reply;
  template = none;
  template_variables = none;
  last_inbound_at = some received_at;
  thread_ref = m.thread_ref;
}

module _ {E V P W : Type 0} where
  pub data IsHandled (isoformat : ℕ → String) (m : InboundMessage) (world : World V P W)
      : World V P W × Result (Error E) (Unit {0}) → Type 0 where
    rolled_back : (e : Error E) → IsHandled isoformat m world (world, err e)
    quiet :
        (db : Db V P W)
        → IsKept m world.db db none
        → IsHandled isoformat m world (record world { db = db }, ok tt)
    wordless :
        (db : Db V P W) (reply : String)
        → IsKept m world.db db (some reply)
        → str_eq reply "" ≡ true
        → IsHandled isoformat m world (record world { db = db }, ok tt)
    answered :
        (db : Db V P W) (reply : String)
        → IsKept m world.db db (some reply)
        → str_eq reply "" ≡ false
        → IsHandled isoformat m world (
          record {
            db = db;
            outbound = world.outbound ++ (job_to (isoformat m.received_at) m reply ∷ []);
          },
          ok tt,
        )
    unsent :
        (db : Db V P W) (reply : String) (e : E)
        → IsKept m world.db db (some reply)
        → str_eq reply "" ≡ false
        → IsHandled isoformat m world (record world { db = db }, err (raised e))

  publish-IsHandled :
      (isoformat : ℕ → String) (m : InboundMessage) (world : World V P W) (db : Db V P W)
      (reply : String) (failure : Option E)
      → IsKept m world.db db (some reply)
      → str_eq reply "" ≡ false
      → IsHandled isoformat m world
          (publish failure (reply_job isoformat m reply) (record world { db = db }))
  unfolding publish
  publish-IsHandled isoformat m world db reply none logged filled = answered db reply logged filled
  publish-IsHandled isoformat m world db reply (some e) logged filled =
      unsent db reply e logged filled

module _ {E F R V P W : Type 0} where
  commit-IsHandled :
      (w : InboundWorker E F R V P W) (m : InboundMessage) (world : World V P W)
      (done : Result (Error E) (Db V P W × Option String))
      → ((db : Db V P W) (reply : Option String)
          → done ≡ ok (db, reply)
          → IsKept m world.db db reply)
      → IsHandled w.isoformat m world (commit w m world done)
  unfolding commit enqueue_reply
  commit-IsHandled w m world (err e) logged = rolled_back e
  commit-IsHandled w m world (ok (db, none)) logged = quiet db (logged db none refl)
  commit-IsHandled w m world (ok (db, some reply)) logged =
      if-elim (IsHandled w.isoformat m world) (str_eq reply "")
        (λ empty. wordless db reply (logged db (some reply) refl) empty)
        (λ filled.
          publish-IsHandled w.isoformat m world db reply (w.xadd (reply_job w.isoformat m reply))
            (logged db (some reply) refl) filled)

  -- Whatever the runners, retrievers, scripts and the server do, one message ends in one of five ways:
  -- an exception with every row and the outbound stream as they were; no reply, where the sender's
  -- conversation has a live handoff, with the customer's message alone added to that conversation and
  -- nothing sent; a turn with an empty reply, with the customer's message alone added and nothing sent; a
  -- turn with a reply, with the customer's message and then the bot's added and one job published, of
  -- the same words, to the sender on the message's tenant, channel and thread, and with the time of the
  -- message; or that turn's rows committed and the job not published, with the server's exception.
  -- After a turn both rows of messages are of the conversation that the sender is found by.
  pub handle-IsHandled :
      (w : InboundWorker E F R V P W) (fresh : Fresh) (m : InboundMessage) (world : World V P W)
      → IsHandled w.isoformat m world (handle w fresh m world)
  unfolding handle
  handle-IsHandled w fresh m world =
      commit-IsHandled w m world (turn w fresh m world.db)
        (λ db reply. turn-ok w fresh m world.db db reply)

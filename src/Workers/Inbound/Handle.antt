-- ===== src/Workers/Inbound/Handle.antt =====
-- The handler of the inbound stream (src/moc/workers/inbound.py).
use moreofchat.Prelude.{String, str_eq, Option, none, some, ◌==◌, if◌then◌else◌, get_or}
use Prim.{Unit, tt}
use moreofchat.Result.{Result, ok, err, ◌>>=◌}
use moreofchat.Dict.{get}
use moreofchat.Agent.State.{ConversationState}
use moreofchat.Agent.Engine.{ScriptEngine, start}
use moreofchat.Agent.Conversations.{load, find}
use moreofchat.Workers.Inbound.{
  InboundMessage, Db, World, Error, wrong_vertical, conversation_error, raised, Fresh, Served,
  ScriptResolver, InboundWorker, lift, resolver_of,
}
use moreofchat.Workers.Inbound.Session.{
  reply_job, record_turn, live_handoff, answer_or_suspend, publish,
}

module _ {E F : Type 0} where
  -- What a new conversation starts on.
  unfoldable pub current_engine :
      Option (ScriptResolver E F) → ScriptEngine F → String → Result (Error E) (ScriptEngine F)
  current_engine none engine tenant_id = ok engine
  current_engine (some resolver) engine tenant_id = lift raised (resolver.current tenant_id)

module _ {E F V : Type 0} where
  -- What this conversation runs: the version that it is pinned to, where that one is still there.
  unfoldable pub pinned_engine :
      Option (ScriptResolver E F)
      → ScriptEngine F
      → ConversationState V
      → String
      → Result (Error E) (ScriptEngine F)
  pinned_engine none engine state tenant_id = ok engine
  pinned_engine (some resolver) engine state tenant_id =
      let pinned =
        lift raised (resolver.at tenant_id state.script_id state.script_version) >>= λ found.
        ok (get_or found engine) in
      if state.script_version == engine.script.version then ok engine else pinned

module _ {E F R V P W : Type 0} where
  unfoldable pub served_for :
      InboundWorker E F R V P W → Option String → Result (Error E) (Served E F R V P W)
  served_for w vertical = elim (get (get_or vertical "") w.served) [
    | none ↦ err (wrong_vertical vertical)
    | some served ↦ ok served
  ]

  unfoldable pub retriever_for :
      InboundWorker E F R V P W → String → String → Result (Error E) (Option R)
  retriever_for w tenant_id vertical = elim w.retrievers [
    | none ↦ ok none
    | some for_tenant ↦ lift raised (for_tenant tenant_id vertical) >>= λ r. ok (some r)
  ]

  -- The turn proper, whose reply goes with the rows that it leaves.
  unfoldable pub answer :
      Served E F R V P W
      → ScriptEngine F
      → Option R
      → ConversationState V
      → Fresh
      → InboundMessage
      → Db V P W
      → Result (Error E) (Db V P W × Option String)
  answer served engine retriever state fresh m db =
      lift raised (served.runner engine retriever state (get_or m.text "") m.channel db.ledger)
      >>= λ out. record_turn fresh m out.1 (record db { ledger = out.0 }) >>= λ db.
          ok (db, some out.1.reply)

  -- What the session's transaction does: no reply where the bot is suspended.
  unfoldable pub turn :
      InboundWorker E F R V P W
      → Fresh
      → InboundMessage
      → Db V P W
      → Result (Error E) (Db V P W × Option String)
  turn w fresh m db = served_for w db.vertical >>= λ served.
      let vertical = get_or db.vertical "" in
      let resolver = resolver_of w.scripts vertical in
      retriever_for w m.tenant_id vertical >>= λ retriever.
      current_engine resolver served.engine m.tenant_id >>= λ engine.
      lift conversation_error (load m.channel m.sender_ref (start engine) db.conversations)
      >>= λ state. pinned_engine resolver engine state m.tenant_id >>= λ engine.
          lift conversation_error (find m.channel m.sender_ref db.conversations) >>= λ existing.
          live_handoff existing db >>= λ live.
          answer_or_suspend live (answer served engine retriever state fresh m db) fresh m db

  unfoldable pub enqueue_reply :
      InboundWorker E F R V P W
      → InboundMessage
      → String
      → World V P W
      → World V P W × Result (Error E) (Unit {0})
  enqueue_reply w m reply world =
      let published =
        publish (w.xadd (reply_job w.isoformat m reply)) (reply_job w.isoformat m reply) world in
      if str_eq reply "" then (world, ok tt) else published

  unfoldable pub commit :
      InboundWorker E F R V P W
      → InboundMessage
      → World V P W
      → Result (Error E) (Db V P W × Option String)
      → World V P W × Result (Error E) (Unit {0})
  commit w m world (err e) = (world, err e)
  commit w m world (ok (db, none)) = (record world { db = db }, ok tt)
  commit w m world (ok (db, some reply)) = enqueue_reply w m reply (record world { db = db })

  -- `_handle`: a raise before the commit rolls the rows back.
  unfoldable pub handle :
      InboundWorker E F R V P W
      → Fresh
      → InboundMessage
      → World V P W
      → World V P W × Result (Error E) (Unit {0})
  handle w fresh m world = commit w m world (turn w fresh m world.db)

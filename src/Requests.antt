-- ===== src/Requests.antt =====
-- internal/server/agentconn.go: the table of requests that wait for an answer of the agent. A
-- request makes a channel of its own with room for one envelope, named by the number of the request;
-- `buffers` lists the channels that hold one, `waiting` the requests in flight with the type of
-- answer that each wants. `text` is fmt.Sprintf("%d", n). A connection that closes is the reason for
-- requests to give up; the websocket, its log and its mutexes are left out.
pub mod Answers
mod Tally
mod Tests
use dingzi.Base.{
  ℕ, ◌+◌, ◌%◌, ◌^◌, Bool, true, false, Option, none, some, [], String, if◌then◌else◌, number_key,
  text_key, ◌==◌, is_some, ltb,
}
use dingzi.Base.Table.{Table, lookup, erase, insert}

pub record Envelope : Type 0 where
  pub type : String
  pub id : String
  pub payload : String

pub record Pending : Type 0 where
  pub want : String
  pub ch : ℕ

pub record AgentConn : Type 0 where
  pub pending : Table String Pending
  pub next_id : ℕ
  pub buffers : Table ℕ Envelope
  pub waiting : Table ℕ String

pub new_agent_conn : AgentConn
new_agent_conn = record { pending = []; next_id = 0; buffers = []; waiting = [] }

-- `select { case p.ch <- env: default: }`
unfoldable pub offer : ℕ → Envelope → AgentConn → AgentConn
offer ch env c =
    if is_some (lookup ch c.buffers) then c else record c { buffers = insert ch env c.buffers }

unfoldable pub resolve : Envelope → AgentConn → AgentConn
unfolding offer
resolve env c = if env.id == "" then c else elim (lookup env.id c.pending) [
  | none ↦ c
  | some p ↦
      if p.want == env.type
      then offer p.ch env (record c { pending = erase env.id c.pending })
      else c
]

-- `case env := <-ch`: the request returns the envelope in its channel.
unfoldable pub receive : ℕ → AgentConn → AgentConn × Option Envelope
receive n c = elim (lookup n c.buffers) [
  | none ↦ (c, none)
  | some env ↦ (record c { buffers = erase n c.buffers; waiting = erase n c.waiting }, some env)
]

-- `c.nextID++`
abbrev pub bump : ℕ → ℕ
bump n = (n + 1) % 2 ^ 64

module _ (text : ℕ → String) where
  -- The part of `request` before it sends.
  unfoldable pub begin : String → AgentConn → AgentConn
  begin want c =
      let n = bump c.next_id in
      record c {
        pending = insert (text n) (record { want = want; ch = n }) c.pending;
        next_id = n;
        waiting = insert n want c.waiting;
      }

  -- A request that ends without an answer, on each of its paths: the frame is not sent, the time is
  -- over, the connection is closed, the context has ended. Each calls `forget`.
  unfoldable pub give_up : ℕ → AgentConn → AgentConn
  give_up n c = record c { pending = erase (text n) c.pending; waiting = erase n c.waiting }

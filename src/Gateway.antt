-- ===== src/Gateway.antt =====
-- The server's side of the judge nodes: src/backend/app/rpc/judge_gateway.py. A connection is an object,
-- named by a number, since a node that connects again makes a new one; `registered` is the dictionary from
-- the id of a node to its connection. The queues of messages are left out.
pub mod Reconnects
pub mod Dispatch
pub mod Chunks
pub mod Server
use pigeon_oj.Base.{
  ℕ, zero, suc, ◌+◌, Bool, true, false, not, ◌&&◌, ◌||◌, Option, none, some, List, [], ◌∷◌, ◌++◌,
  map, filter, find?, any, length, take, drop, discard, elem, ltb, ◌==◌, if◌then◌else◌,
}

-- NodeConnection; `stale`: no message has come for too long
pub record Connection : Type 0 where
  pub object : ℕ
  pub node_id : ℕ
  pub capacity : ℕ
  pub supports_spj : Bool
  pub inflight : List ℕ
  pub pending_runs : ℕ
  pub stale : Bool

-- NodeConnection.task_count
unfoldable pub task_count : Connection → ℕ
task_count c = length c.inflight + c.pending_runs

-- GatewayRegistry; `objects` are all connections that the server still holds
pub record Registry : Type 0 where
  pub objects : List Connection
  pub registered : List (ℕ × ℕ)

unfoldable pub find_object : ℕ → List Connection → Option Connection
find_object o [] = none
find_object o (c ∷ cs) = if c.object == o then some c else find_object o cs

unfoldable pub set_inflight : ℕ → List ℕ → List Connection → List Connection
set_inflight o ids [] = []
set_inflight o ids (c ∷ cs) =
    if c.object == o then record c { inflight = ids } ∷ cs else c ∷ set_inflight o ids cs

-- the connection registered under the id of a node
unfoldable pub registered_as : ℕ → List (ℕ × ℕ) → Option ℕ
registered_as n [] = none
registered_as n ((m, o) ∷ rs) = if m == n then some o else registered_as n rs

unfoldable pub unmap : ℕ → List (ℕ × ℕ) → List (ℕ × ℕ)
unmap n [] = []
unmap n ((m, o) ∷ rs) = if m == n then unmap n rs else (m, o) ∷ unmap n rs

-- `a |= b`
unfoldable pub union : List ℕ → List ℕ → List ℕ
union xs [] = xs
union xs (y ∷ ys) = if elem y xs then union xs ys else union (xs ++ y ∷ []) ys

abbrev pub inflight_of : Option Connection → List ℕ
inflight_of none = []
inflight_of (some c) = c.inflight

-- the jobs of an old connection of the same node move to the new one
unfoldable pub take_over : Option ℕ → ℕ → List Connection → List Connection
unfolding set_inflight find_object union
take_over none o cs = cs
take_over (some old) o cs =
    if old == o
    then cs
    else set_inflight old [] (
        set_inflight o (union (inflight_of (find_object o cs)) (inflight_of (find_object old cs)))
          cs)

-- GatewayRegistry.register, of a connection of the node
unfoldable pub register : ℕ → ℕ → Registry → Registry
unfolding registered_as take_over unmap
register n o r = record {
  objects = take_over (registered_as n r.registered) o r.objects;
  registered = (n, o) ∷ unmap n r.registered;
}

abbrev pub same_object : Option ℕ → ℕ → Bool
same_object none o = false
same_object (some a) o = a == o

-- GatewayRegistry.unregister, with the jobs to be recovered
unfoldable pub unregister : ℕ → ℕ → Registry → Registry × List ℕ
unfolding registered_as unmap find_object
unregister n o r =
    if same_object (registered_as n r.registered) o
    then (record r { registered = unmap n r.registered }, inflight_of (find_object o r.objects))
    else (r, [])

-- _available_nodes, of live nodes
unfoldable pub available_nodes : List Connection → List Connection
unfolding task_count
available_nodes cs = filter (λ c. ltb (task_count c) c.capacity) cs

-- _live_nodes
unfoldable pub live_nodes : List Connection → List Connection
live_nodes cs = filter (λ c. not c.stale) cs

-- `(n.task_count, n.node_id)`, compared
unfoldable pub lighter : Connection → Connection → Bool
unfolding task_count
lighter a b =
    if ltb (task_count a) (task_count b)
    then true
    else if ltb (task_count b) (task_count a)
    then false
    else ltb a.node_id b.node_id

-- `min(nodes, key=...)`: the first of the least
unfoldable pub least : Connection → List Connection → Connection
unfolding lighter
least c [] = c
least c (d ∷ ds) = if lighter d c then least d ds else least c ds

pub data Choice : Type 0 where
  wait no_spj_node : Choice
  chosen : Connection → Choice

unfoldable pub choose : List Connection → Choice
unfolding least
choose [] = wait
choose (c ∷ cs) = chosen (least c cs)

-- dispatch_submission up to `send_job`: the node that is chosen, or that the submission waits, or fails
-- since no live node supports checkers
unfoldable pub dispatch : Bool → List Connection → Choice
unfolding choose available_nodes live_nodes
dispatch needs_spj cs =
    let nodes = available_nodes (live_nodes cs) in
    let able = available_nodes (filter (λ c. c.supports_spj) nodes) in
    if length nodes == 0
    then wait
    else if not needs_spj
    then choose nodes
    else if not (length able == 0)
    then choose able
    else if any (λ c. c.supports_spj) (live_nodes cs)
    then wait
    else no_spj_node

-- _iter_rpc_chunks: the chunks of a file; its bytes are fuel enough
unfoldable pub chunks_from : ℕ → ℕ → List ℕ → List (List ℕ)
chunks_from zero size content = []
chunks_from (suc fuel) size content =
    let rest = chunks_from fuel size (drop size content) in
    if length content == 0 then [] else take size content ∷ rest

unfoldable pub iter_chunks : ℕ → List ℕ → List (List ℕ)
iter_chunks size content =
    if length content == 0 then [] ∷ [] else chunks_from (length content) size content

-- ===== src/Proxy.antt =====
-- The state of the program and what the handlers share: the client table, the coordinator's
-- address and the calls made so far. `main_peer` is the variable `peer` of main.
pub mod Register
pub mod Forward
pub mod Events
pub mod Poll
pub mod Changes
pub mod WellFormed
pub mod Tables
pub mod States
pub mod Invariant
pub mod Writes
pub mod Steady
pub mod Safety
pub mod Handlers
pub mod Forwarding
pub mod Dispatch
pub mod Rounds
pub mod Growth
pub mod Closing
pub mod Progress
pub mod Leaks
pub mod Reads
pub mod Bounds
pub mod Relaying
pub mod Departures
pub mod Kinds
pub mod Answering
pub mod Returning
use raknet_proxy.Base.{ℕ, Bool, [], ◌∷◌, Option, none, some, if◌then◌else◌}
use raknet_proxy.Client.{Peer, Address, ClientContext, new_context, proxy_connecting}
use raknet_proxy.Args.{ProgramArgs}
use raknet_proxy.Net.{Env, History, destroy_client}
use raknet_proxy.Table.{Table, insert}
use raknet_proxy.Child.{create_child_peer}

abbrev pub Clients : Type 0
Clients = Table ClientContext

pub record Proxy : Type 0 where
  pub clients : Clients
  pub coordinator_address : Address
  pub history : History

-- The loops of main that run through the table, destroy the child peer of each client that
-- passes a test, and erase its entry.
unfoldable pub sweep : (ClientContext → Bool) → Clients → History → Clients × History
sweep test [] h = ([], h)
sweep test ((k, c) ∷ cs) h =
    let (cs', h') = sweep test cs (if test c then destroy_client c.child_peer h else h) in
    (if test c then cs' else (k, c) ∷ cs', h')

unfoldable pub sweep_clients : (ClientContext → Bool) → Proxy → Proxy
unfolding sweep
sweep_clients test s =
    let (cs, h) = sweep test s.clients s.history in record s { clients = cs; history = h }

-- `ClientContext ctx;` and the assignments to it that the three places share which enrol a client.
abbrev pub enrolled : Env → ℕ → ℕ → Address → ClientContext
enrolled env guid uin sender = record (new_context guid sender env.unassigned) {
  uin = uin;
  state = proxy_connecting;
}

-- The table after `if (CreateChildPeer(…)) clients[uin] = ctx;`.
unfoldable pub store_client : ℕ → Bool × ClientContext × History → Proxy → Proxy
store_client uin (ok, ctx, h) s =
    if ok
    then record s { clients = insert uin ctx s.clients; history = h }
    else record s { history = h }

-- `if (CreateChildPeer(args, ctx, guid)) clients[uin] = ctx;`, after the calls in h.
unfoldable pub assign_child : Env → ProgramArgs → ℕ → ClientContext → ℕ → History → Proxy → Proxy
unfolding store_client
assign_child env args uin ctx guid h s = store_client uin (create_child_peer env args ctx guid h) s

-- ===== src/Child.antt =====
-- What the handlers do to one client: raknet_proxy.cpp, UpdateClientState and CreateChildPeer,
-- with the target that a client's data is sent to. `int` ports become `unsigned short`.
pub mod Lifetime
use raknet_proxy.Base.{ℕ, ◌%◌, ◌^◌, Bool, true, false, ◌∷◌, Option, none, some, ◌==◌, if◌then◌else◌}
use raknet_proxy.Client.{Peer, Address, ConnectionState, ClientContext, same_state}
use raknet_proxy.Args.{ProgramArgs}
use raknet_proxy.Net.{
  Env, History, created, startup, set_maximum_incoming, set_my_guid, connect, time, destroy_client,
}

-- A port of the command line as RakNet takes it.
abbrev pub port : ℕ → ℕ
port n = n % 2 ^ 16

module _ (env : Env) where
  open env use {instance_given, startup_succeeds, connect_succeeds, clock, unassigned, address}

  -- UpdateClientState. The clock is read only if the state changes.
  unfoldable pub update_client_state :
      ClientContext → ConnectionState → History → ClientContext × History
  update_client_state c new_state h =
      if same_state c.state new_state
      then (c, h)
      else (record c { state = new_state; state_start_time = clock h }, time (clock h) ∷ h)

  -- The second half of CreateChildPeer: Connect and the tests behind it.
  unfoldable pub connect_child :
      ProgramArgs → ClientContext → Peer → History → Bool × ClientContext × History
  connect_child args ctx p h =
      let h' = connect p args.target_server_ip (port args.target_server_port) ∷ h in
      if connect_succeeds h'
      then (true, record ctx { child_peer = some p }, h')
      else (false, record ctx { child_peer = none }, destroy_client (some p) h')

  -- The first half: the settings and Startup.
  unfoldable pub start_child :
      ProgramArgs → ClientContext → ℕ → Option Peer → History → Bool × ClientContext × History
  start_child args ctx guid none h = (false, record ctx { child_peer = none }, h)
  start_child args ctx guid (some p) h =
      let h' = startup p 1 0 ∷ set_maximum_incoming p 0 ∷ set_my_guid p guid ∷ h in
      if startup_succeeds h'
      then connect_child args ctx p h'
      else (false, record ctx { child_peer = none }, destroy_client (some p) h')

  -- CreateChildPeer: whether it succeeds, the context with its `childPeer`, and the calls.
  unfoldable pub create_child_peer :
      ProgramArgs → ClientContext → ℕ → History → Bool × ClientContext × History
  create_child_peer args ctx guid h =
      start_child args ctx guid (instance_given h) (created (instance_given h) ∷ h)

  -- The address that a client's data goes to.
  unfoldable pub target_of : ProgramArgs → ClientContext → Address
  target_of args ctx =
      if ctx.target_address == unassigned
      then address args.target_server_ip (port args.target_server_port)
      else ctx.target_address

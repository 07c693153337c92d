-- ===== src/Proxy/Poll.antt =====
-- The main loop: raknet_proxy.cpp, main from `while (g_running)` to the end. The loop runs on
-- fuel; `none` means that the fuel ran out before a signal came.
use raknet_proxy.Base.{
  ℕ, zero, suc, Bool, true, false, ◌||◌, [], ◌∷◌, Option, none, some, ◌==◌, if◌then◌else◌,
}
use raknet_proxy.Client.{Peer, ClientContext, connected, check_timeout, count_received}
use raknet_proxy.Args.{ProgramArgs}
use raknet_proxy.Net.{
  Env, MessageIds, History, Packet, time, receive, deallocate_packet, sleep, destroyed, shutdown,
  poll_sleep_ms, get_packet_identifier, send_slice, destroy_client,
}
use raknet_proxy.Child.{update_client_state}
use raknet_proxy.Proxy.{Clients, Proxy, sweep_clients}
use raknet_proxy.Proxy.Events.{handle_packet}

pub data ChildKind : Type 0 where
  accepted : ChildKind
  gone : ChildKind
  passed : ChildKind

-- The chain of tests on a child's packet. A failed attempt, a disconnection and a lost connection
-- are treated alike, and so are ID_NEW_INCOMING_CONNECTION and every other message.
unfoldable pub child_kind_of : MessageIds → ℕ → ChildKind
child_kind_of ids id =
    if id == ids.connection_request_accepted
    then accepted
    else if id == ids.connection_attempt_failed
    then gone
    else if id == ids.new_incoming_connection
    then passed
    else if id == ids.disconnection_notification || id == ids.connection_lost
    then gone
    else passed

module _ (env : Env) (args : ProgramArgs) (peer : Peer) where
  -- The packet goes to the client as it is, is counted and freed.
  unfoldable pub pass_to_client : ClientContext → Peer → Packet → History → ClientContext × History
  pass_to_client c p packet h = (
    count_received packet.length c,
    deallocate_packet p ∷ send_slice env peer packet 0 packet.length c.client_address h,
  )

  unfoldable pub on_child_kind :
      ChildKind → ClientContext → Peer → Packet → History → ClientContext × History
  unfolding update_client_state pass_to_client
  on_child_kind accepted c p packet h =
      let (c', h') =
        update_client_state env (record c { target_address = packet.system_address }) connected h in
      pass_to_client (record c' { host_connect_timeout = 0 }) p packet h'
  on_child_kind gone c p packet h =
      (record c { child_peer = none }, destroy_client (some p) (deallocate_packet p ∷ h))
  on_child_kind passed c p packet h = pass_to_client c p packet h

  -- The answer of Receive on a client's child peer: the context, the calls, and hadData.
  unfoldable pub on_child_answer :
      ClientContext → Peer → Option Packet → History → ClientContext × History × Bool
  on_child_answer c p none h = (c, h, false)
  on_child_answer c p (some packet) h =
      let (c', h') =
        on_child_kind (child_kind_of env.ids (get_packet_identifier env (some packet))) c p packet
          h in
      (c', h', true)

  unfoldable pub poll_child : ClientContext → Option Peer → History → ClientContext × History × Bool
  poll_child c none h = (c, h, false)
  poll_child c (some p) h =
      on_child_answer c p (env.receive_answer (receive p ∷ h) p) (receive p ∷ h)

  -- The loop over all clients.
  unfoldable pub poll_children : Clients → History → Clients × History × Bool
  poll_children [] h = ([], h, false)
  poll_children ((k, c) ∷ cs) h =
      let (c', h1, had) = poll_child c c.child_peer h in
      let (cs', h2, more) = poll_children cs h1 in ((k, c') ∷ cs', h2, had || more)

  -- The answer of Receive on the main peer, and hadData.
  unfoldable pub on_answer : Option Packet → Proxy → Proxy × Bool
  on_answer none s = (s, false)
  on_answer (some packet) s =
      let s' = handle_packet env args peer packet s in
      (record s' { history = deallocate_packet peer ∷ s'.history }, true)

  unfoldable pub poll_main : Proxy → Proxy × Bool
  poll_main s =
      let h = receive peer ∷ s.history in
      on_answer (env.receive_answer h peer) (record s { history = h })

  -- The sweep over timed-out clients at the head of a round.
  unfoldable pub sweep_timeouts : Proxy → Proxy
  sweep_timeouts s =
      let now = env.clock s.history in
      sweep_clients (λ c. check_timeout c now) (record s { history = time now ∷ s.history })

  unfoldable pub poll_all_children : Proxy → Proxy × Bool
  poll_all_children s =
      let (cs, h, had) = poll_children s.clients s.history in
      (record s { clients = cs; history = h }, had)

  -- `if (!hadData) RakSleep(POLL_SLEEP_MS);`
  unfoldable pub rest_if_idle : Bool → Proxy → Proxy
  rest_if_idle had_data s =
      if had_data then s else record s { history = sleep poll_sleep_ms ∷ s.history }

  -- One round of the loop.
  unfoldable pub round : Proxy → Proxy
  round s =
      let (s1, had) = poll_main (sweep_timeouts s) in
      let (s2, more) = poll_all_children s1 in rest_if_idle (had || more) s2

  -- `while (g_running)`
  unfoldable pub run : ℕ → Proxy → Option Proxy
  run zero s = none
  run (suc fuel) s =
      let rest = run fuel (round s) in if env.interrupted s.history then some s else rest

-- The loop over the child peers behind the main loop.
unfoldable pub destroy_children : Clients → History → History
destroy_children [] h = h
destroy_children ((k, c) ∷ cs) h = destroy_children cs (destroy_client c.child_peer h)

-- The end of main, but for RemoveUPnPPortMapping.
unfoldable pub close : Peer → Proxy → Proxy
unfolding destroy_children
close peer s = record s {
  clients = [];
  history = destroyed peer ∷ shutdown peer 0 ∷ destroy_children s.clients s.history;
}

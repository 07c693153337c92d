-- ===== src/Proxy/Progress.antt =====
-- The progress of the main loop of raknet_proxy.cpp: every round makes at least one call, since the
-- sweep at its head asks for the time, so the loop ends if g_running is cleared at some time.
use raknet_proxy.Base.{
  ℕ, zero, suc, ◌+◌, ◌≤◌, ◌<◌, ◌≡◌, Bool, true, false, ◌||◌, [], ◌∷◌, Option, none, some, ltb,
  length, Bool-cases, inl, inr, arith,
}
use raknet_proxy.Wire.{get_uin}
use raknet_proxy.Client.{Peer, Address, ClientContext, connected, punch_connected, check_timeout}
use raknet_proxy.Args.{ProgramArgs}
use raknet_proxy.Net.{
  Env, History, Packet, time, receive, destroy_client, send_miniworld_message_guid, send_slice,
  get_packet_identifier,
}
use raknet_proxy.Table.{find}
use raknet_proxy.Proxy.{Clients, Proxy, sweep_clients}
use raknet_proxy.Proxy.Events.{
  Kind, kind_of, incoming, disconnection, lost, accepted, punched, logged, general, other, Sub,
  registers_client, registers_host, pings, disconnects, relays, goes_online, ignored,
  confirm_target, accept_incoming, on_incoming, reconnect_coordinator, reconnect_nat,
  on_disconnection, on_lost, on_accepted, on_punched, on_sub, on_general, on_kind, handle_packet,
}
use raknet_proxy.Proxy.Poll.{
  ChildKind, accepted as child_accepted, gone, passed, pass_to_client, on_child_kind,
  on_child_answer, poll_child, poll_children, on_answer, poll_main, sweep_timeouts,
  poll_all_children, rest_if_idle, round,
}
use raknet_proxy.Proxy.Closing.{rounds}
use raknet_proxy.Proxy.Growth.{
  Grows, sweep_clients-Grows, update_client_state-Grows, assign_child-Grows, update_found-Grows,
  handle_client_register-Grows, handle_host_register-Grows, handle_ping_message-Grows,
  handle_disconnect_message-Grows, handle_client_online-Grows, handle_proxy_data-Grows,
  forward-Grows,
}

module _ (env : Env) (args : ProgramArgs) (main : Peer) where
  on_incoming-Grows :
      (packet : Packet) (s : Proxy) → Grows s.history (on_incoming env args main packet s).history
  unfolding on_incoming accept_incoming confirm_target
  on_incoming-Grows packet s = by_client (find (get_uin packet.guid) s.clients)
    where
      by_client :
          (o : Option ClientContext)
          → Grows s.history (accept_incoming env args main packet s o).history
      by_client none = assign_child-Grows env args _ _ _ _ s (omega arith)
      by_client (some c) = update_found-Grows env args _ _ s (some c) (λ b.
          update_client_state-Grows env args (record b { target_address = packet.system_address })
            connected s.history)

  reconnect_coordinator-Grows :
      (a : Address) (s : Proxy) → Grows s.history (reconnect_coordinator env args main a s).history
  unfolding reconnect_coordinator
  reconnect_coordinator-Grows a s = ground arith

  reconnect_nat-Grows :
      (a : Address) (s : Proxy) → Grows s.history (reconnect_nat env args main a s).history
  unfolding reconnect_nat
  reconnect_nat-Grows a s = ground arith

  reconnect-Grows :
      (a : Address) (test : ClientContext → Bool) (s : Proxy)
      → Grows s.history
          (reconnect_nat env args main a
            (reconnect_coordinator env args main a (sweep_clients test s))).history
  reconnect-Grows a test s =
      let swept = sweep_clients-Grows test s in
      let first = reconnect_coordinator-Grows a (sweep_clients test s) in
      let second =
        reconnect_nat-Grows a (reconnect_coordinator env args main a (sweep_clients test s)) in
      omega (arith, swept, first, second)

  on_accepted-Grows :
      (packet : Packet) (s : Proxy) → Grows s.history (on_accepted env args main packet s).history
  unfolding on_accepted send_miniworld_message_guid
  on_accepted-Grows packet s = ground arith

  on_sub-Grows :
      (sub : Sub) (packet : Packet) (s : Proxy)
      → Grows s.history (on_sub env args main sub packet s).history
  unfolding on_sub
  on_sub-Grows registers_client packet s = handle_client_register-Grows env args main packet s
  on_sub-Grows registers_host packet s = handle_host_register-Grows env args main packet s
  on_sub-Grows pings packet s = handle_ping_message-Grows env args main packet s
  on_sub-Grows disconnects packet s = handle_disconnect_message-Grows env args packet s
  on_sub-Grows relays packet s = handle_proxy_data-Grows env args packet s
  on_sub-Grows goes_online packet s = handle_client_online-Grows env args main packet s
  on_sub-Grows ignored packet s = omega arith

  on_kind-Grows :
      (kind : Kind) (packet : Packet) (s : Proxy)
      → Grows s.history (on_kind env args main kind packet s).history
  unfolding on_kind on_disconnection on_lost on_punched on_general
  on_kind-Grows incoming packet s = on_incoming-Grows packet s
  on_kind-Grows disconnection packet s = reconnect-Grows packet.system_address _ s
  on_kind-Grows lost packet s = reconnect-Grows packet.system_address _ s
  on_kind-Grows accepted packet s = on_accepted-Grows packet s
  on_kind-Grows punched packet s =
      update_found-Grows env args _ _ s (find (get_uin packet.guid) s.clients)
        (λ c. update_client_state-Grows env args c punch_connected s.history)
  on_kind-Grows logged packet s = omega arith
  on_kind-Grows general packet s = elim (Bool-cases (ltb packet.length 2)) [
    | inl short ↦ rw short (omega arith)
    | inr long ↦ rw long (on_sub-Grows _ packet s)
  ]
  on_kind-Grows other packet s = forward-Grows env args main packet s

  on_answer-Grows :
      (o : Option Packet) (s : Proxy) → Grows s.history (on_answer env args main o s).0.history
  unfolding on_answer handle_packet
  on_answer-Grows none s = omega arith
  on_answer-Grows (some packet) s =
      let rest =
        on_kind-Grows (kind_of env.ids (get_packet_identifier env (some packet))) packet s in
      omega (arith, rest)

  on_child_kind-Grows :
      (kind : ChildKind) (c : ClientContext) (p : Peer) (packet : Packet) (h : History)
      → Grows h (on_child_kind env args main kind c p packet h).1
  unfolding on_child_kind pass_to_client send_slice destroy_client
  on_child_kind-Grows child_accepted c p packet h =
      let rest =
        update_client_state-Grows env args (record c { target_address = packet.system_address })
          connected h in
      omega (arith, rest)
  on_child_kind-Grows gone c p packet h = omega arith
  on_child_kind-Grows passed c p packet h = omega arith

  on_child_answer-Grows :
      (c : ClientContext) (p : Peer) (o : Option Packet) (h : History)
      → Grows h (on_child_answer env args main c p o h).1
  unfolding on_child_answer
  on_child_answer-Grows c p none h = omega arith
  on_child_answer-Grows c p (some packet) h = on_child_kind-Grows _ c p packet h

  poll_child-Grows :
      (c : ClientContext) (o : Option Peer) (h : History)
      → Grows h (poll_child env args main c o h).1
  unfolding poll_child
  poll_child-Grows c none h = omega arith
  poll_child-Grows c (some p) h =
      let rest = on_child_answer-Grows c p (env.receive_answer (receive p ∷ h) p) (receive p ∷ h) in
      omega (arith, rest)

  poll_children-Grows : (cs : Clients) (h : History) → Grows h (poll_children env args main cs h).1
  unfolding poll_children
  poll_children-Grows [] h = omega arith
  poll_children-Grows ((k, c) ∷ cs) h =
      let first = poll_child-Grows c c.child_peer h in
      let rest = poll_children-Grows cs (poll_child env args main c c.child_peer h).1 in
      omega (arith, first, rest)

  rest_if_idle-Grows :
      (had_data : Bool) (s : Proxy)
      → Grows s.history (rest_if_idle env args main had_data s).history
  unfolding rest_if_idle
  rest_if_idle-Grows had_data s = ground arith

  sweep_timeouts-lt :
      (s : Proxy) → length s.history < length (sweep_timeouts env args main s).history
  unfolding sweep_timeouts
  sweep_timeouts-lt s =
      let now = env.clock s.history in
      let rest =
        sweep_clients-Grows (λ c. check_timeout c now)
          (record s { history = time now ∷ s.history }) in
      omega (arith, rest)

  poll_main-Grows : (s : Proxy) → Grows s.history (poll_main env args main s).0.history
  unfolding poll_main
  poll_main-Grows s =
      let h = receive main ∷ s.history in
      let rest = on_answer-Grows (env.receive_answer h main) (record s { history = h }) in
      omega (arith, rest)

  poll_all_children-Grows :
      (s : Proxy) → Grows s.history (poll_all_children env args main s).0.history
  unfolding poll_all_children
  poll_all_children-Grows s = poll_children-Grows s.clients s.history

  -- Every round of the main loop makes a call.
  pub round-lt : (s : Proxy) → length s.history < length (round env args main s).history
  unfolding round
  round-lt s =
      let s0 = sweep_timeouts env args main s in
      let (s1, had) = poll_main env args main s0 in
      let (s2, more) = poll_all_children env args main s1 in
      let swept = sweep_timeouts-lt s in
      let polled = poll_main-Grows s0 in
      let children = poll_all_children-Grows s1 in
      let rested = rest_if_idle-Grows (had || more) s2 in
      omega (arith, swept, polled, children, rested)

  quiet-suc :
      (k : ℕ) (s : Proxy)
      → env.interrupted s.history ≡ false
      → ((j : ℕ)
          → j < k
          → env.interrupted (rounds env args main j (round env args main s)).history ≡ false)
      → (j : ℕ) → j < suc k
      → env.interrupted (rounds env args main j s).history ≡ false
  unfolding rounds
  quiet-suc k s now later zero less = now
  quiet-suc k s now later (suc j) less = later j (omega arith)

  -- If a signal has come by the time of n calls, one of the states after 0, 1, 2, ... rounds is the
  -- first that sees it, and that after at most as many rounds as calls are missing.
  pub rounds-interrupted :
      (n fuel : ℕ) (s : Proxy)
      → ((h : History) → n ≤ length h → env.interrupted h ≡ true)
      → n ≤ length s.history + fuel
      → (k : ℕ) × ((j : ℕ) → j < k → env.interrupted (rounds env args main j s).history ≡ false)
        × (env.interrupted (rounds env args main k s).history ≡ true)
        × (k ≤ fuel)
  unfolding rounds
  rounds-interrupted n zero s signal enough =
      (0, λ j less. absurd (omega arith), signal s.history (omega arith), omega arith)
  rounds-interrupted n (suc fuel) s signal enough = elim (Bool-cases (env.interrupted s.history)) [
    | inl now ↦ (0, λ j less. absurd (omega arith), now, omega arith)
    | inr later ↦
        let more = round-lt s in
        let (k, quiet, stop, few) =
          rounds-interrupted n fuel (round env args main s) signal (omega (arith, more, enough)) in
        (suc k, quiet-suc k s later quiet, stop, omega (arith, few))
  ]

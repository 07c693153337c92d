-- ===== src/Proxy/Growth.antt =====
-- The calls that the handlers of raknet_proxy.cpp make: none takes any back.
use raknet_proxy.Base.{
  ℕ, ◌≤◌, Bool, true, false, [], ◌∷◌, Option, none, some, leb, length, option_elim, Bool-cases, inl,
  inr, arith,
}
use raknet_proxy.Wire.{get_uin, read_big_endian_guid, host_register_resp}
use raknet_proxy.Client.{Peer, Address, ClientContext, ConnectionState, host_connecting}
use raknet_proxy.Args.{ProgramArgs}
use raknet_proxy.Net.{
  Env, History, Packet, created, startup, set_maximum_incoming, set_my_guid, destroy_client,
  send_miniworld_message, send_slice,
}
use raknet_proxy.Table.{find}
use raknet_proxy.Child.{update_client_state, connect_child, start_child, create_child_peer}
use raknet_proxy.Proxy.{Clients, Proxy, sweep, sweep_clients, store_client, assign_child}
use raknet_proxy.Proxy.Register.{
  register_client, handle_client_register, start_host_connect, update_found, handle_host_register,
  host_guids, handle_ping_message, handle_disconnect_message, enrol_online, handle_client_online,
}
use raknet_proxy.Proxy.Forward.{
  send_through, relay_to, handle_proxy_data, return_to_client, pass_to_target, forward_as, forward,
}

abbrev pub Grows : History → History → Type 0
Grows h h' = length h ≤ length h'

pub destroy_client-Grows : (o : Option Peer) (h : History) → Grows h (destroy_client o h)
unfolding destroy_client
destroy_client-Grows none h = omega arith
destroy_client-Grows (some p) h = omega arith

sweep-Grows :
    (test : ClientContext → Bool) (cs : Clients) (h : History) → Grows h (sweep test cs h).1
unfolding sweep
sweep-Grows test [] h = omega arith
sweep-Grows test ((k, c) ∷ cs) h = elim (Bool-cases (test c)) [
  | inl hit ↦
      let rest = sweep-Grows test cs (destroy_client c.child_peer h) in
      rw hit (omega (arith, rest, destroy_client-Grows c.child_peer h))
  | inr miss ↦ rw miss (sweep-Grows test cs h)
]

pub sweep_clients-Grows :
    (test : ClientContext → Bool) (s : Proxy) → Grows s.history (sweep_clients test s).history
unfolding sweep_clients
sweep_clients-Grows test s = sweep-Grows test s.clients s.history

module _ (env : Env) (args : ProgramArgs) where
  pub update_client_state-Grows :
      (c : ClientContext) (st : ConnectionState) (h : History)
      → Grows h (update_client_state env c st h).1
  unfolding update_client_state
  update_client_state-Grows c st h = ground arith

  connect_child-Grows :
      (ctx : ClientContext) (p : Peer) (h : History) → Grows h (connect_child env args ctx p h).2
  unfolding connect_child destroy_client
  connect_child-Grows ctx p h = ground arith

  start_child-Grows :
      (ctx : ClientContext) (guid : ℕ) (o : Option Peer) (h : History)
      → Grows h (start_child env args ctx guid o h).2
  unfolding start_child destroy_client
  start_child-Grows ctx guid none h = omega arith
  start_child-Grows ctx guid (some p) h =
      let rest =
        connect_child-Grows ctx p
          (startup p 1 0 ∷ set_maximum_incoming p 0 ∷ set_my_guid p guid ∷ h) in
      ground (arith, rest)

  store_client-Grows :
      (uin : ℕ) (r : Bool × ClientContext × History) (s : Proxy)
      → Grows s.history r.2
      → Grows s.history (store_client uin r s).history
  unfolding store_client
  store_client-Grows uin (true, ctx, h) s g = g
  store_client-Grows uin (false, ctx, h) s g = g

  pub assign_child-Grows :
      (uin : ℕ) (ctx : ClientContext) (guid : ℕ) (h : History) (s : Proxy)
      → Grows s.history h
      → Grows s.history (assign_child env args uin ctx guid h s).history
  unfolding assign_child create_child_peer
  assign_child-Grows uin ctx guid h s g =
      let rest =
        start_child-Grows ctx guid (env.instance_given h) (created (env.instance_given h) ∷ h) in
      store_client-Grows uin (create_child_peer env args ctx guid h) s (omega (arith, rest, g))

  pub update_found-Grows :
      (k : ℕ) (f : ClientContext → History → ClientContext × History) (s : Proxy)
      → (o : Option ClientContext) → ((c : ClientContext) → Grows s.history (f c s.history).1)
      → Grows s.history (update_found env k f s o).history
  unfolding update_found
  update_found-Grows k f s none g = omega arith
  update_found-Grows k f s (some c) g = g c

  register_client-Grows :
      (main : Peer) (packet : Packet) (guid : ℕ) (s : Proxy)
      → Grows s.history (register_client env main args packet guid s).history
  unfolding register_client send_miniworld_message
  register_client-Grows main packet guid s = assign_child-Grows _ _ guid _ s (omega arith)

  pub handle_client_register-Grows :
      (main : Peer) (packet : Packet) (s : Proxy)
      → Grows s.history (handle_client_register env main args packet s).history
  unfolding handle_client_register
  handle_client_register-Grows main packet s =
      let rest = register_client-Grows main packet (read_big_endian_guid packet.bytes 2) s in
      ground (arith, rest)

  start_host_connect-Grows :
      (sender : Address) (c : ClientContext) (h : History)
      → Grows h (start_host_connect env sender c h).1
  unfolding start_host_connect
  start_host_connect-Grows sender c h =
      let rest =
        update_client_state-Grows (record c { target_address = sender }) host_connecting h in
      omega (arith, rest)

  pub handle_host_register-Grows :
      (main : Peer) (packet : Packet) (s : Proxy)
      → Grows s.history (handle_host_register env main packet s).history
  unfolding handle_host_register send_miniworld_message
  handle_host_register-Grows main packet s =
      option_elim (λ (t : Proxy). Grows s.history t.history) (host_guids packet) (λ _. omega arith)
        λ guids _.
          let called = s.history in
          let rest =
            update_found-Grows (get_uin guids.0) (start_host_connect env packet.system_address)
              (record s {
                history =
                    send_miniworld_message env main host_register_resp packet.system_address []
                      called;
              })
              (find (get_uin guids.0) s.clients)
              (λ c. start_host_connect-Grows packet.system_address c _) in
          omega (arith, rest)

  pub handle_ping_message-Grows :
      (main : Peer) (packet : Packet) (s : Proxy)
      → Grows s.history (handle_ping_message env main packet s).history
  unfolding handle_ping_message send_miniworld_message
  handle_ping_message-Grows main packet s = ground arith

  pub handle_disconnect_message-Grows :
      (packet : Packet) (s : Proxy)
      → Grows s.history (handle_disconnect_message env packet s).history
  unfolding handle_disconnect_message destroy_client
  handle_disconnect_message-Grows packet s = ground arith

  pub handle_client_online-Grows :
      (main : Peer) (packet : Packet) (s : Proxy)
      → Grows s.history (handle_client_online env main args packet s).history
  unfolding handle_client_online enrol_online
  handle_client_online-Grows main packet s = elim (Bool-cases (leb 10 packet.length)) [
    | inl long ↦ rw long (assign_child-Grows _ _ _ _ s (omega arith))
    | inr short ↦ rw short (assign_child-Grows _ _ _ _ s (omega arith))
  ]

  pub handle_proxy_data-Grows :
      (packet : Packet) (s : Proxy) → Grows s.history (handle_proxy_data env args packet s).history
  unfolding handle_proxy_data relay_to send_through send_slice
  handle_proxy_data-Grows packet s = ground arith

  pub forward-Grows :
      (main : Peer) (packet : Packet) (s : Proxy)
      → Grows s.history (forward env args main packet s).history
  unfolding forward forward_as return_to_client pass_to_target send_through send_slice
  forward-Grows main packet s = ground arith

-- ===== src/Proxy/Handlers.antt =====
-- The handlers of the sub-messages keep the invariant of the child peers.
use raknet_proxy.Base.{ℕ, refl, ltb, leb, ◌==◌, if_elim, option_elim, option_elim}
use raknet_proxy.Client.{Peer, Address, host_connecting}
use raknet_proxy.Args.{ProgramArgs}
use raknet_proxy.Net.{Env, History, Packet, send_miniworld_message}
use raknet_proxy.Net.Live.{IsFresh}
use raknet_proxy.Table.{find_first}
use raknet_proxy.Proxy.{Proxy}
use raknet_proxy.Proxy.Register.{
  register_client, handle_client_register, start_host_connect, handle_host_register, host_guids,
  handle_ping_message, handle_disconnect_message, enrol_online, handle_client_online,
}
use raknet_proxy.Proxy.Invariant.{Inv}
use raknet_proxy.Proxy.Steady.{Steady-Inv, erase_first-Steady}
use raknet_proxy.Proxy.Safety.{
  Inv-log, assign_child-Inv, IsQuiet, update_found-Inv, update_client_state-IsQuiet,
}

module _ (env : Env) (fresh : IsFresh env) (args : ProgramArgs) (main : Peer) (Q : Peer → Type 0)
    (qm : Q main) where
  register_client-Inv :
      (packet : Packet) (guid : ℕ) (s : Proxy)
      → Inv Q s
      → Inv Q (register_client env main args packet guid s)
  unfolding register_client send_miniworld_message
  register_client-Inv packet guid s i =
      assign_child-Inv env fresh args Q _ _ _ _ s
        (Inv-log Q s _ (λ p. refl) (tt, ((i.lives main qm), i.safe)) i)

  pub handle_client_register-Inv :
      (packet : Packet) (s : Proxy)
      → Inv Q s
      → Inv Q (handle_client_register env main args packet s)
  unfolding handle_client_register
  handle_client_register-Inv packet s i =
      if_elim (Inv Q) (ltb packet.length 10) (λ _. i) (λ _. register_client-Inv packet _ s i)

  start_host_connect-IsQuiet : (sender : Address) → IsQuiet (start_host_connect env sender)
  unfolding start_host_connect
  start_host_connect-IsQuiet sender =
      let q = update_client_state-IsQuiet env host_connecting in
      record {
        keeps_child = λ c h. q.keeps_child (record c { target_address = sender }) h;
        same_lives = λ c h p. q.same_lives (record c { target_address = sender }) h p;
        keeps_safe = λ c h s. (tt, q.keeps_safe (record c { target_address = sender }) h s);
      }

  pub handle_host_register-Inv :
      (packet : Packet) (s : Proxy) → Inv Q s → Inv Q (handle_host_register env main packet s)
  unfolding handle_host_register send_miniworld_message
  handle_host_register-Inv packet s i =
      option_elim (Inv Q) (host_guids packet) (λ _. i)
        λ guids _.
          update_found-Inv env Q _ _ _ _ (start_host_connect-IsQuiet packet.system_address) refl
            (Inv-log Q s _ (λ p. refl) ((i.lives main qm), i.safe) i)

  pub handle_ping_message-Inv :
      (packet : Packet) (s : Proxy) → Inv Q s → Inv Q (handle_ping_message env main packet s)
  unfolding handle_ping_message send_miniworld_message
  handle_ping_message-Inv packet s i =
      option_elim (Inv Q) (find_first (λ c. c.client_address == packet.system_address) s.clients)
        (λ _. i) (λ _ _. Inv-log Q s _ (λ p. refl) ((i.lives main qm), i.safe) i)

  pub handle_disconnect_message-Inv :
      (packet : Packet) (s : Proxy) → Inv Q s → Inv Q (handle_disconnect_message env packet s)
  unfolding handle_disconnect_message
  handle_disconnect_message-Inv packet s i =
      option_elim (Inv Q) (find_first (λ c. c.client_address == packet.system_address) s.clients)
        (λ _. i)
        λ (k, c) e.
          Steady-Inv Q s _ _ i (erase_first-Steady _ s.clients s.history k c e i.owned i.safe)

  enrol_online-Inv :
      (packet : Packet) (guid : ℕ) (h : History) (s : Proxy)
      → Inv Q (record s { history = h })
      → Inv Q (enrol_online env args packet guid h s)
  unfolding enrol_online
  enrol_online-Inv packet guid h s i = assign_child-Inv env fresh args Q _ _ _ h s i

  pub handle_client_online-Inv :
      (packet : Packet) (s : Proxy) → Inv Q s → Inv Q (handle_client_online env main args packet s)
  unfolding handle_client_online
  handle_client_online-Inv packet s i =
      if_elim (Inv Q) (leb 10 packet.length) (λ _. enrol_online-Inv packet _ _ s i)
        λ _. enrol_online-Inv packet _ _ s (Inv-log Q s _ (λ p. refl) ((i.lives main qm), i.safe) i)

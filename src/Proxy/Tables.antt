-- ===== src/Proxy/Tables.antt =====
-- Every packet and every round keeps the client table well-formed.
use raknet_proxy.Base.{
  ℕ, ◌-◌, ◌≡◌, refl, sym, not, ◌&&◌, Option, none, some, ◌==◌, ltb, leb, str_eq, if_elim,
  option_elim, option_elim,
}
use mathlib.Core.Path.{subst}
use raknet_proxy.Wire.{get_uin}
use raknet_proxy.Client.{
  Peer, Address, punch_connected, connected, ClientContext, count_sent, count_received,
}
use raknet_proxy.Args.{ProgramArgs, is_empty}
use raknet_proxy.Net.{Env, Packet}
use raknet_proxy.Table.{find, adjust, find_first}
use raknet_proxy.Table.Laws.{IsSorted, adjust-IsSorted, erase_first-IsSorted}
use raknet_proxy.Child.{target_of}
use raknet_proxy.Proxy.{Proxy, enrolled}
use raknet_proxy.Proxy.Register.{
  handle_client_register, start_host_connect, handle_host_register, host_guids, handle_ping_message,
  handle_disconnect_message, handle_client_online,
}
use raknet_proxy.Proxy.Forward.{send_through, relay_to, handle_proxy_data, forward_as, forward}
use raknet_proxy.Proxy.Events.{
  Kind, incoming, disconnection, lost, accepted, punched, logged, general, other, Sub,
  registers_client, registers_host, pings, disconnects, relays, goes_online, ignored,
  confirm_target, accept_incoming, on_incoming, reconnect_coordinator, reconnect_nat,
  on_disconnection, on_lost, on_accepted, on_punched, on_sub, on_general, on_kind, handle_packet,
}
use raknet_proxy.Proxy.Changes.{
  IsGood, AllGood, IsWellFormed, AllGood-adjust, AllGood-erase_first, sweep_clients-IsWellFormed,
}
use raknet_proxy.Proxy.WellFormed.{
  IsGood-target, update_client_state-IsGood, start_host_connect-IsGood, update_found-IsWellFormed,
  assign_child-IsWellFormed,
}

-- The table alone decides.
pub same_table : (s t : Proxy) → t.clients ≡ s.clients → IsWellFormed s → IsWellFormed t
same_table s t e w = record {
  sorted = subst IsSorted (sym e) w.sorted;
  good = subst AllGood (sym e) w.good;
}

-- A client that is enrolled belongs under its UIN.
pub IsGood-enrolled :
    (env : Env) (guid : ℕ) (sender : Address) (now : ℕ)
    → IsGood
        (get_uin guid)
        (record (enrolled env guid (get_uin guid) sender) { state_start_time = now })
IsGood-enrolled env guid sender now = record {
  keyed = refl;
  of_guid = refl;
  reached = tt;
  deadline = λ e. cc;
}

counted :
    (k : ℕ) (f : ClientContext → ClientContext) (s : Proxy)
    → ((c : ClientContext) → IsGood k c → IsGood k (f c))
    → IsWellFormed s
    → IsWellFormed (record s { clients = adjust k f s.clients })
counted k f s keep w = record {
  sorted = adjust-IsSorted k f s.clients w.sorted;
  good = AllGood-adjust k f s.clients keep w.good;
}

count_sent-IsGood : (k n : ℕ) (c : ClientContext) → IsGood k c → IsGood k (count_sent n c)
count_sent-IsGood k n c g = record {
  keyed = g.keyed;
  of_guid = g.of_guid;
  reached = g.reached;
  deadline = g.deadline;
}

pub count_received-IsGood :
    (k n : ℕ) (c : ClientContext) → IsGood k c → IsGood k (count_received n c)
count_received-IsGood k n c g = record {
  keyed = g.keyed;
  of_guid = g.of_guid;
  reached = g.reached;
  deadline = g.deadline;
}

module _ (env : Env) (args : ProgramArgs) (main : Peer) where
  abbrev W : Proxy → Type 0
  W = IsWellFormed

  register-W :
      (packet : Packet) (s : Proxy) → W s → W (handle_client_register env main args packet s)
  unfolding handle_client_register
  register-W packet s w =
      if_elim W (ltb packet.length 10) (λ _. w)
        λ _. assign_child-IsWellFormed env args _ _ _ _ s (IsGood-enrolled env _ _ _) w

  host-W : (packet : Packet) (s : Proxy) → W s → W (handle_host_register env main packet s)
  unfolding handle_host_register
  host-W packet s w =
      option_elim W (host_guids packet) (λ _. w)
        λ guids _.
          update_found-IsWellFormed env _ (start_host_connect env packet.system_address) _ _
            (start_host_connect-IsGood _ env packet.system_address) refl (same_table s _ refl w)

  ping-W : (packet : Packet) (s : Proxy) → W s → W (handle_ping_message env main packet s)
  unfolding handle_ping_message
  ping-W packet s w =
      option_elim W (find_first (λ c. c.client_address == packet.system_address) s.clients) (λ _. w)
        (λ _ _. same_table s _ refl w)

  disconnect-W : (packet : Packet) (s : Proxy) → W s → W (handle_disconnect_message env packet s)
  unfolding handle_disconnect_message
  disconnect-W packet s w =
      option_elim W (find_first (λ c. c.client_address == packet.system_address) s.clients) (λ _. w)
        λ (k, c) _. record {
          sorted = erase_first-IsSorted _ s.clients w.sorted;
          good = AllGood-erase_first _ s.clients w.good;
        }

  online-W : (packet : Packet) (s : Proxy) → W s → W (handle_client_online env main args packet s)
  unfolding handle_client_online
  online-W packet s w =
      if_elim W (leb 10 packet.length)
        (λ _. assign_child-IsWellFormed env args _ _ _ _ s (IsGood-enrolled env _ _ 0) w)
        (λ _. assign_child-IsWellFormed env args _ _ _ _ s (IsGood-enrolled env _ _ 0) w)

  send_through-W :
      (k : ℕ) (c : ClientContext) (p : Peer) (packet : Packet) (n : ℕ) (target : Address)
      (s : Proxy)
      → W s
      → W (send_through env args k c p packet n target s)
  unfolding send_through
  send_through-W k c p packet n target s w =
      same_table _ _ refl (counted k _ s (count_sent-IsGood k (packet.length - n)) w)

  relay-W :
      (k : ℕ) (packet : Packet) (s : Proxy) (o : Option ClientContext)
      → W s
      → W (relay_to env args k packet s o)
  unfolding relay_to
  relay-W k packet s none w = w
  relay-W k packet s (some c) w =
      option_elim W c.child_peer (λ _. w) (λ p _. send_through-W k c p packet 6 _ s w)

  data-W : (packet : Packet) (s : Proxy) → W s → W (handle_proxy_data env args packet s)
  unfolding handle_proxy_data
  data-W packet s w = if_elim W (ltb packet.length 6) (λ _. w) (λ _. relay-W _ packet s _ w)

  forward_as-W :
      (packet : Packet) (s : Proxy) (o : Option (ℕ × ClientContext))
      → W s
      → W (forward_as env args main packet s o)
  unfolding forward_as
  forward_as-W packet s none w = w
  forward_as-W packet s (some (k, c)) w =
      if_elim W (c.target_address == packet.system_address)
        (λ _. same_table _ _ refl (counted k _ s (count_received-IsGood k packet.length) w))
        λ _.
          option_elim W c.child_peer (λ _. w)
            λ p _.
              if_elim W (target_of env args c == env.unassigned) (λ _. w)
                (λ _. send_through-W k c p packet 0 _ s w)

  reconnect-W :
      (sender : Address) (s : Proxy)
      → W s
      → W (reconnect_nat env args main sender (reconnect_coordinator env args main sender s))
  unfolding reconnect_nat reconnect_coordinator
  reconnect-W sender s w =
      let w' =
        if_elim W (not (s.coordinator_address == env.unassigned) && sender == s.coordinator_address)
          {y = s} (λ _. same_table s _ refl w) (λ _. w) in
      if_elim W (str_eq (env.host_text sender) args.nat_server_ip) (λ _. same_table _ _ refl w')
        (λ _. w')

  incoming-W : (packet : Packet) (s : Proxy) → W s → W (on_incoming env args main packet s)
  unfolding on_incoming accept_incoming confirm_target
  incoming-W packet s w = by_lookup (find (get_uin packet.guid) s.clients) refl
    where
      by_lookup :
          (o : Option ClientContext)
          → find (get_uin packet.guid) s.clients ≡ o
          → W (accept_incoming env args main packet s o)
      by_lookup (some c) e =
          update_found-IsWellFormed env _ _ s (some c)
            (λ b h g.
              update_client_state-IsGood _ env _ connected h tt (λ x. cc) (IsGood-target _ b _ g))
            e w
      by_lookup none e = assign_child-IsWellFormed env args _ _ _ _ s (IsGood-enrolled env _ _ _) w

  accepted-W : (packet : Packet) (s : Proxy) → W s → W (on_accepted env args main packet s)
  unfolding on_accepted
  accepted-W packet s w =
      if_elim W
        (not (is_empty args.coordinator_ip)
          && str_eq (env.host_text packet.system_address) args.coordinator_ip)
        (λ _. same_table s _ refl w) (λ _. w)

  sub-W : (sub : Sub) (packet : Packet) (s : Proxy) → W s → W (on_sub env args main sub packet s)
  unfolding on_sub
  sub-W registers_client packet s w = register-W packet s w
  sub-W registers_host packet s w = host-W packet s w
  sub-W pings packet s w = ping-W packet s w
  sub-W disconnects packet s w = disconnect-W packet s w
  sub-W relays packet s w = data-W packet s w
  sub-W goes_online packet s w = online-W packet s w
  sub-W ignored packet s w = w

  kind-W :
      (kind : Kind) (packet : Packet) (s : Proxy) → W s → W (on_kind env args main kind packet s)
  unfolding on_kind on_disconnection on_lost on_punched on_general forward
  kind-W incoming packet s w = incoming-W packet s w
  kind-W disconnection packet s w = reconnect-W _ _ (sweep_clients-IsWellFormed _ s w)
  kind-W lost packet s w = reconnect-W _ _ (sweep_clients-IsWellFormed _ s w)
  kind-W accepted packet s w = accepted-W packet s w
  kind-W punched packet s w =
      update_found-IsWellFormed env _ _ s _
        (λ c h g. update_client_state-IsGood _ env c punch_connected h tt (λ x. cc) g) refl w
  kind-W logged packet s w = w
  kind-W general packet s w = if_elim W (ltb packet.length 2) (λ _. w) (λ _. sub-W _ packet s w)
  kind-W other packet s w = forward_as-W packet s _ w

  -- Whatever packet the main peer receives, a well-formed table stays well-formed.
  pub handle_packet-IsWellFormed :
      (packet : Packet) (s : Proxy)
      → IsWellFormed s
      → IsWellFormed (handle_packet env args main packet s)
  unfolding handle_packet
  handle_packet-IsWellFormed packet s w = kind-W _ packet s w

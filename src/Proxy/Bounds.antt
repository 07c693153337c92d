-- ===== src/Proxy/Bounds.antt =====
-- Which bytes of a packet the program reads: raknet_proxy.cpp, GetPacketIdentifier and the
-- handlers, whose length tests come before their reads.
use raknet_proxy.Base.{ℕ, ◌+◌, ◌<◌, ◌≡◌, refl, ap, ◌∙◌, Option, none, some, ltb, ◌==◌, ◌||◌, arith}
use raknet_proxy.Wire.{Memory, byte_at, get_uin}
use raknet_proxy.Wire.Agreement.{Agree, slice-Agree, uin_of_frame-Agree}
use raknet_proxy.Client.{Peer, Address, ClientContext}
use raknet_proxy.Args.{ProgramArgs}
use raknet_proxy.Net.{Env, History, Packet, get_packet_identifier, send_slice}
use raknet_proxy.Table.{find, find_first}
use raknet_proxy.Proxy.{Proxy}
use raknet_proxy.Proxy.Register.{host_guids, handle_ping_message, handle_disconnect_message}
use raknet_proxy.Proxy.Forward.{
  send_through, return_to_client, pass_to_target, context_by_uin, context_of, forward_as, forward,
}
use raknet_proxy.Proxy.Events.{
  Kind, incoming, disconnection, lost, accepted, punched, logged, general, other, Sub,
  registers_client, registers_host, pings, disconnects, relays, goes_online, ignored, sub_of,
  accept_incoming, on_incoming, on_disconnection, on_lost, on_accepted, on_punched, on_sub,
  on_general, on_kind, handle_packet,
}
use raknet_proxy.Proxy.Poll.{
  ChildKind, accepted as child_accepted, gone, passed, pass_to_client, on_child_kind,
  on_child_answer,
}
use raknet_proxy.Proxy.Reads.{
  over, if_agree, option_agree, send_slice-over, register-over, host_guids-over, host-over,
  online-over, data-over,
}

module _ (env : Env) (args : ProgramArgs) (main : Peer) (m : Memory) (packet : Packet)
    (a : Agree packet.length packet.bytes m) where
  sub-over :
      (sub : Sub) (s : Proxy)
      → on_sub env args main sub (over m packet) s ≡ on_sub env args main sub packet s
  unfolding on_sub handle_ping_message handle_disconnect_message
  sub-over registers_client s = register-over env args main m packet a s
  sub-over registers_host s = host-over env args main m packet a s
  sub-over pings s = refl
  sub-over disconnects s = refl
  sub-over relays s = data-over env args main m packet a s
  sub-over goes_online s = online-over env args main m packet a s
  sub-over ignored s = refl

  general-over :
      (s : Proxy) → on_general env args main (over m packet) s ≡ on_general env args main packet s
  unfolding on_general
  general-over s =
      if_agree (ltb packet.length 2) (λ _. refl)
        λ long. rw (← a 1 (ground arith)) (sub-over (sub_of (byte_at packet.bytes 1)) s)

  context_by_uin-over :
      (s : Proxy)
      → context_by_uin env args (over m packet) s.clients ≡ context_by_uin env args packet s.clients
  unfolding context_by_uin
  context_by_uin-over s =
      if_agree (ltb packet.length 5) (λ _. refl)
        λ long.
          ap (λ u. elim (find u s.clients) [ none ↦ none | some c ↦ some (u, c) ])
            (uin_of_frame-Agree packet.length packet.bytes m a (ground arith))

  context_of-over :
      (s : Proxy)
      → context_of env args (over m packet) s.clients ≡ context_of env args packet s.clients
  unfolding context_of
  context_of-over s =
      ap
        (λ b. elim b [
          | none ↦
              find_first
                (λ c.
                  c.client_address == packet.system_address
                  || c.target_address == packet.system_address)
                s.clients
          | some found ↦ some found
        ])
        (context_by_uin-over s)

  send_whole-over :
      (p : Peer) (target : Address) (h : History)
      → send_slice env p (over m packet) 0 packet.length target h
        ≡ send_slice env p packet 0 packet.length target h
  unfolding send_slice
  send_whole-over p target h =
      rw (slice-Agree packet.length packet.length 0 packet.bytes m a (omega arith)) refl

  pass_to_target-over :
      (k : ℕ) (c : ClientContext) (s : Proxy)
      → pass_to_target env args k c (over m packet) s ≡ pass_to_target env args k c packet s
  unfolding pass_to_target send_through
  pass_to_target-over k c s =
      option_agree c.child_peer refl
        λ p. rw (send_slice-over env args main m packet a p 0 _ s.history (omega arith)) refl

  forward_as-over :
      (s : Proxy) (o : Option (ℕ × ClientContext))
      → forward_as env args main (over m packet) s o ≡ forward_as env args main packet s o
  unfolding forward_as return_to_client
  forward_as-over s none = refl
  forward_as-over s (some (k, c)) =
      if_agree (c.target_address == packet.system_address)
        (λ _. rw (send_whole-over main c.client_address s.history) refl)
        (λ _. pass_to_target-over k c s)

  forward-over :
      (s : Proxy) → forward env args main (over m packet) s ≡ forward env args main packet s
  unfolding forward
  forward-over s =
      ap (forward_as env args main (over m packet) s) (context_of-over s) ∙ forward_as-over s _

  kind-over :
      (kind : Kind) (s : Proxy)
      → on_kind env args main kind (over m packet) s ≡ on_kind env args main kind packet s
  unfolding on_kind on_incoming accept_incoming on_disconnection on_lost on_accepted on_punched
  kind-over incoming s = option_cases (find (get_uin packet.guid) s.clients)
    where
      option_cases :
          (o : Option ClientContext)
          → accept_incoming env args main (over m packet) s o
            ≡ accept_incoming env args main packet s o
      option_cases none = refl
      option_cases (some c) = refl
  kind-over disconnection s = refl
  kind-over lost s = refl
  kind-over accepted s = refl
  kind-over punched s = refl
  kind-over logged s = refl
  kind-over general s = general-over s
  kind-over other s = forward-over s

  -- GetPacketIdentifier reads the first byte, and with ID_TIMESTAMP the byte behind the time.
  identifier-over :
      0 < packet.length
      → (byte_at packet.bytes 0 ≡ env.ids.timestamp → 1 + env.time_size < packet.length)
      → get_packet_identifier env (some (over m packet)) ≡ get_packet_identifier env (some packet)
  unfolding get_packet_identifier
  identifier-over pos stamped = rw (← a 0 pos) (
      if_agree (byte_at packet.bytes 0 == env.ids.timestamp)
        (λ e. rw (a (1 + env.time_size) (stamped (ground arith))) refl) (λ _. refl))

  pass_to_client-over :
      (c : ClientContext) (p : Peer) (h : History)
      → pass_to_client env args main c p (over m packet) h
        ≡ pass_to_client env args main c p packet h
  unfolding pass_to_client
  pass_to_client-over c p h = rw (send_whole-over main c.client_address h) refl

  -- What is done with a packet of a child peer.
  child-over :
      (kind : ChildKind) (c : ClientContext) (p : Peer) (h : History)
      → on_child_kind env args main kind c p (over m packet) h
        ≡ on_child_kind env args main kind c p packet h
  unfolding on_child_kind
  child-over child_accepted c p h = pass_to_client-over _ p _
  child-over gone c p h = refl
  child-over passed c p h = pass_to_client-over c p h

  -- No byte behind the end of a packet is read. If a packet has a first byte, and is longer than
  -- its header when that byte is ID_TIMESTAMP, then any memory that agrees with its own on the
  -- packet's bytes gives the same: the state and the calls after the handling of a packet of the
  -- main peer, the two GUIDs that HandleHostRegister reads behind its length test, and the context
  -- and the calls after the handling of a packet of a child peer.
  pub handle_packet-Agree :
      0 < packet.length
      → (byte_at packet.bytes 0 ≡ env.ids.timestamp → 1 + env.time_size < packet.length)
      → (s : Proxy) (c : ClientContext) (p : Peer) (h : History)
      → (handle_packet env args main (over m packet) s ≡ handle_packet env args main packet s)
        × (host_guids (over m packet) ≡ host_guids packet)
        × (on_child_answer env args main c p (some (over m packet)) h
            ≡ on_child_answer env args main c p (some packet) h)
  unfolding handle_packet on_child_answer
  handle_packet-Agree pos stamped s c p h = (
    rw (identifier-over pos stamped) (kind-over _ s),
    host_guids-over env args main m packet a,
    rw (identifier-over pos stamped) (rw (child-over _ c p h) refl),
  )

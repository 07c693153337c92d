-- ===== src/Proxy/Forwarding.antt =====
-- Passing data on keeps the invariant of the child peers.
use raknet_proxy.Base.{
  ℕ, ◌-◌, ◌≡◌, refl, Bool, true, ◌||◌, Option, none, some, ltb, ◌==◌, if_elim, option_elim,
}
use raknet_proxy.Wire.{uin_of_frame}
use raknet_proxy.Client.{Peer, Address, ClientContext, count_sent, count_received}
use raknet_proxy.Args.{ProgramArgs}
use raknet_proxy.Net.{Env, History, Packet, send_slice}
use raknet_proxy.Net.Live.{live}
use raknet_proxy.Table.{find, adjust, find_first}
use raknet_proxy.Child.{target_of}
use raknet_proxy.Proxy.{Proxy}
use raknet_proxy.Proxy.Forward.{
  send_through, relay_to, handle_proxy_data, return_to_client, pass_to_target, context_by_uin,
  context_of, forward_as, forward,
}
use raknet_proxy.Proxy.Invariant.{Inv}
use raknet_proxy.Proxy.Writes.{NotIn-found}
use raknet_proxy.Proxy.Safety.{Inv-log, Inv-adjust, live-find}

module _ (env : Env) (args : ProgramArgs) (main : Peer) (Q : Peer → Type 0) (qm : Q main) where
  send_through-Inv :
      (k : ℕ) (c : ClientContext) (p : Peer) (packet : Packet) (n : ℕ) (target : Address)
      (s : Proxy)
      → live p s.history ≡ true
      → Inv Q s
      → Inv Q (send_through env args k c p packet n target s)
  unfolding send_through send_slice
  send_through-Inv k c p packet n target s l i =
      Inv-log Q (record s { clients = adjust k (count_sent (packet.length - n)) s.clients }) _
        (λ q. refl) (l, i.safe) (Inv-adjust Q k _ s (λ b. refl) i)

  relay_to-Inv :
      (k : ℕ) (packet : Packet) (s : Proxy) (o : Option ClientContext)
      → find k s.clients ≡ o
      → Inv Q s
      → Inv Q (relay_to env args k packet s o)
  unfolding relay_to
  relay_to-Inv k packet s none e i = i
  relay_to-Inv k packet s (some c) e i =
      option_elim (Inv Q) c.child_peer (λ _. i)
        λ p f.
          send_through-Inv k c p packet 6 _ s (live-find s.history k s.clients c p e f i.owned) i

  pub handle_proxy_data-Inv :
      (packet : Packet) (s : Proxy) → Inv Q s → Inv Q (handle_proxy_data env args packet s)
  unfolding handle_proxy_data
  handle_proxy_data-Inv packet s i =
      if_elim (Inv Q) (ltb packet.length 6) (λ _. i) (λ _. relay_to-Inv _ packet s _ refl i)

  return_to_client-Inv :
      (k : ℕ) (c : ClientContext) (packet : Packet) (s : Proxy)
      → Inv Q s
      → Inv Q (return_to_client env args main k c packet s)
  unfolding return_to_client send_slice
  return_to_client-Inv k c packet s i =
      Inv-log Q (record s { clients = adjust k (count_received packet.length) s.clients }) _
        (λ q. refl) ((i.lives main qm), i.safe) (Inv-adjust Q k _ s (λ b. refl) i)

  -- The client that a packet belongs to has an instance that exists, or none.
  abbrev HasLive : History → Option (ℕ × ClientContext) → Type 0
  HasLive h none = Unit {0}
  HasLive h (some (k, c)) = (p : Peer) → c.child_peer ≡ some p → live p h ≡ true

  context_by_uin-HasLive :
      (packet : Packet) (s : Proxy)
      → Inv Q s
      → HasLive s.history (context_by_uin env args packet s.clients)
  unfolding context_by_uin
  context_by_uin-HasLive packet s i =
      if_elim (HasLive s.history) (ltb packet.length 5) {x = none} (λ _. tt)
        λ _.
          option_elim (HasLive s.history) (find (uin_of_frame packet.bytes) s.clients) (λ _. tt)
            λ c e p f. live-find s.history _ s.clients c p e f i.owned

  find_first-HasLive :
      (test : ClientContext → Bool) (s : Proxy)
      → Inv Q s
      → HasLive s.history (find_first test s.clients)
  find_first-HasLive test s i = found (find_first test s.clients) refl
    where
      found : (o : Option (ℕ × ClientContext)) → find_first test s.clients ≡ o → HasLive s.history o
      found none e = tt
      found (some (k, c)) e = λ p f. (NotIn-found s.history test s.clients k c p e f i.owned).0

  context_of-HasLive :
      (packet : Packet) (s : Proxy)
      → Inv Q s
      → HasLive s.history (context_of env args packet s.clients)
  unfolding context_of
  context_of-HasLive packet s i =
      chosen (context_by_uin env args packet s.clients) (context_by_uin-HasLive packet s i)
    where
      chosen :
          (o : Option (ℕ × ClientContext))
          → HasLive s.history o
          → HasLive s.history (elim o [
            | none ↦
                find_first
                  (λ c.
                    c.client_address == packet.system_address
                    || c.target_address == packet.system_address)
                  s.clients
            | some found ↦ some found
          ])
      chosen none h = find_first-HasLive _ s i
      chosen (some (k, c)) h = h

  pass_to_target-Inv :
      (k : ℕ) (c : ClientContext) (packet : Packet) (s : Proxy)
      → HasLive s.history (some (k, c))
      → Inv Q s
      → Inv Q (pass_to_target env args k c packet s)
  unfolding pass_to_target
  pass_to_target-Inv k c packet s l i =
      option_elim (Inv Q) c.child_peer (λ _. i)
        λ p f.
          if_elim (Inv Q) (target_of env args c == env.unassigned) (λ _. i)
            λ _. send_through-Inv k c p packet 0 _ s (l p f) i

  forward_as-Inv :
      (packet : Packet) (s : Proxy) (o : Option (ℕ × ClientContext))
      → HasLive s.history o
      → Inv Q s
      → Inv Q (forward_as env args main packet s o)
  unfolding forward_as
  forward_as-Inv packet s none l i = i
  forward_as-Inv packet s (some (k, c)) l i =
      if_elim (Inv Q) (c.target_address == packet.system_address)
        (λ _. return_to_client-Inv k c packet s i) (λ _. pass_to_target-Inv k c packet s l i)

  pub forward-Inv : (packet : Packet) (s : Proxy) → Inv Q s → Inv Q (forward env args main packet s)
  unfolding forward
  forward-Inv packet s i = forward_as-Inv packet s _ (context_of-HasLive packet s i) i

-- ===== src/Proxy/Returning.antt =====
-- The loop over the clients in main of raknet_proxy.cpp, which polls their child peers.
use mathlib.Core.List.{append_assoc}
use raknet_proxy.Base.{
  ℕ, ◌≡◌, refl, sym, ap, ◌∙◌, inl, inr, [], ◌∷◌, ◌++◌, Option, none, some, ◌==◌, Bool-cases, arith,
}
use raknet_proxy.Wire.{slice}
use raknet_proxy.Client.{Peer, ClientContext}
use raknet_proxy.Args.{ProgramArgs}
use raknet_proxy.Net.{
  Env, History, Packet, receive, send, time, shutdown, destroyed, deallocate_packet,
  get_packet_identifier,
}
use raknet_proxy.Table.{find}
use raknet_proxy.Proxy.{Clients}
use raknet_proxy.Proxy.Poll.{on_child_answer, poll_child, poll_children}
use raknet_proxy.Proxy.Kinds.{IsDistinct}
use raknet_proxy.Proxy.Answering.{
  Returned, Answered, given_up, established, passed_on, on_child_kind-Answered,
}

-- The later history has the earlier one at its end.
abbrev pub Extends : History → History → Type 0
Extends h h' = (front : History) × (h' ≡ front ++ h)

module _ (env : Env) (apart : IsDistinct env.ids) (args : ProgramArgs) (main : Peer) where
  -- What the loop does to one client: without a child peer or a packet, nothing.
  pub data Polled (c c' : ClientContext) (h h' : History) : Type 0 where
    childless : c.child_peer ≡ none → c' ≡ c → h' ≡ h → Polled c c' h h'
    silent :
        (p : Peer)
        → c.child_peer ≡ some p
        → env.receive_answer (receive p ∷ h) p ≡ none
        → c' ≡ c
        → h' ≡ receive p ∷ h
        → Polled c c' h h'
    answered :
        (p : Peer) (packet : Packet)
        → c.child_peer ≡ some p
        → env.receive_answer (receive p ∷ h) p ≡ some packet
        → Answered env main c p packet
            (get_packet_identifier env (some packet))
            c'
            (receive p ∷ h)
            h'
        → Polled c c' h h'

  on_child_answer-Polled :
      (c : ClientContext) (p : Peer) (o : Option Packet) (h : History)
      → c.child_peer ≡ some p
      → env.receive_answer (receive p ∷ h) p ≡ o
      → let r = on_child_answer env args main c p o (receive p ∷ h) in Polled c r.0 h r.1
  unfolding on_child_answer
  on_child_answer-Polled c p none h child nothing = silent p child nothing refl refl
  on_child_answer-Polled c p (some packet) h child comes =
      answered p packet child comes
        (on_child_kind-Answered env apart args main c p packet _ (receive p ∷ h))

  poll_child-Polled :
      (c : ClientContext) (o : Option Peer) (h : History)
      → c.child_peer ≡ o
      → let r = poll_child env args main c o h in Polled c r.0 h r.1
  unfolding poll_child
  poll_child-Polled c none h no_child = childless no_child refl refl
  poll_child-Polled c (some p) h child = on_child_answer-Polled c p _ h child refl

  Returned-Extends :
      (c c' : ClientContext) (p : Peer) (packet : Packet) (h h' : History)
      → Returned env main c p packet c' h h'
      → Extends h h'
  Returned-Extends c c' p packet h h' r =
      let sent = send main (slice packet.bytes 0 packet.length) c.client_address in
      elim r.looked [
        | inl e ↦
            (deallocate_packet p ∷ sent ∷ [], r.sent ∙ ap (λ b. deallocate_packet p ∷ sent ∷ b) e)
        | inr e ↦ (
          deallocate_packet p ∷ sent ∷ time (env.clock h) ∷ [],
          r.sent ∙ ap (λ b. deallocate_packet p ∷ sent ∷ b) e,
        )
      ]

  Extends-trans : (h1 h2 h3 : History) → Extends h1 h2 → Extends h2 h3 → Extends h1 h3
  Extends-trans h1 h2 h3 (f, e) (g, d) =
      (g ++ f, d ∙ ap (λ h. g ++ h) e ∙ sym (append_assoc g f h1))

  Answered-Extends :
      (c c' : ClientContext) (p : Peer) (packet : Packet) (id : ℕ) (h h' : History)
      → Answered env main c p packet id c' h h'
      → Extends h h'
  Answered-Extends c c' p packet id h h' (given_up ended e dead calls) =
      (destroyed p ∷ shutdown p 300 ∷ deallocate_packet p ∷ [], calls)
  Answered-Extends c c' p packet id h h' (established is st target timeout r) =
      Returned-Extends c c' p packet h h' r
  Answered-Extends c c' p packet id h h' (passed_on differs stays st target timeout r) =
      Returned-Extends c c' p packet h h' r

  Polled-Extends : (c c' : ClientContext) (h h' : History) → Polled c c' h h' → Extends h h'
  Polled-Extends c c' h h' (childless child same calls) = ([], calls)
  Polled-Extends c c' h h' (silent p child nothing same calls) = (receive p ∷ [], calls)
  Polled-Extends c c' h h' (answered p packet child comes a) =
      Extends-trans h (receive p ∷ h) h' (receive p ∷ [], refl)
        (Answered-Extends c c' p packet _ (receive p ∷ h) h' a)

  poll_children-Extends :
      (cs : Clients) (h : History) → Extends h (poll_children env args main cs h).1
  unfolding poll_children
  poll_children-Extends [] h = ([], refl)
  poll_children-Extends ((k, c) ∷ cs) h =
      let r = poll_child env args main c c.child_peer h in
      Extends-trans h r.1 _ (Polled-Extends c r.0 h r.1 (poll_child-Polled c c.child_peer h refl))
        (poll_children-Extends cs r.1)

  -- The loop over the clients, for a client of the table: it stays there under its key. If it has a
  -- child peer that has a packet, then by the identifier of the packet: one that says that the
  -- connection to the target failed or ended is freed, the child peer is destroyed, and the context
  -- loses it and nothing else; every other one goes whole to the client, is freed and is counted
  -- once, and if it says that the connection is accepted, the client becomes connected to the
  -- sender and its deadline is cleared. Without a child peer or a packet the context stays. What
  -- is called for the client stands between the calls before the loop and those behind it. The
  -- message identifiers concerned have different values.
  pub poll_children-Answered :
      (k : ℕ) (c : ClientContext) (cs : Clients) (h : History)
      → find k cs ≡ some c
      → let r = poll_children env args main cs h in
        (c' : ClientContext) × (before : History) × (after : History) × (find k r.0 ≡ some c')
        × Extends h before
        × Extends after r.1
        × Polled c c' before after
  unfolding find poll_children
  poll_children-Answered k c [] h found = cc
  poll_children-Answered k c ((j, b) ∷ cs) h found = elim (Bool-cases (j == k)) [
    | inl here ↦
        let same : b ≡ c = ground (arith, here, found) in
        let r = poll_child env args main b b.child_peer h in
        (
          r.0,
          h,
          r.1,
          rw here refl,
          ([], refl),
          poll_children-Extends cs r.1,
          rw (← same) (poll_child-Polled b b.child_peer h refl),
        )
    | inr elsewhere ↦
        let r = poll_child env args main b b.child_peer h in
        let (c', before, after, stays, e, f, polled) =
          poll_children-Answered k c cs r.1 (ground (arith, elsewhere, found)) in
        (
          c',
          before,
          after,
          rw elsewhere stays,
          Extends-trans h r.1 before
              (Polled-Extends b r.0 h r.1 (poll_child-Polled b b.child_peer h refl)) e,
          f,
          polled,
        )
  ]

-- ===== src/Proxy/Rounds.antt =====
-- The main loop, from the first round to the end of main, uses only instances that exist.
use raknet_proxy.Base.{
  ℕ, zero, suc, ◌≡◌, refl, ◌∙◌, Bool, true, [], ◌∷◌, Option, none, some, inl, inr, Bool-cases,
  if_elim, arith,
}
use raknet_proxy.Client.{Peer, ClientContext, connected}
use raknet_proxy.Args.{ProgramArgs}
use raknet_proxy.Net.{Env, History, Packet, receive, destroy_client, send_slice}
use raknet_proxy.Net.Live.{live, IsSafe, IsFresh}
use raknet_proxy.Proxy.{Clients, Proxy}
use raknet_proxy.Proxy.Poll.{
  ChildKind, accepted, gone, passed, pass_to_client, on_child_kind, on_child_answer, poll_child,
  poll_children, on_answer, poll_main, sweep_timeouts, poll_all_children, rest_if_idle, round, run,
}
use raknet_proxy.Proxy.Invariant.{NotIn, OwnedAs, Owned, Inv}
use raknet_proxy.Proxy.Steady.{
  Steady, Steady-Inv, Steady-cons, EntryStep, unchanged, dropped, EntryStep-Owned, EntryStep-frame,
}
use raknet_proxy.Proxy.Safety.{Inv-log, sweep_clients-Inv, update_client_state-IsQuiet}
use raknet_proxy.Proxy.Dispatch.{handle_packet-Inv}

-- What one child's turn does to its instance and to the safety of the history.
record Turn (o : Option Peer) (h : History) (o' : Option Peer) (h' : History) : Type 0 where
  step : EntryStep o h o' h'
  safe : IsSafe h'

module _ (env : Env) (args : ProgramArgs) (main : Peer) where
  pass_to_client-Turn :
      (c : ClientContext) (p : Peer) (packet : Packet) (h : History)
      → c.child_peer ≡ some p
      → live p h ≡ true
      → live main h ≡ true
      → IsSafe h
      → Turn
          (some p)
          h
          (pass_to_client env args main c p packet h).0.child_peer
          (pass_to_client env args main c p packet h).1
  unfolding pass_to_client send_slice
  pass_to_client-Turn c p packet h e l m s = record {
    step = unchanged e (λ q. refl);
    safe = (l, (m, s));
  }

  on_child_kind-Turn :
      (kind : ChildKind) (c : ClientContext) (p : Peer) (packet : Packet) (h : History)
      → c.child_peer ≡ some p
      → live p h ≡ true
      → live main h ≡ true
      → IsSafe h
      → Turn
          (some p)
          h
          (on_child_kind env args main kind c p packet h).0.child_peer
          (on_child_kind env args main kind c p packet h).1
  unfolding on_child_kind send_slice destroy_client
  on_child_kind-Turn accepted c p packet h e l m s =
      let q = update_client_state-IsQuiet env connected in
      let c' = record c { target_address = packet.system_address } in
      record {
        step = unchanged (q.keeps_child c' h ∙ e) (q.same_lives c' h);
        safe = (q.same_lives c' h p ∙ l, (q.same_lives c' h main ∙ m, q.keeps_safe c' h s));
      }
  on_child_kind-Turn gone c p packet h e l m s = record {
    step = dropped refl (λ q d. ground arith);
    safe = (l, (l, (l, s)));
  }
  on_child_kind-Turn passed c p packet h e l m s = pass_to_client-Turn c p packet h e l m s

  on_child_answer-Turn :
      (c : ClientContext) (p : Peer) (o : Option Packet) (h : History)
      → c.child_peer ≡ some p
      → live p h ≡ true
      → live main h ≡ true
      → IsSafe h
      → Turn
          (some p)
          h
          (on_child_answer env args main c p o h).0.child_peer
          (on_child_answer env args main c p o h).1
  unfolding on_child_answer
  on_child_answer-Turn c p none h e l m s = record { step = unchanged e (λ q. refl); safe = s }
  on_child_answer-Turn c p (some packet) h e l m s = on_child_kind-Turn _ c p packet h e l m s

  poll_child-Turn :
      (c : ClientContext) (o : Option Peer) (h : History) (cs : Clients)
      → c.child_peer ≡ o
      → OwnedAs h o cs
      → live main h ≡ true
      → IsSafe h
      → Turn o h (poll_child env args main c o h).0.child_peer (poll_child env args main c o h).1
  unfolding poll_child
  poll_child-Turn c none h cs e w m s = record { step = unchanged e (λ q. refl); safe = s }
  poll_child-Turn c (some p) h cs e w m s =
      let t =
        on_child_answer-Turn c p (env.receive_answer (receive p ∷ h) p) (receive p ∷ h) e w.0 m
          (w.0, s) in
      record { step = received t.step; safe = t.safe }
    where
      received :
          {o' : Option Peer} {h' : History}
          → EntryStep (some p) (receive p ∷ h) o' h'
          → EntryStep (some p) h o' h'
      received (unchanged e' f) = unchanged e' f
      received (dropped e' f) = dropped e' f

  poll_children-Steady :
      (cs : Clients) (h : History)
      → NotIn main cs
      → Owned h cs
      → live main h ≡ true
      → IsSafe h
      → Steady cs h (poll_children env args main cs h).0 (poll_children env args main cs h).1
  unfolding poll_children
  poll_children-Steady [] h n w m s = record {
    frame = λ p _. refl;
    outside = λ p _. tt;
    owned = tt;
    safe = s;
  }
  poll_children-Steady ((k, c) ∷ cs) h n w m s =
      let t = poll_child-Turn c c.child_peer h cs refl w.0 m s in
      let m' = EntryStep-frame t.step main n.0 ∙ m in
      Steady-cons k c _ cs _ h _ _ t.step w.0
        (poll_children-Steady cs _ n.1 (EntryStep-Owned cs t.step w.0 w.1) m' t.safe)

module _ (env : Env) (fresh : IsFresh env) (args : ProgramArgs) (main : Peer) (Q : Peer → Type 0)
    (qm : Q main) where
  on_answer-Inv : (o : Option Packet) (s : Proxy) → Inv Q s → Inv Q (on_answer env args main o s).0
  unfolding on_answer
  on_answer-Inv none s i = i
  on_answer-Inv (some packet) s i =
      let i' = handle_packet-Inv env fresh args main Q qm packet s i in
      Inv-log Q _ _ (λ p. refl) ((i'.lives main qm), i'.safe) i'

  poll_main-Inv : (s : Proxy) → Inv Q s → Inv Q (poll_main env args main s).0
  unfolding poll_main
  poll_main-Inv s i = on_answer-Inv _ _ (Inv-log Q s _ (λ p. refl) ((i.lives main qm), i.safe) i)

  sweep_timeouts-Inv : (s : Proxy) → Inv Q s → Inv Q (sweep_timeouts env args main s)
  unfolding sweep_timeouts
  sweep_timeouts-Inv s i = sweep_clients-Inv Q _ _ (Inv-log Q s _ (λ p. refl) (tt, i.safe) i)

  poll_all_children-Inv : (s : Proxy) → Inv Q s → Inv Q (poll_all_children env args main s).0
  unfolding poll_all_children
  poll_all_children-Inv s i = Steady-Inv Q s _ _ i (
      poll_children-Steady env args main s.clients s.history (i.apart main qm) i.owned
        (i.lives main qm) i.safe)

  rest_if_idle-Inv :
      (had_data : Bool) (s : Proxy) → Inv Q s → Inv Q (rest_if_idle env args main had_data s)
  unfolding rest_if_idle
  rest_if_idle-Inv had_data s i =
      if_elim (Inv Q) had_data (λ _. i) (λ _. Inv-log Q s _ (λ p. refl) (tt, i.safe) i)

  -- One round of the main loop keeps the invariant, whatever the network and the clock answer:
  -- it calls no instance that does not exist, and afterwards each client's child peer exists,
  -- belongs to one client only, and is not the main peer.
  pub round-Inv : (s : Proxy) → Inv Q s → Inv Q (round env args main s)
  unfolding round
  round-Inv s i =
      rest_if_idle-Inv _ _ (poll_all_children-Inv _ (poll_main-Inv _ (sweep_timeouts-Inv s i)))

  pub run-Inv : (fuel : ℕ) (s t : Proxy) → run env args main fuel s ≡ some t → Inv Q s → Inv Q t
  unfolding run
  run-Inv zero s t e i = cc
  run-Inv (suc fuel) s t e i = elim (Bool-cases (env.interrupted s.history)) [
    | inl stop ↦ let same : s ≡ t = ground arith in rw (← same) i
    | inr go ↦ run-Inv fuel (round env args main s) t (ground arith) (round-Inv s i)
  ]

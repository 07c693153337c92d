-- ===== src/Proxy/Departures.antt =====
-- Which clients go, and that their child peers go with them: raknet_proxy.cpp, the cases
-- ID_DISCONNECTION_NOTIFICATION and ID_CONNECTION_LOST of main.
use mathlib.Core.Path.{subst}
use raknet_proxy.Base.{
  ℕ, ◌≡◌, refl, sym, ◌∙◌, Bool, true, false, not, ◌&&◌, ◌||◌, inl, inr, [], ◌∷◌, some, Bool-cases,
  str_eq, if_elim, ◌==◌, if◌then◌else◌, arith,
}
use raknet_proxy.Client.{Peer, Address, ClientContext}
use raknet_proxy.Args.{ProgramArgs}
use raknet_proxy.Net.{Env, History, Packet, destroy_client}
use raknet_proxy.Net.Live.{live, IsSafe, destroy_client-IsSafe}
use raknet_proxy.Table.{find}
use raknet_proxy.Table.Laws.{IsSorted}
use raknet_proxy.Proxy.{Clients, Proxy, sweep, sweep_clients}
use raknet_proxy.Proxy.Events.{reconnect_coordinator, reconnect_nat, on_disconnection, on_lost}
use raknet_proxy.Proxy.Invariant.{Inv, Owned}
use raknet_proxy.Proxy.Steady.{
  EntryStep-destroy_client, EntryStep-Owned, Exists-owned, sweep-Steady,
}
use raknet_proxy.Proxy.States.{TableKeeps, find-sweep}
use raknet_proxy.Proxy.Closing.{IsGone, IsGone-destroy_client, IsGone-stays}

-- Exactly the clients that pass the test have left the table, and their child peers are gone.
pub record Departed (test : ClientContext → Bool) (s t : Proxy) : Type 0 where
  pub table : TableKeeps test s t
  pub gone :
      (k : ℕ) (c : ClientContext)
      → find k s.clients ≡ some c
      → test c ≡ true
      → IsGone t.history c.child_peer

sweep-IsGone :
    (test : ClientContext → Bool) (k : ℕ) (c : ClientContext) (cs : Clients) (h : History)
    → Owned h cs
    → IsSafe h
    → find k cs ≡ some c
    → test c ≡ true
    → IsGone (sweep test cs h).1 c.child_peer
unfolding sweep find
sweep-IsGone test k c [] h w safe e hit = cc
sweep-IsGone test k c ((j, b) ∷ cs) h w safe e hit =
    let owned : Owned after cs =
      if_elim (λ x. Owned x cs) (test b)
        (λ _. EntryStep-Owned cs (EntryStep-destroy_client b.child_peer h) w.0 w.1) (λ _. w.1) in
    let still : IsSafe after =
      if_elim IsSafe (test b)
        (λ _. destroy_client-IsSafe b.child_peer h (Exists-owned h b.child_peer cs w.0) safe)
        (λ _. safe) in
    elim (Bool-cases (j == k)) [
      | inl here ↦
          let same : b ≡ c = ground (arith, e) in
          let first : test b ≡ true = subst (λ x. test x ≡ true) (sym same) hit in
          subst (λ x. IsGone (sweep test cs after).1 x.child_peer) same
            (IsGone-destroy_client b.child_peer h (sweep test cs after).1 cs w.0
              λ p n. (sweep-Steady test cs after owned still).frame p n ∙ rw first refl)
      | inr there ↦ sweep-IsGone test k c cs after owned still (ground (arith, e)) hit
    ]
  where
    after : History
    after = if test b then destroy_client b.child_peer h else h

sweep_clients-Departed :
    (test : ClientContext → Bool) (Q : Peer → Type 0) (s : Proxy)
    → Inv Q s
    → IsSorted s.clients
    → Departed test s (sweep_clients test s)
unfolding sweep_clients
sweep_clients-Departed test Q s i a = record {
  table = λ k. find-sweep test k s.clients s.history a;
  gone = λ k c e hit. sweep-IsGone test k c s.clients s.history i.owned i.safe e hit;
}

-- Calls that create nothing do not undo it.
Departed-log :
    (test : ClientContext → Bool) (s t t' : Proxy)
    → t'.clients ≡ t.clients
    → ((p : Peer) → live p t.history ≡ false → live p t'.history ≡ false)
    → Departed test s t
    → Departed test s t'
Departed-log test s t t' same stays d = record {
  table = λ k. rw same (d.table k);
  gone = λ k c e hit. IsGone-stays t.history t'.history c.child_peer stays (d.gone k c e hit);
}

module _ (env : Env) (args : ProgramArgs) (main : Peer) where
  reconnect-Departed :
      (test : ClientContext → Bool) (sender : Address) (s t : Proxy)
      → Departed test s t
      → Departed test s
          (reconnect_nat env args main sender (reconnect_coordinator env args main sender t))
  unfolding reconnect_nat reconnect_coordinator
  reconnect-Departed test sender s t d =
      let known =
        not (t.coordinator_address == env.unassigned) && sender == t.coordinator_address in
      let d' =
        if_elim (Departed test s) known (λ _. Departed-log test s t _ refl (λ p e. e) d) (λ _. d) in
      if_elim (Departed test s) (str_eq (env.host_text sender) args.nat_server_ip)
        (λ _. Departed-log test s _ _ refl (λ p e. e) d') (λ _. d')

  -- From a state with the invariant and rising keys: after ID_DISCONNECTION_NOTIFICATION exactly
  -- the clients with the sender's address have left the table, and their child peers do not exist
  -- any more; all other clients are as before.
  pub on_disconnection-Departed :
      (Q : Peer → Type 0) (packet : Packet) (s : Proxy)
      → Inv Q s
      → IsSorted s.clients
      → Departed
          (λ c. c.client_address == packet.system_address)
          s
          (on_disconnection env args main packet s)
  unfolding on_disconnection
  on_disconnection-Departed Q packet s i a =
      reconnect-Departed _ packet.system_address s _ (sweep_clients-Departed _ Q s i a)

  -- From a state with the invariant and rising keys: after ID_CONNECTION_LOST exactly the clients
  -- whose own address or whose target's address is the sender's have left the table, and their
  -- child peers do not exist any more; all other clients are as before.
  pub on_lost-Departed :
      (Q : Peer → Type 0) (packet : Packet) (s : Proxy)
      → Inv Q s
      → IsSorted s.clients
      → Departed
          (λ c.
            c.client_address == packet.system_address || c.target_address == packet.system_address)
          s
          (on_lost env args main packet s)
  unfolding on_lost
  on_lost-Departed Q packet s i a =
      reconnect-Departed _ packet.system_address s _ (sweep_clients-Departed _ Q s i a)

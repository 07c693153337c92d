-- ===== src/Proxy/States.antt =====
-- The client table over the rounds of the main loop, and what the sweeps remove from it.
use mathlib.Core.Path.{subst}
use raknet_proxy.Wire.{get_uin}
use raknet_proxy.Base.{
  ℕ, suc, ◌<◌, ◌≡◌, refl, sym, ap, ◌∙◌, Bool, ◌&&◌, [], ◌∷◌, Option, none, some, ltb, if◌then◌else◌,
  if_elim, Bool-cases, inl, inr, arith,
}
use raknet_proxy.Client.{Peer, ClientContext, connected, host_connecting, check_timeout, same_state}
use raknet_proxy.Args.{ProgramArgs}
use raknet_proxy.Net.{Env, History, Packet, time, destroy_client}
use raknet_proxy.Table.{find}
use raknet_proxy.Table.Laws.{Above, IsSorted, Above-IsSorted}
use raknet_proxy.Proxy.{Clients, Proxy, sweep, sweep_clients}
use raknet_proxy.Proxy.Poll.{
  ChildKind, accepted, gone, passed, on_child_kind, on_child_answer, poll_child, poll_children,
  on_answer, poll_main, sweep_timeouts, poll_all_children, rest_if_idle, round,
}
use raknet_proxy.Proxy.Changes.{
  IsReached, IsGood, AllGood, IsWellFormed, AllGood-find, sweep_clients-IsWellFormed,
}
use raknet_proxy.Proxy.WellFormed.{IsGood-child, updated, same_state-eq}
use raknet_proxy.Proxy.Tables.{same_table, count_received-IsGood, handle_packet-IsWellFormed}

module _ (env : Env) (args : ProgramArgs) (main : Peer) where
  on_child_kind-IsGood :
      (k : ℕ) (kind : ChildKind) (c : ClientContext) (p : Peer) (packet : Packet) (h : History)
      → IsGood k c
      → IsGood k (on_child_kind env args main kind c p packet h).0
  unfolding on_child_kind
  on_child_kind-IsGood k accepted c p packet h g =
      let u = updated k env (record c { target_address = packet.system_address }) connected h in
      record {
        keyed = u.0 ∙ g.keyed;
        of_guid = ap get_uin u.1 ∙ g.of_guid;
        reached = subst IsReached (sym u.2) tt;
        deadline = λ e. let x : connected ≡ host_connecting = sym u.2 ∙ e in cc;
      }
  on_child_kind-IsGood k gone c p packet h g = IsGood-child k c none g
  on_child_kind-IsGood k passed c p packet h g = count_received-IsGood k packet.length c g

  on_child_answer-IsGood :
      (k : ℕ) (c : ClientContext) (p : Peer) (o : Option Packet) (h : History)
      → IsGood k c
      → IsGood k (on_child_answer env args main c p o h).0
  unfolding on_child_answer
  on_child_answer-IsGood k c p none h g = g
  on_child_answer-IsGood k c p (some packet) h g = on_child_kind-IsGood k _ c p packet h g

  poll_child-IsGood :
      (k : ℕ) (c : ClientContext) (o : Option Peer) (h : History)
      → IsGood k c
      → IsGood k (poll_child env args main c o h).0
  unfolding poll_child
  poll_child-IsGood k c none h g = g
  poll_child-IsGood k c (some p) h g = on_child_answer-IsGood k c p _ _ g

  poll_children-AllGood :
      (cs : Clients) (h : History) → AllGood cs → AllGood (poll_children env args main cs h).0
  unfolding poll_children
  poll_children-AllGood [] h g = tt
  poll_children-AllGood ((k, c) ∷ cs) h g =
      (poll_child-IsGood k c c.child_peer h g.0, poll_children-AllGood cs _ g.1)

  Above-poll_children :
      (n : ℕ) (cs : Clients) (h : History)
      → Above n cs
      → Above n (poll_children env args main cs h).0
  unfolding poll_children
  Above-poll_children n [] h a = tt
  Above-poll_children n ((k, c) ∷ cs) h a = (a.0, Above-poll_children k cs _ a.1)

  poll_children-IsSorted :
      (cs : Clients) (h : History) → IsSorted cs → IsSorted (poll_children env args main cs h).0
  unfolding poll_children
  poll_children-IsSorted [] h a = tt
  poll_children-IsSorted ((k, c) ∷ cs) h a = Above-poll_children k cs _ a

  on_answer-IsWellFormed :
      (o : Option Packet) (s : Proxy)
      → IsWellFormed s
      → IsWellFormed (on_answer env args main o s).0
  unfolding on_answer
  on_answer-IsWellFormed none s w = w
  on_answer-IsWellFormed (some packet) s w =
      same_table _ _ refl (handle_packet-IsWellFormed env args main packet s w)

  poll_main-IsWellFormed : (s : Proxy) → IsWellFormed s → IsWellFormed (poll_main env args main s).0
  unfolding poll_main
  poll_main-IsWellFormed s w = on_answer-IsWellFormed _ _ (same_table s _ refl w)

  sweep_timeouts-IsWellFormed :
      (s : Proxy) → IsWellFormed s → IsWellFormed (sweep_timeouts env args main s)
  unfolding sweep_timeouts
  sweep_timeouts-IsWellFormed s w = sweep_clients-IsWellFormed _ _ (same_table s _ refl w)

  poll_all_children-IsWellFormed :
      (s : Proxy) → IsWellFormed s → IsWellFormed (poll_all_children env args main s).0
  unfolding poll_all_children
  poll_all_children-IsWellFormed s w = record {
    sorted = poll_children-IsSorted s.clients s.history w.sorted;
    good = poll_children-AllGood s.clients s.history w.good;
  }

  rest_if_idle-IsWellFormed :
      (b : Bool) (s : Proxy) → IsWellFormed s → IsWellFormed (rest_if_idle env args main b s)
  unfolding rest_if_idle
  rest_if_idle-IsWellFormed b s w = if_elim IsWellFormed b (λ _. w) (λ _. same_table s _ refl w)

  -- One round keeps the table well-formed: the keys rise, each client stands under its own UIN,
  -- which is that of its GUID, its state is one of PUNCH_CONNECTED, HOST_CONNECTING,
  -- PROXY_CONNECTING and CONNECTED, and in HOST_CONNECTING it has a deadline.
  pub round-IsWellFormed : (s : Proxy) → IsWellFormed s → IsWellFormed (round env args main s)
  unfolding round
  round-IsWellFormed s w = rest_if_idle-IsWellFormed _ _ (
      poll_all_children-IsWellFormed _ (poll_main-IsWellFormed _ (sweep_timeouts-IsWellFormed s w)))

-- What a sweep leaves of a lookup.
abbrev pub spared : (ClientContext → Bool) → Option ClientContext → Option ClientContext
spared test none = none
spared test (some c) = if test c then none else some c

pub find-Above : (k n : ℕ) (cs : Clients) → Above n cs → k < suc n → find k cs ≡ none
unfolding find
find-Above k n [] a lt = refl
find-Above k n ((j, c) ∷ cs) a lt = ground (arith, find-Above k j cs)

-- In a table with rising keys a sweep removes exactly the clients that pass its test, and leaves
-- every other client as it is, under its UIN.
pub find-sweep :
    (test : ClientContext → Bool) (k : ℕ) (cs : Clients) (h : History)
    → IsSorted cs
    → find k (sweep test cs h).0 ≡ spared test (find k cs)
unfolding find sweep
find-sweep test k [] h a = refl
find-sweep test k ((j, c) ∷ cs) h a =
    let h' = if test c then destroy_client c.child_peer h else h in
    ground (arith, find-sweep test k cs h' (Above-IsSorted j cs a), find-Above k j cs a)

-- In a good entry the deadline alone decides.
check_timeout-IsGood :
    (k now : ℕ) (c : ClientContext)
    → IsGood k c
    → check_timeout c now ≡ (same_state c.state host_connecting && ltb c.host_connect_timeout now)
unfolding check_timeout
check_timeout-IsGood k now c g = elim (Bool-cases (same_state c.state host_connecting)) [
  | inl waits ↦
      let pos : 0 < c.host_connect_timeout =
        g.deadline (same_state-eq c.state host_connecting waits) in
      rw waits (ground arith)
  | inr idle ↦ rw idle
]

abbrev pub TableKeeps : (ClientContext → Bool) → Proxy → Proxy → Type 0
TableKeeps test s t = (k : ℕ) → find k t.clients ≡ spared test (find k s.clients)

-- A well-formed table loses at the head of a round exactly the clients in HOST_CONNECTING whose
-- deadline lies before the time that the round read; the guard `hostConnectTimeout > 0` never
-- saves one. All other clients stay as they are.
pub find-sweep_timeouts :
    (env : Env) (args : ProgramArgs) (main : Peer) (s : Proxy)
    → IsWellFormed s
    → TableKeeps
        (λ c.
          same_state c.state host_connecting && ltb c.host_connect_timeout (env.clock s.history))
        s
        (sweep_timeouts env args main s)
unfolding sweep_timeouts sweep_clients
find-sweep_timeouts env args main s w k =
    find-sweep _ k s.clients (time (env.clock s.history) ∷ s.history) w.sorted
    ∙ guarded (find k s.clients) refl
  where
    guarded :
        (o : Option ClientContext)
        → find k s.clients ≡ o
        → spared (λ c. check_timeout c (env.clock s.history)) o
          ≡ spared
              (λ c.
                same_state c.state host_connecting
                && ltb c.host_connect_timeout (env.clock s.history))
              o
    guarded none e = refl
    guarded (some c) e =
        rw (check_timeout-IsGood k (env.clock s.history) c (AllGood-find k s.clients c e w.good))

-- ===== src/Proxy/WellFormed.antt =====
-- Every round keeps the client table well-formed.
use mathlib.Core.Path.{subst}
use raknet_proxy.Base.{
  ℕ, ◌≡◌, ◌≢◌, refl, sym, ap, ◌∙◌, Bool, true, false, ◌∷◌, Option, none, some, if_elim, arith,
}
use raknet_proxy.Wire.{get_uin}
use raknet_proxy.Client.{Peer, Address, ConnectionState, host_connecting, ClientContext, same_state}
use raknet_proxy.Args.{ProgramArgs}
use raknet_proxy.Net.{Env, History, created}
use raknet_proxy.Table.{find}
use raknet_proxy.Table.Laws.{insert-IsSorted, adjust-IsSorted}
use raknet_proxy.Child.{update_client_state, connect_child, start_child, create_child_peer}
use raknet_proxy.Proxy.{Proxy, store_client, assign_child}
use raknet_proxy.Proxy.Register.{start_host_connect, update_found}
use raknet_proxy.Proxy.Changes.{
  IsReached, IsGood, IsWellFormed, AllGood-find, AllGood-insert, AllGood-adjust,
}

pub same_state-eq : (a b : ConnectionState) → same_state a b ≡ true → a ≡ b
same_state-eq a b e = ground arith

module _ (k : ℕ) where
  pub IsGood-child :
      (c : ClientContext) (o : Option Peer) → IsGood k c → IsGood k (record c { child_peer = o })
  IsGood-child c o g = record {
    keyed = g.keyed;
    of_guid = g.of_guid;
    reached = g.reached;
    deadline = g.deadline;
  }

  create_child_peer-IsGood :
      (env : Env) (args : ProgramArgs) (c : ClientContext) (guid : ℕ) (h : History)
      → IsGood k c
      → IsGood k (create_child_peer env args c guid h).1
  unfolding create_child_peer start_child connect_child
  create_child_peer-IsGood env args c guid h g = started (env.instance_given h)
    where
      started : (o : Option Peer) → IsGood k (start_child env args c guid o (created o ∷ h)).1
      started none = IsGood-child c none g
      started (some p) =
          if_elim (λ (r : Bool × ClientContext × History). IsGood k r.1) (env.startup_succeeds _)
            (λ _.
              if_elim (λ (r : Bool × ClientContext × History). IsGood k r.1)
                (env.connect_succeeds _) (λ _. IsGood-child c (some p) g)
                (λ _. IsGood-child c none g))
            (λ _. IsGood-child c none g)

  -- A state that can be reached and is not HOST_CONNECTING may be taken on at any time.
  pub update_client_state-IsGood :
      (env : Env) (c : ClientContext) (new_state : ConnectionState) (h : History)
      → IsReached new_state
      → new_state ≢ host_connecting
      → IsGood k c
      → IsGood k (update_client_state env c new_state h).0
  unfolding update_client_state
  update_client_state-IsGood env c new_state h r ne g =
      if_elim (λ (r : ClientContext × History). IsGood k r.0) (same_state c.state new_state)
        (λ _. g)
        (λ _. record {
          keyed = g.keyed;
          of_guid = g.of_guid;
          reached = r;
          deadline = λ e. absurd (ne e);
        })

  pub IsGood-target :
      (c : ClientContext) (a : Address) → IsGood k c → IsGood k (record c { target_address = a })
  IsGood-target c a g = record {
    keyed = g.keyed;
    of_guid = g.of_guid;
    reached = g.reached;
    deadline = g.deadline;
  }

  -- Behind UpdateClientState the client has the new state, and is the same client.
  pub updated :
      (env : Env) (c : ClientContext) (n : ConnectionState) (h : History)
      → let r = (update_client_state env c n h).0 in
        (r.uin ≡ c.uin) × (r.client_guid ≡ c.client_guid) × (r.state ≡ n)
  unfolding update_client_state
  updated env c n h =
      if_elim
        (λ (r : ClientContext × History).
          (r.0.uin ≡ c.uin) × (r.0.client_guid ≡ c.client_guid) × (r.0.state ≡ n))
        (same_state c.state n) (λ e. (refl, refl, same_state-eq c.state n e))
        (λ _. (refl, refl, refl))

  pub start_host_connect-IsGood :
      (env : Env) (sender : Address) (c : ClientContext) (h : History)
      → IsGood k c
      → IsGood k (start_host_connect env sender c h).0
  unfolding start_host_connect
  start_host_connect-IsGood env sender c h g =
      let u = updated env (record c { target_address = sender }) host_connecting h in
      record {
        keyed = u.0 ∙ g.keyed;
        of_guid = ap get_uin u.1 ∙ g.of_guid;
        reached = subst IsReached (sym u.2) tt;
        deadline = λ _. omega arith;
      }

pub update_found-IsWellFormed :
    (env : Env) (k : ℕ) (f : ClientContext → History → ClientContext × History) (s : Proxy)
    (o : Option ClientContext)
    → ((c : ClientContext) (h : History) → IsGood k c → IsGood k (f c h).0)
    → find k s.clients ≡ o
    → IsWellFormed s
    → IsWellFormed (update_found env k f s o)
unfolding update_found
update_found-IsWellFormed env k f s none keep e w = w
update_found-IsWellFormed env k f s (some c) keep e w = record {
  sorted = adjust-IsSorted k _ s.clients w.sorted;
  good =
      AllGood-adjust k _ s.clients (λ _ _. keep c s.history (AllGood-find k s.clients c e w.good))
        w.good;
}

pub assign_child-IsWellFormed :
    (env : Env) (args : ProgramArgs) (uin : ℕ) (ctx : ClientContext) (guid : ℕ) (h : History)
    (s : Proxy)
    → IsGood uin ctx
    → IsWellFormed s
    → IsWellFormed (assign_child env args uin ctx guid h s)
unfolding assign_child store_client
assign_child-IsWellFormed env args uin ctx guid h s g w =
    stored (create_child_peer env args ctx guid h)
      (create_child_peer-IsGood uin env args ctx guid h g)
  where
    stored :
        (r : Bool × ClientContext × History) → IsGood uin r.1 → IsWellFormed (store_client uin r s)
    stored (true, c, h') g' = record {
      sorted = insert-IsSorted uin c s.clients w.sorted;
      good = AllGood-insert uin c s.clients g' w.good;
    }
    stored (false, c, h') g' = record { sorted = w.sorted; good = w.good }

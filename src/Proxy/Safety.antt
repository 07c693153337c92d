-- ===== src/Proxy/Safety.antt =====
-- The handlers of the main peer's packets use only instances that exist, and keep the ownership
-- of the child peers.
use mathlib.Core.Path.{subst}
use raknet_proxy.Base.{
  ℕ, ◌≡◌, ◌∙◌, Bool, true, false, [], ◌∷◌, Option, none, some, inl, ◌==◌, if_elim, Bool-cases, inr,
  arith,
}
use raknet_proxy.Client.{Peer, Address, ClientContext, ConnectionState, same_state}
use raknet_proxy.Args.{ProgramArgs}
use raknet_proxy.Net.{Env, History}
use raknet_proxy.Net.Live.{live, IsSafe, IsFresh}
use raknet_proxy.Table.{find, adjust}
use raknet_proxy.Child.{update_client_state, create_child_peer}
use raknet_proxy.Child.Lifetime.{Outcome, create_child_peer-Outcome}
use raknet_proxy.Proxy.{Clients, Proxy, sweep_clients, store_client, assign_child}
use raknet_proxy.Proxy.Register.{update_found}
use raknet_proxy.Proxy.Invariant.{Owned, OwnedAs, Inv, Owned-Keeps, NotIn-of_not_live}
use raknet_proxy.Proxy.Writes.{NotIn-insert, Owned-insert, NotIn-adjust, Owned-adjust, KeepsChild}
use raknet_proxy.Proxy.Steady.{Steady-Inv, sweep-Steady}

-- Calls that create and destroy nothing.
pub Inv-log :
    (Q : Peer → Type 0) (s : Proxy) (h : History)
    → ((p : Peer) → live p h ≡ live p s.history)
    → IsSafe h
    → Inv Q s
    → Inv Q (record s { history = h })
Inv-log Q s h same safe i = record {
  lives = λ p q. same p ∙ i.lives p q;
  safe = safe;
  apart = i.apart;
  owned = Owned-Keeps s.history h s.clients (λ p l. same p ∙ l) i.owned;
}

pub sweep_clients-Inv :
    (Q : Peer → Type 0) (test : ClientContext → Bool) (s : Proxy)
    → Inv Q s
    → Inv Q (sweep_clients test s)
unfolding sweep_clients
sweep_clients-Inv Q test s i =
    Steady-Inv Q s _ _ i (sweep-Steady test s.clients s.history i.owned i.safe)

store_client-Inv :
    (Q : Peer → Type 0) (uin : ℕ) (r : Bool × ClientContext × History) (s : Proxy)
    → Inv Q s
    → Outcome s.history r
    → Inv Q (store_client uin r s)
unfolding store_client
store_client-Inv Q uin (true, ctx, h) s i (p, e, new, lives, keeps, safe) = record {
  lives = λ q z. keeps q (i.lives q z);
  safe = safe;
  apart = λ q z.
      NotIn-insert q uin ctx s.clients (rw e (λ same. ground (arith, i.lives q z))) (i.apart q z);
  owned =
      Owned-insert h uin ctx s.clients p e lives
        (NotIn-of_not_live p s.history s.clients new i.owned)
        (Owned-Keeps s.history h s.clients keeps i.owned);
}
store_client-Inv Q uin (false, ctx, h) s i (e, same, safe) = Inv-log Q s h same safe i

-- A new client is stored with an instance of its own, or not at all.
pub assign_child-Inv :
    (env : Env)
    → IsFresh env
    → (args : ProgramArgs) (Q : Peer → Type 0) (uin : ℕ) (ctx : ClientContext) (guid : ℕ)
      (h : History) (s : Proxy)
    → Inv Q (record s { history = h })
    → Inv Q (assign_child env args uin ctx guid h s)
unfolding assign_child store_client
assign_child-Inv env fresh args Q uin ctx guid h s i =
    store_client-Inv Q uin (create_child_peer env args ctx guid h) (record s { history = h }) i
      (create_child_peer-Outcome env args fresh ctx guid h i.safe)

-- What the updates of a client that is found have in common.
pub record IsQuiet (f : ClientContext → History → ClientContext × History) : Type 0 where
  pub keeps_child : (c : ClientContext) (h : History) → (f c h).0.child_peer ≡ c.child_peer
  pub same_lives : (c : ClientContext) (h : History) (p : Peer) → live p (f c h).1 ≡ live p h
  pub keeps_safe : (c : ClientContext) (h : History) → IsSafe h → IsSafe (f c h).1

found_same :
    (x : Option ClientContext) (c b : ClientContext)
    → x ≡ some c
    → x ≡ some b
    → c.child_peer ≡ b.child_peer
found_same x c b e f = ground arith

pub update_found-Inv :
    (env : Env) (Q : Peer → Type 0) (k : ℕ) (f : ClientContext → History → ClientContext × History)
    (s : Proxy) (o : Option ClientContext)
    → IsQuiet f
    → find k s.clients ≡ o
    → Inv Q s
    → Inv Q (update_found env k f s o)
unfolding update_found
update_found-Inv env Q k f s none q e i = i
update_found-Inv env Q k f s (some c) q e i =
    Inv-log Q (record s { clients = adjust k (λ _. (f c s.history).0) s.clients }) (f c s.history).1
      (q.same_lives c s.history) (q.keeps_safe c s.history i.safe)
      (record {
        lives = i.lives;
        safe = i.safe;
        apart = λ p z. NotIn-adjust p k _ s.clients same (i.apart p z);
        owned = Owned-adjust s.history k _ s.clients same i.owned;
      })
  where
    same :
        (b : ClientContext)
        → find k s.clients ≡ some b
        → KeepsChild b.child_peer (f c s.history).0.child_peer
    same b eb = inl (q.keeps_child c s.history ∙ found_same (find k s.clients) c b e eb)

pub update_client_state-IsQuiet :
    (env : Env) (new_state : ConnectionState)
    → IsQuiet (λ c h. update_client_state env c new_state h)
unfolding update_client_state
update_client_state-IsQuiet env new_state = record {
  keeps_child = λ c h. ground arith;
  same_lives = λ c h p. ground arith;
  keeps_safe = λ c h s.
      if_elim (λ (r : ClientContext × History). IsSafe r.1) (same_state c.state new_state) (λ _. s)
        (λ _. (tt, s));
}

-- The client that a lookup finds has an instance that exists.
pub live-find :
    (h : History) (k : ℕ) (cs : Clients) (c : ClientContext) (p : Peer)
    → find k cs ≡ some c
    → c.child_peer ≡ some p
    → Owned h cs
    → live p h ≡ true
unfolding find
live-find h k [] c p e f w = cc
live-find h k ((j, b) ∷ cs) c p e f w = elim (Bool-cases (j == k)) [
  | inl hit ↦
      let same : b.child_peer ≡ some p = ground arith in (subst (λ o. OwnedAs h o cs) same w.0).0
  | inr miss ↦ live-find h k cs c p (ground arith) f w.1
]

-- Counting leaves every instance where it is.
pub Inv-adjust :
    (Q : Peer → Type 0) (k : ℕ) (f : ClientContext → ClientContext) (s : Proxy)
    → ((c : ClientContext) → (f c).child_peer ≡ c.child_peer)
    → Inv Q s
    → Inv Q (record s { clients = adjust k f s.clients })
Inv-adjust Q k f s same i = record {
  lives = i.lives;
  safe = i.safe;
  apart = λ p z. NotIn-adjust p k f s.clients (λ c _. inl (same c)) (i.apart p z);
  owned = Owned-adjust s.history k f s.clients (λ c _. inl (same c)) i.owned;
}

pub Inv-coordinator :
    (Q : Peer → Type 0) (a : Address) (s : Proxy)
    → Inv Q s
    → Inv Q (record s { coordinator_address = a })
Inv-coordinator Q a s i = record {
  lives = i.lives;
  safe = i.safe;
  apart = i.apart;
  owned = i.owned;
}

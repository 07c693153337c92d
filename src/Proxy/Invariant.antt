-- ===== src/Proxy/Invariant.antt =====
-- Which child peers the table holds: each exists, no two clients share one, and none is an
-- instance outside the table, such as the main peer.
use raknet_proxy.Base.{◌≡◌, ◌≢◌, true, false, [], ◌∷◌, Option, none, some, arith}
use raknet_proxy.Client.{Peer}
use raknet_proxy.Net.{History}
use raknet_proxy.Net.Live.{live, IsSafe, Keeps}
use raknet_proxy.Proxy.{Clients, Proxy}

abbrev pub Differs : Peer → Option Peer → Type 0
Differs p none = Unit {0}
Differs p (some q) = p ≢ q

abbrev pub NotIn : Peer → Clients → Type 0
NotIn p [] = Unit {0}
NotIn p ((k, c) ∷ cs) = Differs p c.child_peer × NotIn p cs

abbrev pub OwnedAs : History → Option Peer → Clients → Type 0
OwnedAs h none cs = Unit {0}
OwnedAs h (some p) cs = (live p h ≡ true) × NotIn p cs

abbrev pub Owned : History → Clients → Type 0
Owned h [] = Unit {0}
Owned h ((k, c) ∷ cs) = OwnedAs h c.child_peer cs × Owned h cs

-- `Q` names the instances that exist outside the table, the main peer among them.
pub record Inv (Q : Peer → Type 0) (s : Proxy) : Type 0 where
  pub lives : (p : Peer) → Q p → live p s.history ≡ true
  pub safe : IsSafe s.history
  pub apart : (p : Peer) → Q p → NotIn p s.clients
  pub owned : Owned s.history s.clients

pub OwnedAs-Keeps :
    (h h' : History) (o : Option Peer) (cs : Clients)
    → Keeps h h'
    → OwnedAs h o cs
    → OwnedAs h' o cs
OwnedAs-Keeps h h' none cs k w = tt
OwnedAs-Keeps h h' (some p) cs k w = (k p w.0, w.1)

pub Owned-Keeps : (h h' : History) (cs : Clients) → Keeps h h' → Owned h cs → Owned h' cs
Owned-Keeps h h' [] k w = tt
Owned-Keeps h h' ((j, c) ∷ cs) k w =
    (OwnedAs-Keeps h h' c.child_peer cs k w.0, Owned-Keeps h h' cs k w.1)

-- An instance that does not exist is in no client.
Differs-of_not_live :
    (p : Peer) (h : History) (o : Option Peer) (cs : Clients)
    → live p h ≡ false
    → OwnedAs h o cs
    → Differs p o
Differs-of_not_live p h none cs e w = tt
Differs-of_not_live p h (some q) cs e w = λ same. ground (arith, w.0)

pub NotIn-of_not_live :
    (p : Peer) (h : History) (cs : Clients) → live p h ≡ false → Owned h cs → NotIn p cs
NotIn-of_not_live p h [] e w = tt
NotIn-of_not_live p h ((j, c) ∷ cs) e w =
    (Differs-of_not_live p h c.child_peer cs e w.0, NotIn-of_not_live p h cs e w.1)

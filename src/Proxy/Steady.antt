-- ===== src/Proxy/Steady.antt =====
-- Parts of the program that create no instance: the loops over the table.
use raknet_proxy.Base.{
  ℕ, ◌≡◌, refl, sym, ◌∙◌, ◌≢◌, Bool, [], ◌∷◌, Option, none, some, Bool-cases, inl, inr, arith,
}
use raknet_proxy.Client.{Peer, ClientContext}
use raknet_proxy.Net.{History, destroy_client}
use raknet_proxy.Net.Live.{live, Exists, IsSafe, destroy_client-IsSafe, live-destroy_client_ne}
use raknet_proxy.Table.{find_first, erase_first}
use raknet_proxy.Proxy.{Clients, Proxy, sweep}
use raknet_proxy.Proxy.Invariant.{Differs, NotIn, OwnedAs, Owned, Inv, Owned-Keeps}
use raknet_proxy.Proxy.Writes.{NotIn-erase_first, Owned-erase_first, NotIn-found, Differs-found}

-- Such a part leaves the instances outside the table alone, and does not put them into it.
pub record Steady (cs : Clients) (h : History) (cs' : Clients) (h' : History) : Type 0 where
  pub frame : (p : Peer) → NotIn p cs → live p h' ≡ live p h
  pub outside : (p : Peer) → NotIn p cs → NotIn p cs'
  pub owned : Owned h' cs'
  pub safe : IsSafe h'

pub Steady-Inv :
    (Q : Peer → Type 0) (s : Proxy) (cs : Clients) (h : History)
    → Inv Q s
    → Steady s.clients s.history cs h
    → Inv Q (record s { clients = cs; history = h })
Steady-Inv Q s cs h i t = record {
  lives = λ p q. t.frame p (i.apart p q) ∙ i.lives p q;
  safe = t.safe;
  apart = λ p q. t.outside p (i.apart p q);
  owned = t.owned;
}

-- What happens to one client's instance: it stays, or it is given up. All others stay.
pub data EntryStep (o : Option Peer) (h : History) (o' : Option Peer) (h' : History) : Type 0 where
  unchanged : o' ≡ o → ((p : Peer) → live p h' ≡ live p h) → EntryStep o h o' h'
  dropped : o' ≡ none → ((p : Peer) → Differs p o → live p h' ≡ live p h) → EntryStep o h o' h'

pub EntryStep-destroy_client :
    (o : Option Peer) (h : History) → EntryStep o h none (destroy_client o h)
unfolding destroy_client
EntryStep-destroy_client none h = unchanged refl (λ p. refl)
EntryStep-destroy_client (some q) h = dropped refl (λ p d. ground (arith))

module _ {o : Option Peer} {h : History} {o' : Option Peer} {h' : History} where
  pub EntryStep-frame : EntryStep o h o' h' → (p : Peer) → Differs p o → live p h' ≡ live p h
  EntryStep-frame (unchanged e f) p d = f p
  EntryStep-frame (dropped e f) p d = f p d

  EntryStep-outside : EntryStep o h o' h' → (p : Peer) → Differs p o → Differs p o'
  EntryStep-outside (unchanged e f) p d = rw e d
  EntryStep-outside (dropped e f) p d = rw e tt

-- The other clients keep their instances.
module _ (p : Peer) (h h' : History) (same : (q : Peer) → q ≢ p → live q h' ≡ live q h) where
  OwnedAs-apart : (o : Option Peer) (cs : Clients) → Differs p o → OwnedAs h o cs → OwnedAs h' o cs
  OwnedAs-apart none cs d w = tt
  OwnedAs-apart (some q) cs d w = (same q (λ e. d (sym e)) ∙ w.0, w.1)

  Owned-apart : (cs : Clients) → NotIn p cs → Owned h cs → Owned h' cs
  Owned-apart [] n w = tt
  Owned-apart ((j, c) ∷ cs) n w = (OwnedAs-apart c.child_peer cs n.0 w.0, Owned-apart cs n.1 w.1)

pub EntryStep-Owned :
    {o : Option Peer} {h : History} {o' : Option Peer} {h' : History} (cs : Clients)
    → EntryStep o h o' h'
    → OwnedAs h o cs
    → Owned h cs
    → Owned h' cs
EntryStep-Owned {h} {h' = h'} cs (unchanged e f) v w = Owned-Keeps h h' cs (λ p l. f p ∙ l) w
EntryStep-Owned {o = none} {h} {h' = h'} cs (dropped e f) v w =
    Owned-Keeps h h' cs (λ p l. f p tt ∙ l) w
EntryStep-Owned {o = some q} {h} {h' = h'} cs (dropped e f) v w =
    Owned-apart q h h' (λ p ne. f p ne) cs v.1 w

-- The loop went on over the rest of the table; the entry stays with what the step left.
pub Steady-cons :
    (k : ℕ) (c c' : ClientContext) (cs cs' : Clients) (h h1 h' : History)
    → EntryStep c.child_peer h c'.child_peer h1
    → OwnedAs h c.child_peer cs
    → Steady cs h1 cs' h'
    → Steady ((k, c) ∷ cs) h ((k, c') ∷ cs') h'
Steady-cons k c c' cs cs' h h1 h' e w t = record {
  frame = λ p n. t.frame p n.1 ∙ EntryStep-frame e p n.0;
  outside = λ p n. (EntryStep-outside e p n.0, t.outside p n.1);
  owned = (kept e, t.owned);
  safe = t.safe;
}
  where
    carried :
        (o : Option Peer) → ((p : Peer) → live p h1 ≡ live p h) → OwnedAs h o cs → OwnedAs h' o cs'
    carried none f v = tt
    carried (some q) f v = (t.frame q v.1 ∙ f q ∙ v.0, t.outside q v.1)

    kept : EntryStep c.child_peer h c'.child_peer h1 → OwnedAs h' c'.child_peer cs'
    kept (unchanged same f) = rw same (carried c.child_peer f w)
    kept (dropped gone f) = rw gone tt

-- The same where the entry was erased.
pub Steady-drop :
    (k : ℕ) (c : ClientContext) (o' : Option Peer) (cs cs' : Clients) (h h1 h' : History)
    → EntryStep c.child_peer h o' h1
    → Steady cs h1 cs' h'
    → Steady ((k, c) ∷ cs) h cs' h'
Steady-drop k c o' cs cs' h h1 h' e t = record {
  frame = λ p n. t.frame p n.1 ∙ EntryStep-frame e p n.0;
  outside = λ p n. t.outside p n.1;
  owned = t.owned;
  safe = t.safe;
}

pub Exists-owned : (h : History) (o : Option Peer) (cs : Clients) → OwnedAs h o cs → Exists o h
Exists-owned h none cs w = tt
Exists-owned h (some p) cs w = w.0

-- The sweeping loops give up exactly the instances of the clients that they erase.
pub sweep-Steady :
    (test : ClientContext → Bool) (cs : Clients) (h : History)
    → Owned h cs
    → IsSafe h
    → Steady cs h (sweep test cs h).0 (sweep test cs h).1
unfolding sweep
sweep-Steady test [] h w s = record {
  frame = λ p n. refl;
  outside = λ p n. tt;
  owned = tt;
  safe = s;
}
sweep-Steady test ((k, c) ∷ cs) h w s = elim (Bool-cases (test c)) [
  | inl hit ↦
      let e = EntryStep-destroy_client c.child_peer h in
      let s' = destroy_client-IsSafe c.child_peer h (Exists-owned h c.child_peer cs w.0) s in
      rw hit (
        Steady-drop k c none cs _ h _ _ e
          (sweep-Steady test cs (destroy_client c.child_peer h) (EntryStep-Owned cs e w.0 w.1) s'))
  | inr miss ↦
      rw miss (
        Steady-cons k c c cs _ h h _ (unchanged refl (λ p. refl)) w.0
          (sweep-Steady test cs h w.1 s))
]

-- The first client that passes a test is given up and erased.
pub erase_first-Steady :
    (test : ClientContext → Bool) (cs : Clients) (h : History) (k : ℕ) (c : ClientContext)
    → find_first test cs ≡ some (k, c)
    → Owned h cs
    → IsSafe h
    → Steady cs h (erase_first test cs) (destroy_client c.child_peer h)
erase_first-Steady test cs h k c e w s = record {
  frame = λ p n.
      EntryStep-frame (EntryStep-destroy_client c.child_peer h) p (Differs-found p test cs k c e n);
  outside = λ p n. NotIn-erase_first p test cs n;
  owned = (given_up c.child_peer refl).0;
  safe = destroy_client-IsSafe c.child_peer h (given_up c.child_peer refl).1 s;
}
  where
    given_up :
        (o : Option Peer)
        → c.child_peer ≡ o
        → Owned (destroy_client o h) (erase_first test cs) × Exists o h
    given_up none f = (unfold destroy_client in Owned-erase_first h test cs w, tt)
    given_up (some q) f =
        let found = NotIn-found h test cs k c q e f w in
        (
          Owned-apart q h (destroy_client (some q) h)
              (λ p ne. live-destroy_client_ne p q h (λ e'. ne (sym e'))) (erase_first test cs)
              found.1 (Owned-erase_first h test cs w),
          found.0,
        )

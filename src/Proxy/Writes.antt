-- ===== src/Proxy/Writes.antt =====
-- Writes to the table keep the ownership of the child peers.
use mathlib.Core.Path.{subst}
use raknet_proxy.Base.{
  ℕ, ◌≡◌, refl, sym, ◌≢◌, Bool, true, [], ◌∷◌, Option, none, some, inl, inr, ◌⊎◌, ltb, ◌==◌,
  if_elim, Bool-cases, arith,
}
use raknet_proxy.Client.{Peer, ClientContext}
use raknet_proxy.Net.{History}
use raknet_proxy.Net.Live.{live}
use raknet_proxy.Table.{find, insert, adjust, find_first, erase_first}
use raknet_proxy.Proxy.{Clients}
use raknet_proxy.Proxy.Invariant.{Differs, NotIn, OwnedAs, Owned}

pub NotIn-insert :
    (p : Peer) (k : ℕ) (c : ClientContext) (cs : Clients)
    → Differs p c.child_peer
    → NotIn p cs
    → NotIn p (insert k c cs)
unfolding insert
NotIn-insert p k c [] d n = (d, tt)
NotIn-insert p k c ((j, b) ∷ cs) d n = ground (arith, NotIn-insert p k c cs d n.1)

ne_of_Differs : (p : Peer) (o : Option Peer) → Differs p o → (q : Peer) → o ≡ some q → p ≢ q
ne_of_Differs p none d q e = cc
ne_of_Differs p (some r) d q e = λ same. d (ground (arith))

OwnedAs-insert :
    (h : History) (o : Option Peer) (k : ℕ) (c : ClientContext) (cs : Clients) (p : Peer)
    → c.child_peer ≡ some p
    → ((q : Peer) → o ≡ some q → p ≢ q)
    → OwnedAs h o cs
    → OwnedAs h o (insert k c cs)
OwnedAs-insert h none k c cs p e d w = tt
OwnedAs-insert h (some q) k c cs p e d w =
    (w.0, NotIn-insert q k c cs (rw e (λ same. d q refl (sym same))) w.1)

-- A client with an instance that nobody has is stored under a key, in place of another or not.
pub Owned-insert :
    (h : History) (k : ℕ) (c : ClientContext) (cs : Clients) (p : Peer)
    → c.child_peer ≡ some p
    → live p h ≡ true
    → NotIn p cs
    → Owned h cs
    → Owned h (insert k c cs)
unfolding insert
Owned-insert h k c [] p e l n w = (rw e (l, tt), tt)
Owned-insert h k c ((j, b) ∷ cs) p e l n w =
    if_elim (Owned h) (j == k) {x = (k, c) ∷ cs} (λ _. (rw e (l, n.1), w.1))
      λ _.
        if_elim (Owned h) (ltb k j) {x = (k, c) ∷ (j, b) ∷ cs} (λ _. (rw e (l, n), w))
          λ _. (
            OwnedAs-insert h b.child_peer k c cs p e (ne_of_Differs p b.child_peer n.0) w.0,
            Owned-insert h k c cs p e l n.1 w.1,
          )

-- A client that is found is written back with its own instance, or with none.
abbrev pub KeepsChild : Option Peer → Option Peer → Type 0
KeepsChild o o' = (o' ≡ o) ⊎ (o' ≡ none)

Differs-kept : (p : Peer) (o o' : Option Peer) → KeepsChild o o' → Differs p o → Differs p o'
Differs-kept p o none k d = tt
Differs-kept p none (some q) k d = ground arith
Differs-kept p (some r) (some q) k d = ground arith

pub NotIn-adjust :
    (p : Peer) (k : ℕ) (f : ClientContext → ClientContext) (cs : Clients)
    → ((c : ClientContext) → find k cs ≡ some c → KeepsChild c.child_peer (f c).child_peer)
    → NotIn p cs
    → NotIn p (adjust k f cs)
unfolding adjust find
NotIn-adjust p k f [] same n = tt
NotIn-adjust p k f ((j, b) ∷ cs) same n = elim (Bool-cases (j == k)) [
  | inl hit ↦ rw hit (Differs-kept p b.child_peer _ (same b (rw hit)) n.0, n.1)
  | inr miss ↦ rw miss (n.0, NotIn-adjust p k f cs (λ c e. same c (rw miss e)) n.1)
]

OwnedAs-kept :
    (h : History) (o o' : Option Peer) (cs : Clients)
    → KeepsChild o o'
    → OwnedAs h o cs
    → OwnedAs h o' cs
OwnedAs-kept h o o' cs (inl e) w = rw e w
OwnedAs-kept h o o' cs (inr e) w = rw e tt

OwnedAs-adjust :
    (h : History) (o : Option Peer) (k : ℕ) (f : ClientContext → ClientContext) (cs : Clients)
    → ((c : ClientContext) → find k cs ≡ some c → KeepsChild c.child_peer (f c).child_peer)
    → OwnedAs h o cs
    → OwnedAs h o (adjust k f cs)
OwnedAs-adjust h none k f cs same w = tt
OwnedAs-adjust h (some q) k f cs same w = (w.0, NotIn-adjust q k f cs same w.1)

pub Owned-adjust :
    (h : History) (k : ℕ) (f : ClientContext → ClientContext) (cs : Clients)
    → ((c : ClientContext) → find k cs ≡ some c → KeepsChild c.child_peer (f c).child_peer)
    → Owned h cs
    → Owned h (adjust k f cs)
unfolding adjust find
Owned-adjust h k f [] same w = tt
Owned-adjust h k f ((j, b) ∷ cs) same w = elim (Bool-cases (j == k)) [
  | inl hit ↦ rw hit (OwnedAs-kept h b.child_peer _ cs (same b (rw hit)) w.0, w.1)
  | inr miss ↦
      let same' = λ (c : ClientContext) (e : find k cs ≡ some c). same c (rw miss e) in
      rw miss (OwnedAs-adjust h b.child_peer k f cs same' w.0, Owned-adjust h k f cs same' w.1)
]

-- Removing the first client that passes a test.

pub NotIn-erase_first :
    (p : Peer) (test : ClientContext → Bool) (cs : Clients)
    → NotIn p cs
    → NotIn p (erase_first test cs)
unfolding erase_first
NotIn-erase_first p test [] n = tt
NotIn-erase_first p test ((j, b) ∷ cs) n =
    if_elim (NotIn p) (test b) (λ _. n.1) (λ _. (n.0, NotIn-erase_first p test cs n.1))

pub Owned-erase_first :
    (h : History) (test : ClientContext → Bool) (cs : Clients)
    → Owned h cs
    → Owned h (erase_first test cs)
unfolding erase_first
Owned-erase_first h test [] w = tt
Owned-erase_first h test ((j, b) ∷ cs) w =
    if_elim (Owned h) (test b) (λ _. w.1)
      (λ _. (shrink b.child_peer w.0, Owned-erase_first h test cs w.1))
  where
    shrink : (o : Option Peer) → OwnedAs h o cs → OwnedAs h o (erase_first test cs)
    shrink none v = tt
    shrink (some q) v = (v.0, NotIn-erase_first q test cs v.1)

pub Differs-found :
    (q : Peer) (test : ClientContext → Bool) (cs : Clients) (k : ℕ) (c : ClientContext)
    → find_first test cs ≡ some (k, c)
    → NotIn q cs
    → Differs q c.child_peer
unfolding find_first
Differs-found q test [] k c e n = cc
Differs-found q test ((j, b) ∷ cs) k c e n = elim (Bool-cases (test b)) [
  | inl hit ↦ let same : b ≡ c = ground arith in rw (← same) n.0
  | inr miss ↦ Differs-found q test cs k c (ground arith) n.1
]

pub Differs-owned :
    (h : History) (p : Peer) (o : Option Peer) (cs : Clients)
    → OwnedAs h o cs
    → ((q : Peer) → NotIn q cs → q ≢ p)
    → Differs p o
Differs-owned h p none cs w d = tt
Differs-owned h p (some q) cs w d = λ same. d q w.1 (sym same)

-- The instance of the first client that passes the test exists, and is in no other client.
pub NotIn-found :
    (h : History) (test : ClientContext → Bool) (cs : Clients) (k : ℕ) (c : ClientContext)
    (p : Peer)
    → find_first test cs ≡ some (k, c)
    → c.child_peer ≡ some p
    → Owned h cs
    → (live p h ≡ true) × NotIn p (erase_first test cs)
unfolding find_first erase_first
NotIn-found h test [] k c p e f w = cc
NotIn-found h test ((j, b) ∷ cs) k c p e f w = elim (Bool-cases (test b)) [
  | inl hit ↦
      let same : b.child_peer ≡ some p = ground arith in
      let v = subst (λ o. OwnedAs h o cs) same w.0 in (v.0, rw hit v.1)
  | inr miss ↦
      let e' : find_first test cs ≡ some (k, c) = ground arith in
      let rest = NotIn-found h test cs k c p e' f w.1 in
      let apart =
        Differs-owned h p b.child_peer cs w.0
          λ q n. subst (Differs q) f (Differs-found q test cs k c e' n) in
      (rest.0, rw miss (apart, rest.1))
]

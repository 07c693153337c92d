-- ===== src/Proxy/Changes.antt =====
-- What every entry of the client table satisfies, and the writes that keep it.
use mathlib.Core.Path.{subst}
use raknet_proxy.Base.{
  ℕ, ◌<◌, ◌≡◌, sym, Bool, [], ◌∷◌, some, ◌==◌, ltb, if_elim, Bool-cases, inl, inr, arith,
}
use raknet_proxy.Wire.{get_uin}
use raknet_proxy.Client.{
  ConnectionState, punch_connected, host_connecting, proxy_connecting, connected, ClientContext,
}
use raknet_proxy.Net.{History}
use raknet_proxy.Table.{find, insert, adjust, erase_first}
use raknet_proxy.Table.Laws.{Above, IsSorted, Above-mono, Above-IsSorted}
use raknet_proxy.Proxy.{Clients, Proxy, sweep, sweep_clients}

-- The states that a client of the table can have.
abbrev pub IsReached : ConnectionState → Type 0
IsReached punch_connected = Unit {0}
IsReached host_connecting = Unit {0}
IsReached proxy_connecting = Unit {0}
IsReached connected = Unit {0}
IsReached _ = ⊥

pub record IsGood (k : ℕ) (c : ClientContext) : Type 0 where
  -- The key is the client's UIN, and the UIN is that of its GUID.
  pub keyed : c.uin ≡ k
  pub of_guid : get_uin c.client_guid ≡ k
  pub reached : IsReached c.state
  -- A client that waits for its host has a deadline.
  pub deadline : c.state ≡ host_connecting → 0 < c.host_connect_timeout

abbrev pub AllGood : Clients → Type 0
AllGood [] = Unit {0}
AllGood ((k, c) ∷ cs) = IsGood k c × AllGood cs

pub record IsWellFormed (s : Proxy) : Type 0 where
  pub sorted : IsSorted s.clients
  pub good : AllGood s.clients

pub AllGood-find :
    (k : ℕ) (cs : Clients) (c : ClientContext) → find k cs ≡ some c → AllGood cs → IsGood k c
unfolding find
AllGood-find k [] c e g = cc
AllGood-find k ((j, b) ∷ cs) c e g = elim (Bool-cases (j == k)) [
  | inl hit ↦
      let same : b ≡ c = ground arith in let key : j ≡ k = ground arith in rw (← same, ← key) g.0
  | inr miss ↦ AllGood-find k cs c (ground arith) g.1
]

pub AllGood-insert :
    (k : ℕ) (c : ClientContext) (cs : Clients) → IsGood k c → AllGood cs → AllGood (insert k c cs)
unfolding insert
AllGood-insert k c [] h g = (h, tt)
AllGood-insert k c ((j, b) ∷ cs) h g =
    if_elim AllGood (j == k) (λ _. (h, g.1))
      λ _. if_elim AllGood (ltb k j) (λ _. (h, g)) (λ _. (g.0, AllGood-insert k c cs h g.1))

pub AllGood-adjust :
    (k : ℕ) (f : ClientContext → ClientContext) (cs : Clients)
    → ((c : ClientContext) → IsGood k c → IsGood k (f c))
    → AllGood cs
    → AllGood (adjust k f cs)
unfolding adjust
AllGood-adjust k f [] keep g = tt
AllGood-adjust k f ((j, b) ∷ cs) keep g = elim (Bool-cases (j == k)) [
  | inl hit ↦
      let key : j ≡ k = ground arith in
      rw hit (subst (λ n. IsGood n b → IsGood n (f b)) (sym key) (keep b) g.0, g.1)
  | inr miss ↦ rw miss (g.0, AllGood-adjust k f cs keep g.1)
]

pub AllGood-erase_first :
    (test : ClientContext → Bool) (cs : Clients) → AllGood cs → AllGood (erase_first test cs)
unfolding erase_first
AllGood-erase_first test [] g = tt
AllGood-erase_first test ((j, b) ∷ cs) g =
    if_elim AllGood (test b) (λ _. g.1) (λ _. (g.0, AllGood-erase_first test cs g.1))

pub AllGood-sweep :
    (test : ClientContext → Bool) (cs : Clients) (h : History)
    → AllGood cs
    → AllGood (sweep test cs h).0
unfolding sweep
AllGood-sweep test [] h g = tt
AllGood-sweep test ((j, b) ∷ cs) h g =
    if_elim AllGood (test b) (λ _. AllGood-sweep test cs _ g.1)
      (λ _. (g.0, AllGood-sweep test cs _ g.1))

pub Above-sweep :
    (n : ℕ) (test : ClientContext → Bool) (cs : Clients) (h : History)
    → Above n cs
    → Above n (sweep test cs h).0
unfolding sweep
Above-sweep n test [] h a = tt
Above-sweep n test ((j, b) ∷ cs) h a =
    if_elim (Above n) (test b) (λ _. Above-mono {a = n} {b = j} _ a.0 (Above-sweep j test cs _ a.1))
      (λ _. (a.0, Above-sweep j test cs _ a.1))

sweep-IsSorted :
    (test : ClientContext → Bool) (cs : Clients) (h : History)
    → IsSorted cs
    → IsSorted (sweep test cs h).0
unfolding sweep
sweep-IsSorted test [] h a = tt
sweep-IsSorted test ((j, b) ∷ cs) h a =
    if_elim IsSorted (test b) (λ _. Above-IsSorted j _ (Above-sweep j test cs _ a))
      (λ _. Above-sweep j test cs _ a)

pub sweep_clients-IsWellFormed :
    (test : ClientContext → Bool) (s : Proxy) → IsWellFormed s → IsWellFormed (sweep_clients test s)
unfolding sweep_clients
sweep_clients-IsWellFormed test s w = record {
  sorted = sweep-IsSorted test s.clients s.history w.sorted;
  good = AllGood-sweep test s.clients s.history w.good;
}

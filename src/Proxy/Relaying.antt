-- ===== src/Proxy/Relaying.antt =====
-- Where a data packet goes: raknet_proxy.cpp, the `default` branch of main.
use mathlib.Core.Path.{subst}
use mathlib.Core.Option
use raknet_proxy.Base.{
  ℕ, ◌-◌, ◌≤◌, ◌≡◌, refl, sym, ◌≢◌, ◌⊎◌, inl, inr, Bool, true, false, ◌||◌, [], ◌∷◌, none, some,
  Bool-cases, Option-cases, if_elim, option_elim, ◌==◌, if◌then◌else◌, arith,
}
use raknet_proxy.Wire.{uin_of_frame, slice}
use raknet_proxy.Client.{Peer, Address, ClientContext, count_sent, count_received}
use raknet_proxy.Args.{ProgramArgs}
use raknet_proxy.Net.{Env, Packet, send, send_slice}
use raknet_proxy.Table.{find, find_first}
use raknet_proxy.Table.Laws.{IsSorted, Above-IsSorted, find-adjust}
use raknet_proxy.Child.{target_of}
use raknet_proxy.Proxy.{Clients, Proxy}
use raknet_proxy.Proxy.Forward.{
  send_through, return_to_client, pass_to_target, context_by_uin, context_of, forward_as, forward,
}
use raknet_proxy.Proxy.Leaks.{find-Above_lt}

find_first-some :
    (test : ClientContext → Bool) (k : ℕ) (c : ClientContext) (cs : Clients)
    → IsSorted cs
    → find_first test cs ≡ some (k, c)
    → (find k cs ≡ some c) × (test c ≡ true)
unfolding find_first find
find_first-some test k c [] a e = cc
find_first-some test k c ((j, b) ∷ cs) a e = elim (Bool-cases (test b)) [
  | inl hit ↦ ground (arith, hit)
  | inr miss ↦
      let rest = find_first-some test k c cs (Above-IsSorted j cs a) (ground arith) in
      let lt = find-Above_lt j k cs c a rest.0 in (ground (arith, rest.0), rest.1)
]

find_first-none :
    (test : ClientContext → Bool) (k : ℕ) (c : ClientContext) (cs : Clients)
    → find_first test cs ≡ none
    → find k cs ≡ some c
    → test c ≡ false
unfolding find_first find
find_first-none test k c [] e f = cc
find_first-none test k c ((j, b) ∷ cs) e f = elim (Bool-cases (test b)) [
  | inl hit ↦ ground (arith, hit)
  | inr miss ↦ elim (Bool-cases (j == k)) [
    | inl here ↦ let same : b ≡ c = ground arith in subst (λ x. test x ≡ false) same miss
    | inr there ↦ find_first-none test k c cs (ground arith) (ground arith)
  ]
]

module _ (env : Env) (args : ProgramArgs) (main : Peer) (packet : Packet) where
  -- The packet names the client by its UIN, or comes from the client or from its target.
  abbrev pub Belongs : ℕ → ClientContext → Type 0
  Belongs k c =
      ((5 ≤ packet.length) × (k ≡ uin_of_frame packet.bytes))
      ⊎ ((c.client_address ≡ packet.system_address) ⊎ (c.target_address ≡ packet.system_address))

  -- The whole packet was sent once, and nothing else; the client under k has counted it, and no
  -- other client has changed.
  pub record Passed (k : ℕ) (sender : Peer) (receiver : Address)
      (count : ClientContext → ClientContext) (s t : Proxy) : Type 0 where
    pub sent : t.history ≡ send sender (slice packet.bytes 0 packet.length) receiver ∷ s.history
    pub counted :
        (j : ℕ)
        → find j t.clients
          ≡ (if k == j then Option.map count (find j s.clients) else find j s.clients)
    pub same_coordinator : t.coordinator_address ≡ s.coordinator_address

  -- What becomes of the packet of the client c.
  pub data Fate (k : ℕ) (c : ClientContext) (s t : Proxy) : Type 0 where
    returned :
        c.target_address ≡ packet.system_address
        → Passed k main c.client_address (count_received packet.length) s t
        → Fate k c s t
    passed_on :
        c.target_address ≢ packet.system_address
        → (p : Peer) → c.child_peer ≡ some p
        → target_of env args c ≢ env.unassigned
        → Passed k p (target_of env args c) (count_sent packet.length) s t
        → Fate k c s t
    dropped :
        c.target_address ≢ packet.system_address
        → (c.child_peer ≡ none) ⊎ (target_of env args c ≡ env.unassigned)
        → t ≡ s
        → Fate k c s t

  context_by_uin-some :
      (k : ℕ) (c : ClientContext) (cs : Clients)
      → context_by_uin env args packet cs ≡ some (k, c)
      → (5 ≤ packet.length) × (k ≡ uin_of_frame packet.bytes) × (find k cs ≡ some c)
  unfolding context_by_uin
  context_by_uin-some k c cs e = elim (Option-cases (find (uin_of_frame packet.bytes) cs)) [
    | inl missing ↦ ground (arith, missing)
    | inr (b, found) ↦
        let key : uin_of_frame packet.bytes ≡ k = ground (arith, found) in
        let same : b ≡ c = ground (arith, found) in
        (ground (arith, found), sym key, rw (← key) (rw (← same) found))
  ]

  context_by_uin-none :
      (cs : Clients)
      → context_by_uin env args packet cs ≡ none
      → 5 ≤ packet.length
      → find (uin_of_frame packet.bytes) cs ≡ none
  unfolding context_by_uin
  context_by_uin-none cs e long = ground arith

  abbrev is_near : ClientContext → Bool
  is_near c = c.client_address == packet.system_address || c.target_address == packet.system_address

  context_of-some :
      (k : ℕ) (c : ClientContext) (cs : Clients)
      → IsSorted cs
      → context_of env args packet cs ≡ some (k, c)
      → (find k cs ≡ some c) × Belongs k c
  unfolding context_of
  context_of-some k c cs a e = elim (Option-cases (context_by_uin env args packet cs)) [
    | inl missing ↦
        let by_address = find_first-some is_near k c cs a (ground (arith, missing)) in
        (by_address.0, inr (ground (arith, by_address.1)))
    | inr ((j, b), found) ↦
        let named = context_by_uin-some k c cs (ground (arith, found)) in
        (named.2, inl (named.0, named.1))
  ]

  context_of-none :
      (k : ℕ) (c : ClientContext) (cs : Clients)
      → context_of env args packet cs ≡ none
      → find k cs ≡ some c
      → Belongs k c
      → ⊥
  unfolding context_of
  context_of-none k c cs e f b = elim (Option-cases (context_by_uin env args packet cs)) [
    | inl missing ↦ elim b [
      | inl (long, key) ↦ ground (arith, context_by_uin-none cs missing long)
      | inr near ↦
          let far = find_first-none is_near k c cs (ground (arith, missing)) f in
          ground (arith, near)
    ]
    | inr (x, found) ↦ ground (arith, found)
  ]

  return_to_client-Passed :
      (k : ℕ) (c : ClientContext) (s : Proxy)
      → Passed k main c.client_address
          (count_received packet.length)
          s
          (return_to_client env args main k c packet s)
  unfolding return_to_client send_slice
  return_to_client-Passed k c s = record {
    sent = refl;
    counted = λ j. find-adjust k j _ s.clients;
    same_coordinator = refl;
  }

  send_through-Passed :
      (k : ℕ) (c : ClientContext) (p : Peer) (target : Address) (s : Proxy)
      → Passed k p target
          (count_sent packet.length)
          s
          (send_through env args k c p packet 0 target s)
  unfolding send_through send_slice
  send_through-Passed k c p target s =
      let whole : packet.length - 0 ≡ packet.length = omega arith in
      record {
        sent = rw whole refl;
        counted = λ j. rw whole (find-adjust k j _ s.clients);
        same_coordinator = refl;
      }

  pass_to_target-Fate :
      (k : ℕ) (c : ClientContext) (s : Proxy)
      → c.target_address ≢ packet.system_address
      → Fate k c s (pass_to_target env args k c packet s)
  unfolding pass_to_target
  pass_to_target-Fate k c s ne =
      option_elim (Fate k c s) c.child_peer (λ no. dropped ne (inl no) refl)
        λ p e.
          if_elim (Fate k c s) (target_of env args c == env.unassigned)
            (λ same. dropped ne (inr (ground arith)) refl)
            (λ differs.
              passed_on ne p e (λ same. ground arith)
                (send_through-Passed k c p (target_of env args c) s))

  forward_as-Fate :
      (k : ℕ) (c : ClientContext) (s : Proxy)
      → Fate k c s (forward_as env args main packet s (some (k, c)))
  unfolding forward_as
  forward_as-Fate k c s =
      if_elim (Fate k c s) (c.target_address == packet.system_address)
        (λ same. returned (ground arith) (return_to_client-Passed k c s))
        (λ differs. pass_to_target-Fate k c s (λ same. ground arith))

  -- In a table with rising keys, a packet of the `default` branch either belongs to no client, by
  -- its UIN, its sender or the sender as a target, and then nothing happens; or it belongs to a
  -- client of the table, and is either returned whole to the client, which is so exactly if it
  -- comes from the client's target, or passed on whole through its child peer to its target, or
  -- dropped because there is no child peer or no target. A packet that is sent is sent once, that
  -- client alone counts it, and nothing else changes.
  pub forward_lem :
      (s : Proxy)
      → IsSorted s.clients
      → let t = forward env args main packet s in
        ((t ≡ s) × ((k : ℕ) (c : ClientContext) → find k s.clients ≡ some c → Belongs k c → ⊥))
        ⊎ ((k : ℕ) × (c : ClientContext) × (find k s.clients ≡ some c) × Belongs k c × Fate k c s t)
  unfolding forward forward_as
  forward_lem s a = elim (Option-cases (context_of env args packet s.clients)) [
    | inl missing ↦ inl (rw missing refl, λ k c f b. context_of-none k c s.clients missing f b)
    | inr ((k, c), found) ↦
        let r = context_of-some k c s.clients a found in
        inr (k, c, r.0, r.1, rw found (forward_as-Fate k c s))
  ]

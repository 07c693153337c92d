-- ===== src/Proxy/Leaks.antt =====
-- What becomes of a child peer that no client owns any more: raknet_proxy.cpp, the line
-- `clients[uin] = ctx;` of HandleClientRegister, the main loop and the end of main.
use mathlib.Core.Path.{subst}
use raknet_proxy.Base.{
  ℕ, zero, suc, ◌<◌, ◌≡◌, refl, sym, ◌≢◌, ◌⊎◌, inl, inr, Bool, true, false, [], ◌∷◌, some, ◌==◌,
  ltb, Bool-cases, arith,
}
use raknet_proxy.Wire.{client_register_resp, get_uin, read_big_endian_guid}
use raknet_proxy.Client.{Peer, ClientContext}
use raknet_proxy.Args.{ProgramArgs}
use raknet_proxy.Net.{Env, History, Packet, time, send_miniworld_message}
use raknet_proxy.Net.Live.{live, IsFresh}
use raknet_proxy.Table.{find, insert}
use raknet_proxy.Table.Laws.{Above, IsSorted, Above-IsSorted}
use raknet_proxy.Child.{create_child_peer}
use raknet_proxy.Child.Lifetime.{Outcome, create_child_peer-Outcome}
use raknet_proxy.Proxy.{Clients, Proxy, enrolled, store_client, assign_child}
use raknet_proxy.Proxy.Register.{register_client, handle_client_register}
use raknet_proxy.Proxy.Poll.{round, close}
use raknet_proxy.Proxy.Invariant.{Differs, NotIn, OwnedAs, Owned, Inv}
use raknet_proxy.Proxy.Writes.{Differs-owned}
use raknet_proxy.Proxy.States.{find-Above}
use raknet_proxy.Proxy.Safety.{live-find}
use raknet_proxy.Proxy.Rounds.{round-Inv}
use raknet_proxy.Proxy.Handlers.{handle_client_register-Inv}
use raknet_proxy.Proxy.Closing.{rounds, close_lem}

pub rounds-Inv :
    (env : Env) (fresh : IsFresh env) (args : ProgramArgs) (main : Peer) (Q : Peer → Type 0)
    → Q main
    → (n : ℕ) (s : Proxy) → Inv Q s
    → Inv Q (rounds env args main n s)
unfolding rounds
rounds-Inv env fresh args main Q qm zero s i = i
rounds-Inv env fresh args main Q qm (suc n) s i =
    rounds-Inv env fresh args main Q qm n (round env args main s)
      (round-Inv env fresh args main Q qm s i)

-- The main peer, or an instance that no client owns.
abbrev Outside : Peer → Peer → Peer → Type 0
Outside main p q = (q ≡ main) ⊎ (q ≡ p)

adopt :
    (main p : Peer) (s : Proxy)
    → Inv (λ q. q ≡ main) s
    → live p s.history ≡ true
    → NotIn p s.clients
    → Inv (Outside main p) s
adopt main p s i l n = record {
  lives = λ q z. elim z [
    | inl e ↦ i.lives q e
    | inr e ↦ subst (λ r. live r s.history ≡ true) (sym e) l
  ];
  safe = i.safe;
  apart = λ q z. elim z [ inl e ↦ i.apart q e | inr e ↦ subst (λ r. NotIn r s.clients) (sym e) n ];
  owned = i.owned;
}

-- From a state with the invariant, an instance other than the main peer that exists and that no
-- client owns is never destroyed: it still exists when main closes after any number of rounds.
pub live-close-rounds :
    (env : Env) (fresh : IsFresh env) (args : ProgramArgs) (main p : Peer) (s : Proxy)
    → Inv (λ q. q ≡ main) s
    → live p s.history ≡ true
    → NotIn p s.clients
    → p ≢ main
    → (n : ℕ) → live p (close main (rounds env args main n s)).history ≡ true
live-close-rounds env fresh args main p s i l out ne n =
    let j =
      rounds-Inv env fresh args main (Outside main p) (inl refl) n s (adopt main p s i l out) in
    (close_lem (Outside main p) main (rounds env args main n s) (inl refl) j).3 p (inr refl) ne

-- An instance that no client owns differs from that of a client that a lookup finds.
Differs-find :
    (q : Peer) (k : ℕ) (cs : Clients) (c : ClientContext)
    → find k cs ≡ some c
    → NotIn q cs
    → Differs q c.child_peer
unfolding find
Differs-find q k [] c e n = cc
Differs-find q k ((j, b) ∷ cs) c e n = elim (Bool-cases (j == k)) [
  | inl hit ↦ let same : b ≡ c = ground arith in rw (← same) n.0
  | inr miss ↦ Differs-find q k cs c (ground arith) n.1
]

pub find-Above_lt :
    (j k : ℕ) (cs : Clients) (c : ClientContext) → Above j cs → find k cs ≡ some c → j < k
find-Above_lt j k cs c a e = elim (Bool-cases (ltb j k)) [
  | inl lt ↦ ground arith
  | inr ge ↦ let lost = find-Above k j cs a (ground arith) in cc
]

-- A table that overwrites the entry of an instance's only owner does not own the instance.
NotIn-insert_over :
    (h : History) (p : Peer) (k : ℕ) (v c : ClientContext) (cs : Clients)
    → IsSorted cs
    → Owned h cs
    → find k cs ≡ some c
    → c.child_peer ≡ some p
    → Differs p v.child_peer
    → NotIn p (insert k v cs)
unfolding find insert
NotIn-insert_over h p k v c [] a w e f d = cc
NotIn-insert_over h p k v c ((j, b) ∷ cs) a w e f d = elim (Bool-cases (j == k)) [
  | inl hit ↦
      let same : b.child_peer ≡ some p = ground arith in
      let rest : NotIn p cs = (subst (λ o. OwnedAs h o cs) same w.0).1 in rw hit (d, rest)
  | inr miss ↦
      let e' : find k cs ≡ some c = ground arith in
      let lt = find-Above_lt j k cs c a e' in
      let above : ltb k j ≡ false = ground arith in
      let apart =
        Differs-owned h p b.child_peer cs w.0
          λ q n. subst (Differs q) f (Differs-find q k cs c e' n) in
      rw miss (rw above (apart, NotIn-insert_over h p k v c cs (Above-IsSorted j cs a) w.1 e' f d))
]

-- The calls of HandleClientRegister before CreateChildPeer.
abbrev answered : Env → Peer → Packet → Proxy → History
answered env main packet s =
    let h =
      send_miniworld_message env main client_register_resp packet.system_address [] s.history in
    time (env.clock h) ∷ h

-- What CreateChildPeer returns inside HandleClientRegister.
abbrev pub registration : Env → ProgramArgs → Peer → Packet → Proxy → Bool × ClientContext × History
registration env args main packet s =
    let guid = read_big_endian_guid packet.bytes 2 in
    let h =
      send_miniworld_message env main client_register_resp packet.system_address [] s.history in
    create_child_peer env args
      (record (enrolled env guid (get_uin guid) packet.system_address) {
        state_start_time = env.clock h;
      })
      guid (answered env main packet s)

-- Overwriting the entry of a client whose child peer is p leaves p alive and without an owner.
store_over :
    (h h' : History) (p : Peer) (k : ℕ) (c : ClientContext) (s : Proxy)
    → (r : Bool × ClientContext × History) → Outcome h' r
    → live p h' ≡ true
    → IsSorted s.clients
    → Owned h s.clients
    → find k s.clients ≡ some c
    → c.child_peer ≡ some p
    → r.0 ≡ true
    → (live p (store_client k r s).history ≡ true) × NotIn p (store_client k r s).clients
unfolding store_client
store_over h h' p k c s (false, ctx, g) o l a w e f ok = cc
store_over h h' p k c s (true, ctx, g) (q, eq, new, lives, keeps, safe) l a w e f ok = (
  keeps p l,
  NotIn-insert_over h p k ctx c s.clients a w e f (rw eq (λ same. ground (arith, l, new))),
)

module _ (env : Env) (fresh : IsFresh env) (args : ProgramArgs) (main : Peer) where
  registered_over :
      (p : Peer) (c : ClientContext) (packet : Packet) (s : Proxy)
      → Inv (λ q. q ≡ main) s
      → IsSorted s.clients
      → ltb packet.length 10 ≡ false
      → find (get_uin (read_big_endian_guid packet.bytes 2)) s.clients ≡ some c
      → c.child_peer ≡ some p
      → (registration env args main packet s).0 ≡ true
      → let s' = handle_client_register env main args packet s in
        (live p s'.history ≡ true) × NotIn p s'.clients
  unfolding handle_client_register register_client assign_child send_miniworld_message
  registered_over p c packet s i a long e f ok =
      let l = live-find s.history _ s.clients c p e f i.owned in
      let o = create_child_peer-Outcome env args fresh _ _ _ (tt, (i.lives main refl, i.safe)) in
      rw long (
        store_over s.history (answered env main packet s) p _ c s
          (registration env args main packet s) o l a i.owned e f ok)

  -- From a state with the invariant and rising keys, a client that registers again, with the UIN
  -- of an entry whose child peer is p, is given a new child peer if CreateChildPeer succeeds. The
  -- old one is lost: no client owns it after the handler, and it exists still when main closes
  -- after any number of rounds.
  pub live-handle_client_register :
      (p : Peer) (c : ClientContext) (packet : Packet) (s : Proxy)
      → Inv (λ q. q ≡ main) s
      → IsSorted s.clients
      → ltb packet.length 10 ≡ false
      → find (get_uin (read_big_endian_guid packet.bytes 2)) s.clients ≡ some c
      → c.child_peer ≡ some p
      → (registration env args main packet s).0 ≡ true
      → let s' = handle_client_register env main args packet s in
        NotIn p s'.clients
        × ((n : ℕ) → live p (close main (rounds env args main n s')).history ≡ true)
  live-handle_client_register p c packet s i a long e f ok =
      let over = registered_over p c packet s i a long e f ok in
      let j = handle_client_register-Inv env fresh args main (λ q. q ≡ main) refl packet s i in
      let apart : main ≢ p =
        subst (Differs main) f (Differs-find main _ s.clients c e (i.apart main refl)) in
      (over.1, live-close-rounds env fresh args main p _ j over.0 over.1 (λ same. apart (sym same)))

-- ===== src/Child/Lifetime.antt =====
-- CreateChildPeer and the instances that exist.
use raknet_proxy.Base.{
  ℕ, ◌≡◌, refl, Bool, true, false, ◌∷◌, Option, none, some, String, ◌==◌, if◌then◌else◌, arith,
  if_elim,
}
use raknet_proxy.Client.{Peer, ClientContext}
use raknet_proxy.Args.{ProgramArgs}
use raknet_proxy.Net.{
  Env, History, created, startup, set_maximum_incoming, set_my_guid, connect, destroy_client,
}
use raknet_proxy.Net.Live.{live, IsSafe, IsFresh, Keeps}
use raknet_proxy.Child.{port, connect_child, start_child, create_child_peer}

-- What CreateChildPeer leaves behind, by its result.
abbrev pub Outcome : History → Bool × ClientContext × History → Type 0
Outcome h (true, ctx, h') =
    (p : Peer) × (ctx.child_peer ≡ some p)
    × (live p h ≡ false)
    × (live p h' ≡ true)
    × Keeps h h'
    × IsSafe h'
Outcome h (false, ctx, h') =
    (ctx.child_peer ≡ none) × ((p : Peer) → live p h' ≡ live p h) × IsSafe h'

-- The history after the instance p was created on top of h, and not destroyed.
record HasBegun (h : History) (p : Peer) (h' : History) : Type 0 where
  is_new : live p h ≡ false
  lives : (q : Peer) → live q h' ≡ (if q == p then true else live q h)
  safe : IsSafe h'

lives_self : {h : History} {p : Peer} {h' : History} → HasBegun h p h' → live p h' ≡ true
lives_self {p} b = ground (arith, b.lives p)

abandoned :
    {h : History} {p : Peer} {h' : History}
    → HasBegun h p h'
    → (ctx : ClientContext)
    → Outcome h (false, record ctx { child_peer = none }, destroy_client (some p) h')
unfolding destroy_client
abandoned b ctx =
    (refl, λ q. ground (arith, b.lives q, b.is_new), (lives_self b, (lives_self b, b.safe)))

finished :
    {h : History} {p : Peer} {h' : History}
    → HasBegun h p h'
    → (ctx : ClientContext) → Outcome h (true, record ctx { child_peer = some p }, h')
finished {p} b ctx = (p, refl, b.is_new, lives_self b, λ q l. ground (arith, b.lives q), b.safe)

HasBegun-connect :
    {h : History} {p : Peer} {h' : History} (ip : String) (n : ℕ)
    → HasBegun h p h'
    → HasBegun h p (connect p ip n ∷ h')
HasBegun-connect ip n b = record {
  is_new = b.is_new;
  lives = b.lives;
  safe = (lives_self b, b.safe);
}

HasBegun-startup :
    (h : History) (p : Peer) (guid : ℕ)
    → live p h ≡ false
    → IsSafe h
    → HasBegun h p
        (startup p 1 0 ∷ set_maximum_incoming p 0 ∷ set_my_guid p guid ∷ created (some p) ∷ h)
HasBegun-startup h p guid new s =
    let e : (if p == p then true else live p h) ≡ true = ground arith in
    record { is_new = new; lives = λ q. refl; safe = (e, (e, (e, (tt, s)))) }

connect_child-Outcome :
    (env : Env) (args : ProgramArgs) (ctx : ClientContext) {h : History} {p : Peer} {h' : History}
    → HasBegun h p h'
    → Outcome h (connect_child env args ctx p h')
unfolding connect_child
connect_child-Outcome env args ctx {h} {p} b =
    let b' = HasBegun-connect args.target_server_ip (port args.target_server_port) b in
    if_elim (Outcome h) (env.connect_succeeds _) (λ _. finished b' ctx) (λ _. abandoned b' ctx)

module _ (env : Env) (args : ProgramArgs) where
  -- If GetInstance gives no instance that exists, and the calls before went to instances that
  -- existed: after CreateChildPeer the context has a new instance that exists if it succeeded, and
  -- none if it failed. A failure leaves exactly the instances that there were; no call in it goes
  -- to an instance that does not exist.
  pub create_child_peer-Outcome :
      IsFresh env
      → (ctx : ClientContext) (guid : ℕ) (h : History) → IsSafe h
      → Outcome h (create_child_peer env args ctx guid h)
  unfolding create_child_peer start_child connect_child destroy_client
  create_child_peer-Outcome fresh ctx guid h safe = started (env.instance_given h) refl
    where
      opening : Peer → History
      opening p =
          startup p 1 0 ∷ set_maximum_incoming p 0 ∷ set_my_guid p guid ∷ created (some p) ∷ h

      begun : (p : Peer) → env.instance_given h ≡ some p → HasBegun h p (opening p)
      begun p e = HasBegun-startup h p guid (fresh h p e) safe

      started :
          (o : Option Peer)
          → env.instance_given h ≡ o
          → Outcome h (start_child env args ctx guid o (created o ∷ h))
      started none e = (refl, λ p. refl, (tt, safe))
      started (some p) e =
          if_elim (Outcome h) (env.startup_succeeds (opening p))
            (λ _. connect_child-Outcome env args ctx (begun p e)) (λ _. abandoned (begun p e) ctx)

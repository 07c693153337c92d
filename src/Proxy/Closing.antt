-- ===== src/Proxy/Closing.antt =====
-- The end of the main loop: when it ends, and what main destroys behind it.
use raknet_proxy.Base.{
  ℕ, zero, suc, ◌<◌, ◌≡◌, refl, ◌∙◌, ◌≢◌, true, false, [], ◌∷◌, Option, none, some, arith,
}
use raknet_proxy.Client.{Peer}
use raknet_proxy.Args.{ProgramArgs}
use raknet_proxy.Net.{Env, History, destroy_client}
use raknet_proxy.Net.Live.{live, IsSafe, destroy_client-IsSafe}
use raknet_proxy.Proxy.{Clients, Proxy}
use raknet_proxy.Proxy.Poll.{round, run, destroy_children, close}
use raknet_proxy.Proxy.Invariant.{NotIn, OwnedAs, Owned, Inv}
use raknet_proxy.Proxy.Steady.{
  EntryStep-destroy_client, EntryStep-frame, EntryStep-Owned, Exists-owned,
}

-- The state after n rounds without a signal.
unfoldable pub rounds : Env → ProgramArgs → Peer → ℕ → Proxy → Proxy
rounds env args main zero s = s
rounds env args main (suc n) s = rounds env args main n (round env args main s)

-- The loop ends after n rounds if the first signal is seen then, on any fuel above n.
pub run_lem :
    (env : Env) (args : ProgramArgs) (main : Peer) (n fuel : ℕ) (s : Proxy)
    → ((m : ℕ) → m < n → env.interrupted (rounds env args main m s).history ≡ false)
    → env.interrupted (rounds env args main n s).history ≡ true
    → n < fuel
    → run env args main fuel s ≡ some (rounds env args main n s)
unfolding run rounds
run_lem env args main n zero s quiet stop lt = absurd (omega arith)
run_lem env args main zero (suc fuel) s quiet stop lt = rw stop
run_lem env args main (suc n) (suc fuel) s quiet stop lt = rw (quiet 0 (omega arith)) (
    run_lem env args main n fuel (round env args main s) (λ m l. quiet (suc m) (omega arith)) stop
      (omega arith))

-- The instances of the clients are gone.
abbrev pub IsGone : History → Option Peer → Type 0
IsGone h none = Unit {0}
IsGone h (some p) = live p h ≡ false

abbrev pub AllGone : History → Clients → Type 0
AllGone h [] = Unit {0}
AllGone h ((k, c) ∷ cs) = IsGone h c.child_peer × AllGone h cs

record Ended (cs : Clients) (h : History) (h' : History) : Type 0 where
  frame : (p : Peer) → NotIn p cs → live p h' ≡ live p h
  gone : AllGone h' cs
  safe : IsSafe h'

pub IsGone-destroy_client :
    (o : Option Peer) (h h' : History) (cs : Clients)
    → OwnedAs h o cs
    → ((p : Peer) → NotIn p cs → live p h' ≡ live p (destroy_client o h))
    → IsGone h' o
unfolding destroy_client
IsGone-destroy_client none h h' cs w f = tt
IsGone-destroy_client (some p) h h' cs w f = f p w.1 ∙ ground arith

destroy_children-Ended :
    (cs : Clients) (h : History) → Owned h cs → IsSafe h → Ended cs h (destroy_children cs h)
unfolding destroy_children
destroy_children-Ended [] h w s = record { frame = λ p n. refl; gone = tt; safe = s }
destroy_children-Ended ((k, c) ∷ cs) h w s =
    let e = EntryStep-destroy_client c.child_peer h in
    let s' = destroy_client-IsSafe c.child_peer h (Exists-owned h c.child_peer cs w.0) s in
    let t =
      destroy_children-Ended cs (destroy_client c.child_peer h) (EntryStep-Owned cs e w.0 w.1) s' in
    record {
      frame = λ p n. t.frame p n.1 ∙ EntryStep-frame e p n.0;
      gone = (
        IsGone-destroy_client c.child_peer h (destroy_children cs (destroy_client c.child_peer h))
            cs w.0 t.frame,
        t.gone,
      );
      safe = t.safe;
    }

pub IsGone-stays :
    (h h' : History) (o : Option Peer)
    → ((p : Peer) → live p h ≡ false → live p h' ≡ false)
    → IsGone h o
    → IsGone h' o
IsGone-stays h h' none f g = tt
IsGone-stays h h' (some p) f g = f p g

AllGone-stays :
    (h h' : History) (cs : Clients)
    → ((p : Peer) → live p h ≡ false → live p h' ≡ false)
    → AllGone h cs
    → AllGone h' cs
AllGone-stays h h' [] f g = tt
AllGone-stays h h' ((k, c) ∷ cs) f g =
    (IsGone-stays h h' c.child_peer f g.0, AllGone-stays h h' cs f g.1)

-- From a state with the invariant the last lines of main destroy the main peer and the child peer
-- of every client, each once. An instance that exists outside the table and is not the main peer
-- is left as it is.
pub close_lem :
    (Q : Peer → Type 0) (main : Peer) (s : Proxy)
    → Q main
    → Inv Q s
    → IsSafe (close main s).history
      × (live main (close main s).history ≡ false)
      × AllGone (close main s).history s.clients
      × ((p : Peer) → Q p → p ≢ main → live p (close main s).history ≡ true)
unfolding close
close_lem Q main s qm i =
    let t = destroy_children-Ended s.clients s.history i.owned i.safe in
    let m = t.frame main (i.apart main qm) ∙ i.lives main qm in
    (
      (m, (m, t.safe)),
      ground arith,
      AllGone-stays (destroy_children s.clients s.history) (close main s).history s.clients
          (λ p e. ground arith) t.gone,
      λ p z ne. ground (arith, t.frame p (i.apart p z), i.lives p z),
    )

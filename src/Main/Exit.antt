-- ===== src/Main/Exit.antt =====
-- What holds of every way in which main returns.
use mathlib.Core.Path.{subst}
use mathlib.Core.Option
use raknet_proxy.Base.{
  ℕ, ◌≡◌, refl, sym, true, [], ◌∷◌, Option, none, some, String, List, if_elim, arith,
}
use raknet_proxy.Client.{Peer}
use raknet_proxy.Args.{ProgramArgs, parse_args, is_empty}
use raknet_proxy.Net.{Env, History, created, startup, connect, destroyed}
use raknet_proxy.Net.Live.{live, IsSafe, IsFresh}
use raknet_proxy.Upnp.{Answers, initial}
use raknet_proxy.Child.{port}
use raknet_proxy.Proxy.{Proxy}
use raknet_proxy.Proxy.Invariant.{Inv}
use raknet_proxy.Proxy.Rounds.{run-Inv}
use raknet_proxy.Proxy.Closing.{IsGone, close_lem}
use raknet_proxy.Main.{
  Outcome, set_guid, connect_servers, serving, finish, serve, begin, main_parsed, main,
}

-- The main instance p is created on top of nothing, and nothing else is.
record HasMain (p : Peer) (h : History) : Type 0 where
  lives : live p h ≡ true
  safe : IsSafe h

-- The outcome of main, if there is one, leaves no main instance and has called only instances
-- that existed.
abbrev pub IsClean : Option Peer → Option Outcome → Type 0
IsClean o none = Unit {0}
IsClean o (some r) = IsSafe r.history × IsGone r.history o

HasMain-connect :
    (p : Peer) (ip : String) (n : ℕ) (h : History) → HasMain p h → HasMain p (connect p ip n ∷ h)
HasMain-connect p ip n h m = record { lives = m.lives; safe = (m.lives, m.safe) }

module _ (env : Env) (answers : Answers) (args : ProgramArgs) where
  set_guid-HasMain :
      (p : Peer) (h : History) → HasMain p h → HasMain p (set_guid env answers args p h)
  unfolding set_guid
  set_guid-HasMain p h m =
      if_elim (HasMain p) (is_empty args.custom_guid) (λ _. m)
        (λ _. record { lives = m.lives; safe = (m.lives, m.safe) })

  connect_servers-HasMain :
      (p : Peer) (h : History) → HasMain p h → HasMain p (connect_servers env answers args p h)
  unfolding connect_servers
  connect_servers-HasMain p h m =
      HasMain-connect p _ _ _ (
        if_elim (HasMain p) (is_empty args.coordinator_ip) (λ _. m)
          (λ _. HasMain-connect p _ _ h m))

  -- The main loop begins with an empty table, and with the main peer outside it.
  serving-Inv :
      (p : Peer) (h : History) → HasMain p h → Inv (λ q. q ≡ p) (serving env answers args p h)
  unfolding serving
  serving-Inv p h m =
      let m' =
        connect_servers-HasMain p _
          (record { lives = m.lives; safe = (m.lives, (m.lives, m.safe)) }) in
      record {
        lives = λ q e.
            subst (λ r. live r (serving env answers args p h).history ≡ true) (sym e) m'.lives;
        safe = (tt, m'.safe);
        apart = λ q e. tt;
        owned = tt;
      }

  finish-IsClean :
      (p : Peer) (s : Proxy)
      → Inv (λ q. q ≡ p) s
      → IsClean (some p) (some (finish env answers args p s))
  unfolding finish
  finish-IsClean p s i = let c = close_lem (λ q. q ≡ p) p s refl i in (c.0, c.1)

  ran-IsClean :
      (p : Peer) (o : Option Proxy)
      → ((s : Proxy) → o ≡ some s → Inv (λ q. q ≡ p) s)
      → IsClean (some p) (Option.map (finish env answers args p) o)
  ran-IsClean p none f = tt
  ran-IsClean p (some s) f = finish-IsClean p s (f s refl)

  serve-IsClean :
      IsFresh env
      → (fuel : ℕ) (p : Peer) (h : History) → HasMain p h
      → IsClean (some p) (serve env answers fuel args p h)
  unfolding serve
  serve-IsClean fresh fuel p h m =
      if_elim (IsClean (some p)) (env.startup_succeeds (opened p))
        {y = some (record { status = 1; history = destroyed p ∷ opened p; upnp = initial })}
        (λ _. ran-IsClean p _ λ s e.
          run-Inv env fresh args p (λ q. q ≡ p) refl fuel _ s e
            (serving-Inv p (opened p) (record { lives = m.lives; safe = (m.lives, m.safe) })))
        (λ _. ((m.lives, (m.lives, m.safe)), ground arith))
    where
      opened : Peer → History
      opened p = startup p args.max_clients (port args.local_port) ∷ h

module _ (env : Env) (fresh : IsFresh env) (answers : Answers) where
  begin-IsClean :
      (fuel : ℕ) (args : ProgramArgs) (o : Option Peer)
      → IsClean o (begin env answers fuel args o (created o ∷ []))
  unfolding begin
  begin-IsClean fuel args none = ((tt, tt), tt)
  begin-IsClean fuel args (some p) =
      serve-IsClean env answers args fresh fuel p _
        (set_guid-HasMain env answers args p _ (record { lives = ground arith; safe = (tt, tt) }))

  main_parsed-IsClean :
      (fuel : ℕ) (o : Option ProgramArgs)
      → IsClean (env.instance_given []) (main_parsed env answers fuel o)
  unfolding main_parsed
  main_parsed-IsClean fuel none = (tt, never (env.instance_given []))
    where
      never : (o : Option Peer) → IsGone [] o
      never none = tt
      never (some p) = refl
  main_parsed-IsClean fuel (some args) = begin-IsClean fuel args (env.instance_given [])

  -- However main returns, it has called only instances that existed at the time, has destroyed
  -- none twice, and the instance that it listens with is gone: on a bad command line, where none
  -- was made, after a failed Startup, and after the main loop.
  pub main-IsClean :
      (fuel : ℕ) (argv : List String) → IsClean (env.instance_given []) (main env answers fuel argv)
  unfolding main
  main-IsClean fuel argv = main_parsed-IsClean fuel (parse_args argv)

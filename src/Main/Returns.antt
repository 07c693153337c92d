-- ===== src/Main/Returns.antt =====
-- What main of raknet_proxy.cpp returns, and when.
use raknet_proxy.Base.{
  ℕ, ◌<◌, ◌≤◌, ◌≡◌, refl, sym, ◌∙◌, inl, inr, true, false, [], ◌∷◌, none, some, String, List,
  length, Bool-cases, Option-cases, if◌then◌else◌, arith,
}
use raknet_proxy.Client.{Peer}
use raknet_proxy.Args.{ProgramArgs, parse_args, is_empty, hex_value}
use raknet_proxy.Net.{Env, History, created, destroyed, startup, set_my_guid}
use raknet_proxy.Upnp.{Answers, initial}
use raknet_proxy.Child.{port}
use raknet_proxy.Proxy.{Proxy}
use raknet_proxy.Proxy.Closing.{rounds, run_lem}
use raknet_proxy.Proxy.Poll.{close}
use raknet_proxy.Proxy.Progress.{rounds-interrupted}
use raknet_proxy.Main.{Outcome, set_guid, serving, finish, serve, begin, main_parsed, main}

-- The calls up to Startup.
abbrev pub opened : ProgramArgs → Peer → History
opened args p =
    startup p args.max_clients (port args.local_port)
    ∷ (if is_empty args.custom_guid
        then created (some p) ∷ []
        else set_my_guid p (hex_value args.custom_guid) ∷ created (some p) ∷ [])

some-injective {ℓ} : {A : Type ℓ} (x y : A) → some x ≡ some y → x ≡ y
some-injective x y e = cc

module _ (env : Env) (answers : Answers) where
  -- The state after n rounds of the loop that main starts.
  abbrev pub served : ProgramArgs → Peer → ℕ → Proxy
  served args p n = rounds env args p n (serving env answers args p (opened args p))

  -- The steps before the loop succeed.
  pub record Starts (argv : List String) (args : ProgramArgs) (p : Peer) : Type 0 where
    pub parsed : parse_args argv ≡ some args
    pub given : env.instance_given [] ≡ some p
    pub started : env.startup_succeeds (opened args p) ≡ true

  -- How main ends: with 0, behind the loop, which was left at the first of its tests that found a
  -- signal; or with 1, and then some step before the loop failed.
  pub data Returns (argv : List String) (o : Outcome) : Type 0 where
    stopped :
        (args : ProgramArgs) (p : Peer) (k : ℕ)
        → Starts argv args p
        → ((j : ℕ) → j < k → env.interrupted (served args p j).history ≡ false)
        → env.interrupted (served args p k).history ≡ true
        → o.history ≡ (close p (served args p k)).history
        → o.status ≡ 0
        → Returns argv o
    refused :
        ((args : ProgramArgs) (p : Peer) → ¬ Starts argv args p)
        → o.status ≡ 1
        → o.upnp ≡ initial
        → Returns argv o

  main-served :
      (fuel k : ℕ) (argv : List String) (args : ProgramArgs) (p : Peer)
      → Starts argv args p
      → ((j : ℕ) → j < k → env.interrupted (served args p j).history ≡ false)
      → env.interrupted (served args p k).history ≡ true
      → k < fuel
      → main env answers fuel argv ≡ some (finish env answers args p (served args p k))
  unfolding main main_parsed begin serve set_guid
  main-served fuel k argv args p ready quiet stop less =
      rw ready.parsed
        (rw ready.given (rw ready.started (rw (run_lem env args p k fuel _ quiet stop less) refl)))

  started :
      (n fuel : ℕ) (argv : List String) (args : ProgramArgs) (p : Peer)
      → ((h : History) → n ≤ length h → env.interrupted h ≡ true)
      → n < fuel
      → Starts argv args p
      → (o : Outcome) × (main env answers fuel argv ≡ some o) × Returns argv o
  unfolding finish
  started n fuel argv args p signal enough ready =
      let s = serving env answers args p (opened args p) in
      let (k, quiet, stop, few) = rounds-interrupted env args p n n s signal (omega arith) in
      (
        finish env answers args p (served args p k),
        main-served fuel k argv args p ready quiet stop (omega (arith, few)),
        stopped args p k ready quiet stop refl refl,
      )

  not_started :
      (fuel : ℕ) (argv : List String) (args : ProgramArgs) (p : Peer)
      → parse_args argv ≡ some args
      → env.instance_given [] ≡ some p
      → env.startup_succeeds (opened args p) ≡ false
      → (o : Outcome) × (main env answers fuel argv ≡ some o) × Returns argv o
  unfolding main main_parsed begin serve set_guid
  not_started fuel argv args p parsed given fails = (
    record { status = 1; history = destroyed p ∷ opened args p; upnp = initial },
    rw parsed (rw given (rw fails refl)),
    refused
        (λ args' p' ready.
          let same_args : args' ≡ args = some-injective _ _ (sym ready.parsed ∙ parsed) in
          let same_peer : p' ≡ p = some-injective _ _ (sym ready.given ∙ given) in
          let starts : env.startup_succeeds (opened args p) ≡ true =
            rw (← same_args, ← same_peer) ready.started in
          ground (arith, starts, fails))
        refl refl,
  )

  -- If g_running has been cleared in every history of n calls or more, main ends, on any command
  -- line, on every fuel above n. It returns 0 if the command line is good, GetInstance gives an
  -- instance and Startup succeeds, and then it left the loop at the first test of g_running that
  -- found it cleared and closed the state of that time. Else it returns 1.
  pub main_lem :
      (n fuel : ℕ) (argv : List String)
      → ((h : History) → n ≤ length h → env.interrupted h ≡ true)
      → n < fuel
      → (o : Outcome) × (main env answers fuel argv ≡ some o) × Returns argv o
  unfolding main main_parsed begin
  main_lem n fuel argv signal enough = elim (Option-cases (parse_args argv)) [
    | inl bad ↦ (
      record { status = 1; history = []; upnp = initial },
      rw bad refl,
      refused (λ args p ready. let bad' = bad in let good = ready.parsed in cc) refl refl,
    )
    | inr (args, parsed) ↦ elim (Option-cases (env.instance_given [])) [
      | inl empty ↦ (
        record { status = 1; history = created none ∷ []; upnp = initial },
        rw parsed (rw empty refl),
        refused (λ args' p ready. let good = ready.given in cc) refl refl,
      )
      | inr (p, given) ↦ elim (Bool-cases (env.startup_succeeds (opened args p))) [
        | inl ok ↦
            started n fuel argv args p signal enough
              (record { parsed = parsed; given = given; started = ok })
        | inr fails ↦ not_started fuel argv args p parsed given fails
      ]
    ]
  ]

-- ===== src/Main.antt =====
-- The whole program: raknet_proxy.cpp, main. The answers of RakNet and the clock are `Env`, those
-- of miniupnpc `Answers`. The main loop has fuel, and `none` is the outcome when it runs out: a
-- server without a signal does not end.
pub mod Exit
pub mod Returns
use raknet_proxy.Base.{ℕ, ◌%◌, ◌^◌, Bool, List, [], ◌∷◌, Option, none, some, String, if◌then◌else◌}
use mathlib.Core.Option
use raknet_proxy.Client.{Peer}
use raknet_proxy.Args.{ProgramArgs, parse_args, is_empty, hex_value}
use raknet_proxy.Net.{
  Env, History, created, destroyed, set_my_guid, set_maximum_incoming, startup, attach_nat_client,
  connect, install_signal_handlers,
}
use raknet_proxy.Upnp.{Upnp, Answers, initial, add_upnp_port_mapping, remove_upnp_port_mapping}
use raknet_proxy.Child.{port}
use raknet_proxy.Proxy.{Proxy}
use raknet_proxy.Proxy.Poll.{run, close}

-- The exit status, the calls of RakNet and the clock, and the state of the port mapping.
pub record Outcome : Type 0 where
  pub status : ℕ
  pub history : History
  pub upnp : Upnp

module _ (env : Env) (answers : Answers) where
  -- Step 1.5: the custom GUID.
  unfoldable pub set_guid : ProgramArgs → Peer → History → History
  set_guid args peer h =
      if is_empty args.custom_guid then h else set_my_guid peer (hex_value args.custom_guid) ∷ h

  -- Steps 2.5 and 3: the plugin and the connections to the coordinator and the NAT server, whose
  -- results are only printed.
  unfoldable pub connect_servers : ProgramArgs → Peer → History → History
  connect_servers args peer h =
      let h' =
        if is_empty args.coordinator_ip
        then h
        else connect peer args.coordinator_ip (port args.coordinator_port) ∷ h in
      connect peer args.nat_server_ip (port args.nat_server_port) ∷ h'

  unfoldable pub map_ports : ProgramArgs → Upnp
  map_ports args =
      if args.use_upnp then (add_upnp_port_mapping answers args.local_port initial).1 else initial

  unfoldable pub unmap_ports : ProgramArgs → Upnp → Upnp
  unmap_ports args u =
      if args.use_upnp then remove_upnp_port_mapping answers args.local_port u else u

  -- The state with which the main loop begins, after Startup has succeeded.
  unfoldable pub serving : ProgramArgs → Peer → History → Proxy
  unfolding connect_servers
  serving args peer h = record {
    clients = [];
    coordinator_address = env.unassigned;
    history =
        install_signal_handlers
        ∷ connect_servers args peer
            (attach_nat_client peer ∷ set_maximum_incoming peer (args.max_clients % 2 ^ 16) ∷ h);
  }

  -- The end of main, step 5 included.
  unfoldable pub finish : ProgramArgs → Peer → Proxy → Outcome
  finish args peer s = record {
    status = 0;
    history = (close peer s).history;
    upnp = unmap_ports args (map_ports args);
  }

  -- Steps 2 to 5.
  unfoldable pub serve : ℕ → ProgramArgs → Peer → History → Option Outcome
  serve fuel args peer h =
      let h' = startup peer args.max_clients (port args.local_port) ∷ h in
      if env.startup_succeeds h'
      then Option.map (finish args peer) (run env args peer fuel (serving args peer h'))
      else some (record { status = 1; history = destroyed peer ∷ h'; upnp = initial })

  -- Step 1: the answer of GetInstance.
  unfoldable pub begin : ℕ → ProgramArgs → Option Peer → History → Option Outcome
  begin fuel args none h = some (record { status = 1; history = h; upnp = initial })
  begin fuel args (some peer) h = serve fuel args peer (set_guid args peer h)

  unfoldable pub main_parsed : ℕ → Option ProgramArgs → Option Outcome
  main_parsed fuel none = some (record { status = 1; history = []; upnp = initial })
  main_parsed fuel (some args) =
      begin fuel args (env.instance_given []) (created (env.instance_given []) ∷ [])

  -- main
  unfoldable pub main : ℕ → List String → Option Outcome
  main fuel argv = main_parsed fuel (parse_args argv)

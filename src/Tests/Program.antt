-- ===== src/Tests/Program.antt =====
-- The command line, the port mapping and main of raknet_proxy.cpp: the theorems at concrete data.
use raknet_proxy.Base.{◌≡◌, true, false, some, [], ◌∷◌, arith}
use raknet_proxy.Args.{parse_args}
use raknet_proxy.Args.Laws.{command_line, parse_args-command_line}
use raknet_proxy.Upnp.{Answers, initial, add_upnp_port_mapping, remove_upnp_port_mapping}
use raknet_proxy.Upnp.Laws.{held, nothing_held, held-remove_upnp_port_mapping}
use raknet_proxy.Main.{Outcome, main}
use raknet_proxy.Main.Exit.{IsClean, main-IsClean}
use raknet_proxy.Main.Returns.{Returns, main_lem}
use raknet_proxy.Samples.{sample_env, sample_env-IsFresh, next_handle}
use raknet_proxy.Tests.Data.{
  sample_answers, sample_argv, full_args, full_args-IsUsable, stopping_env,
}

-- A router that maps a port and does not unmap it.
abbrev stubborn : Answers
stubborn = record { finds_device = true; has_igd = true; maps = true; unmaps = false }

main-IsClean_example : IsClean (some 0) (main sample_env sample_answers 5 sample_argv)
unfolding next_handle
main-IsClean_example = main-IsClean sample_env sample_env-IsFresh sample_answers 5 sample_argv

parse_args-command_line_example :
    parse_args (
      command_line "60000" "10" "1.2.3.4" "61111" "-upnp" "7000" "1234567890ABCDEF" "" "61112" true)
    ≡ some full_args
parse_args-command_line_example =
    parse_args-command_line "60000" "10" "1.2.3.4" "61111" "-upnp" "7000" "1234567890ABCDEF" ""
      "61112" true full_args-IsUsable

held-remove_upnp_port_mapping_example :
    let u =
      remove_upnp_port_mapping stubborn 60000 (add_upnp_port_mapping stubborn 60000 initial).1 in
    (held u.calls ≡ record nothing_held { mapped = 60000 ∷ [] })
    × (u.initialized ≡ false)
    × (u.devlist ≡ false)
held-remove_upnp_port_mapping_example = held-remove_upnp_port_mapping stubborn 60000

main_lem_example :
    (o : Outcome) × (main (stopping_env 12) sample_answers 20 sample_argv ≡ some o)
    × Returns (stopping_env 12) sample_answers sample_argv o
main_lem_example =
    main_lem (stopping_env 12) sample_answers 13 20 sample_argv (λ h enough. ground (arith, enough))
      (omega arith)

-- ===== src/Args/Laws.antt =====
-- What an accepted command line satisfies, and that every set of arguments can be given.
use mathlib.Core.Path.{subst}
use raknet_proxy.Base.{
  ◌≤◌, ◌≡◌, refl, ap, sym, ◌↔◌, ◌≢◌, true, false, Bool, List, [], ◌∷◌, Option, none, some, String,
  eq_iff, length, if◌then◌else◌, arith,
}
use raknet_proxy.Args.{
  ProgramArgs, codes, atoi, all_xdigits, check_args, check_parsed, parse_loop, defaults, parse_args,
}

-- What main relies on.
pub record IsUsable (a : ProgramArgs) : Type 0 where
  pub has_nat : a.nat_server_ip ≢ ""
  pub has_target : a.target_server_ip ≢ ""
  pub guid_short : length (codes a.custom_guid) ≤ 16
  pub guid_hex : all_xdigits (codes a.custom_guid) ≡ true

empty_guid_is_hex : (s : String) → s ≡ "" → (length (codes s) ≤ 16) × (all_xdigits (codes s) ≡ true)
unfolding all_xdigits
empty_guid_is_hex String.[] e = (omega arith, refl)
empty_guid_is_hex (String.◌∷◌ c s) e = cc

-- The tests after the loop accept exactly the usable arguments, and change nothing.
check_args-eq-some_iff : (a b : ProgramArgs) → (check_args a ≡ some b) ↔ ((a ≡ b) × IsUsable a)
unfolding check_args
check_args-eq-some_iff a b = (
  λ h. (
    ground (arith),
    ground (
      arith,
      eq_iff a.nat_server_ip "",
      eq_iff a.target_server_ip "",
      eq_iff a.custom_guid "",
      empty_guid_is_hex a.custom_guid,
    ),
  ),
  λ h.
      ground
        (arith, eq_iff a.nat_server_ip "", eq_iff a.target_server_ip "", eq_iff a.custom_guid ""),
)

-- ParseArgs accepts a command line with the arguments b exactly if the loop reads b from it, no
-- `-h` among the options read, and b is usable: both required addresses are given, and the GUID
-- has at most 16 characters, all hexadecimal digits.
pub parse_args-eq-some_iff :
    (argv : List String) (b : ProgramArgs)
    → (parse_args argv ≡ some b) ↔ ((parse_loop argv defaults ≡ some b) × IsUsable b)
unfolding parse_args
parse_args-eq-some_iff argv b = checked (parse_loop argv defaults)
  where
    checked : (o : Option ProgramArgs) → (check_parsed o ≡ some b) ↔ ((o ≡ some b) × IsUsable b)
    checked none = (λ h. cc, λ h. cc)
    checked (some a) = (
      λ h. let r = (check_args-eq-some_iff a b).0 h in (ap some r.0, subst IsUsable r.0 r.1),
      λ h.
          let e : a ≡ b = ground (arith, h.0) in
          (check_args-eq-some_iff a b).1 (e, subst IsUsable (sym e) h.1),
    )

-- The options that give the nine texts, in the order of the usage message.
pub command_line :
    (local_port max_clients nat_ip nat_port target_ip target_port guid : String)
    → (coordinator_ip coordinator_port : String) → Bool
    → List String
command_line lp mc ni np ti tp g ci cp upnp =
    "-local_port"
    ∷ lp
    ∷ "-max_clients"
    ∷ mc
    ∷ "-nat_ip"
    ∷ ni
    ∷ "-nat_port"
    ∷ np
    ∷ "-target_ip"
    ∷ ti
    ∷ "-target_port"
    ∷ tp
    ∷ "-guid"
    ∷ g
    ∷ "-coordinator_ip"
    ∷ ci
    ∷ "-coordinator_port"
    ∷ cp
    ∷ (if upnp then "-upnp" ∷ [] else [])

abbrev pub given :
    (local_port max_clients nat_ip nat_port target_ip target_port guid : String)
    → (coordinator_ip coordinator_port : String) → Bool
    → ProgramArgs
given lp mc ni np ti tp g ci cp upnp = record {
  local_port = atoi lp;
  max_clients = atoi mc;
  nat_server_ip = ni;
  nat_server_port = atoi np;
  target_server_ip = ti;
  target_server_port = atoi tp;
  custom_guid = g;
  coordinator_ip = ci;
  coordinator_port = atoi cp;
  use_upnp = upnp;
}

parse_loop-command_line :
    (lp mc ni np ti tp g ci cp : String) (upnp : Bool)
    → parse_loop (command_line lp mc ni np ti tp g ci cp upnp) defaults
      ≡ some (given lp mc ni np ti tp g ci cp upnp)
unfolding parse_args command_line
parse_loop-command_line lp mc ni np ti tp g ci cp true = refl
parse_loop-command_line lp mc ni np ti tp g ci cp false = refl

-- Every usable set of texts can be given on the command line, texts that look like options
-- included, and ParseArgs returns it with the numbers that atoi reads.
pub parse_args-command_line :
    (lp mc ni np ti tp g ci cp : String) (upnp : Bool)
    → IsUsable (given lp mc ni np ti tp g ci cp upnp)
    → parse_args (command_line lp mc ni np ti tp g ci cp upnp)
      ≡ some (given lp mc ni np ti tp g ci cp upnp)
parse_args-command_line lp mc ni np ti tp g ci cp upnp usable =
    (parse_args-eq-some_iff _ _).1 (parse_loop-command_line lp mc ni np ti tp g ci cp upnp, usable)

-- ===== src/Args.antt =====
-- The command line: raknet_proxy.cpp, ProgramArgs, ParseArgs and the conversion of the GUID in
-- main. An `int` is its 32-bit pattern. `atoi` is that of the GNU C library, `(int)strtol(s)`,
-- with a 64-bit `long`. PrintUsage and the messages on the terminal are left out.
pub mod Laws
pub mod Guid
use Prim.Native.Nat.{min}
use raknet_proxy.Base.{
  ℕ, ◌+◌, ◌-◌, ◌*◌, ◌%◌, ◌^◌, Bool, true, false, not, ◌&&◌, ◌||◌, List, [], ◌∷◌, Option, none, some,
  String, code, str_eq, ltb, leb, ◌==◌, if◌then◌else◌, length,
}

pub record ProgramArgs : Type 0 where
  pub local_port : ℕ
  pub max_clients : ℕ
  pub nat_server_ip : String
  pub nat_server_port : ℕ
  pub target_server_ip : String
  pub target_server_port : ℕ
  pub custom_guid : String
  pub coordinator_ip : String
  pub coordinator_port : ℕ
  pub use_upnp : Bool

abbrev pub codes : String → List ℕ
codes String.[] = []
codes (String.◌∷◌ c s) = code c ∷ codes s

abbrev pub is_empty : String → Bool
is_empty s = str_eq s ""

is_digit : ℕ → Bool
is_digit c = leb b'0' c && leb c b'9'

is_space : ℕ → Bool
is_space c = (leb 9 c && leb c 13) || c == 32

decimal : List ℕ → ℕ → ℕ
decimal [] acc = acc
decimal (c ∷ cs) acc =
    let rest = decimal cs (acc * 10 + (c - b'0')) in if is_digit c then rest else acc

signed_decimal : List ℕ → ℕ
unfolding decimal
signed_decimal [] = 0
signed_decimal (c ∷ cs) =
    if c == b'-'
    then (2 ^ 64 - min (2 ^ 63) (decimal cs 0)) % 2 ^ 32
    else if c == b'+'
    then min (2 ^ 63 - 1) (decimal cs 0) % 2 ^ 32
    else min (2 ^ 63 - 1) (decimal (c ∷ cs) 0) % 2 ^ 32

skip_spaces : List ℕ → List ℕ
skip_spaces [] = []
skip_spaces (c ∷ cs) = let rest = skip_spaces cs in if is_space c then rest else c ∷ cs

-- `atoi`
unfoldable pub atoi : String → ℕ
unfolding signed_decimal skip_spaces is_digit is_space
atoi s = signed_decimal (skip_spaces (codes s))

-- `isxdigit`
unfoldable pub is_xdigit : ℕ → Bool
is_xdigit c =
    (leb b'0' c && leb c b'9') || ((leb b'A' c && leb c b'F') || (leb b'a' c && leb c b'f'))

pub data Flag : Type 0 where
  set_local_port : Flag
  set_max_clients : Flag
  set_nat_ip : Flag
  set_nat_port : Flag
  set_target_ip : Flag
  set_target_port : Flag
  set_guid : Flag
  set_coordinator_ip : Flag
  set_coordinator_port : Flag
  upnp : Flag
  help : Flag
  unknown : Flag

-- The chain of comparisons in the loop.
flag_of : String → Flag
flag_of arg =
    if str_eq arg "-local_port"
    then set_local_port
    else if str_eq arg "-max_clients"
    then set_max_clients
    else if str_eq arg "-nat_ip"
    then set_nat_ip
    else if str_eq arg "-nat_port"
    then set_nat_port
    else if str_eq arg "-target_ip"
    then set_target_ip
    else if str_eq arg "-target_port"
    then set_target_port
    else if str_eq arg "-guid"
    then set_guid
    else if str_eq arg "-coordinator_ip"
    then set_coordinator_ip
    else if str_eq arg "-coordinator_port"
    then set_coordinator_port
    else if str_eq arg "-upnp"
    then upnp
    else if str_eq arg "-h" || str_eq arg "--help"
    then help
    else unknown

-- The branches that take `argv[++i]`.
set_value : Flag → String → ProgramArgs → ProgramArgs
set_value set_local_port v a = record a { local_port = atoi v }
set_value set_max_clients v a = record a { max_clients = atoi v }
set_value set_nat_ip v a = record a { nat_server_ip = v }
set_value set_nat_port v a = record a { nat_server_port = atoi v }
set_value set_target_ip v a = record a { target_server_ip = v }
set_value set_target_port v a = record a { target_server_port = atoi v }
set_value set_guid v a = record a { custom_guid = v }
set_value set_coordinator_ip v a = record a { coordinator_ip = v }
set_value set_coordinator_port v a = record a { coordinator_port = atoi v }
set_value _ v a = a

-- An option at the end of the line has no value: its branch is not taken, and no later one fits.
last_arg : Flag → ProgramArgs → Option ProgramArgs
last_arg upnp a = some (record a { use_upnp = true })
last_arg help a = none
last_arg _ a = some a

-- The loop over argv; none is the early `return false` of `-h`.
pub parse_loop : List String → ProgramArgs → Option ProgramArgs
parse_loop [] a = some a
parse_loop (arg ∷ []) a = last_arg (flag_of arg) a
parse_loop (arg ∷ value ∷ rest) a = elim (flag_of arg) [
  | upnp ↦ parse_loop (value ∷ rest) (record a { use_upnp = true })
  | help ↦ none
  | unknown ↦ parse_loop (value ∷ rest) a
  | other ↦ parse_loop rest (set_value other value a)
]

abbrev pub defaults : ProgramArgs
defaults = record {
  local_port = 60000;
  max_clients = 10;
  nat_server_ip = "";
  nat_server_port = 61111;
  target_server_ip = "";
  target_server_port = 7000;
  custom_guid = "";
  coordinator_ip = "";
  coordinator_port = 61112;
  use_upnp = false;
}

unfoldable pub all_xdigits : List ℕ → Bool
unfolding is_xdigit
all_xdigits [] = true
all_xdigits (c ∷ cs) = is_xdigit c && all_xdigits cs

-- The tests after the loop.
check_args : ProgramArgs → Option ProgramArgs
unfolding all_xdigits
check_args a =
    if is_empty a.nat_server_ip || is_empty a.target_server_ip
    then none
    else if is_empty a.custom_guid
    then some a
    else if ltb 16 (length (codes a.custom_guid))
    then none
    else if all_xdigits (codes a.custom_guid)
    then some a
    else none

check_parsed : Option ProgramArgs → Option ProgramArgs
unfolding check_args
check_parsed none = none
check_parsed (some a) = check_args a

-- ParseArgs on argv without the program's name; none is `return false`.
unfoldable pub parse_args : List String → Option ProgramArgs
unfolding parse_loop last_arg flag_of set_value check_parsed atoi
parse_args argv = check_parsed (parse_loop argv defaults)

hex_digit : ℕ → ℕ
hex_digit c = if leb b'a' c then c - b'a' + 10 else if leb b'A' c then c - b'A' + 10 else c - b'0'

hex_loop : List ℕ → ℕ → ℕ
hex_loop [] acc = acc
hex_loop (c ∷ cs) acc = hex_loop cs (acc * 16 + hex_digit c)

-- `strtoull(s, NULL, 16)` on a text of hexadecimal digits, which has no sign, space or `0x`.
unfoldable pub hex_value : String → ℕ
unfolding hex_loop hex_digit
hex_value s = hex_loop (codes s) 0

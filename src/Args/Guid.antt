-- ===== src/Args/Guid.antt =====
-- The custom GUID that main sets: `strtoull` of the checked text.
use raknet_proxy.Base.{ℕ, ◌+◌, ◌*◌, ◌^◌, ◌≤◌, ◌<◌, ◌≡◌, ap, true, List, [], ◌∷◌, length, arith}
use native.Mathlib.Nat.{pow-suc, pow-le-pow_right}
use raknet_proxy.Args.{ProgramArgs, codes, is_xdigit, all_xdigits, hex_digit, hex_loop, hex_value}
use raknet_proxy.Args.Laws.{IsUsable}

hex_digit-lt : (c : ℕ) → is_xdigit c ≡ true → hex_digit c < 16
unfolding is_xdigit hex_digit
hex_digit-lt c h = ground arith

add_digit : (acc d p : ℕ) → d < 16 → (acc * 16 + d + 1) * p ≤ (acc + 1) * (p * 16)
add_digit acc d p h = grind arith

-- Each digit makes the value at most sixteen times as large.
hex_loop-lt :
    (cs : List ℕ) (acc : ℕ) → all_xdigits cs ≡ true → hex_loop cs acc < (acc + 1) * 16 ^ length cs
unfolding hex_loop all_xdigits
hex_loop-lt [] acc h = omega arith
hex_loop-lt (c ∷ cs) acc h =
    let h' : (is_xdigit c ≡ true) × (all_xdigits cs ≡ true) = ground arith in
    omega (
      arith,
      hex_loop-lt cs (acc * 16 + hex_digit c) h'.1,
      add_digit acc (hex_digit c) (16 ^ length cs) (hex_digit-lt c h'.0),
      ap (◌*◌ (acc + 1)) (pow-suc 16 (length cs)),
    )

-- The value of a checked GUID is a `uint64_t`: `strtoull` does not saturate.
pub hex_value-lt : (a : ProgramArgs) → IsUsable a → hex_value a.custom_guid < 2 ^ 64
unfolding hex_value
hex_value-lt a u = omega (
  arith,
  hex_loop-lt (codes a.custom_guid) 0 u.guid_hex,
  pow-le-pow_right {n = 16} (omega arith) u.guid_short,
)

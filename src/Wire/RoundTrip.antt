-- ===== src/Wire/RoundTrip.antt =====
-- What is read back from the bytes that are sent.
use native.Mathlib.Nat.{div-div-eq-div-mul, div-le_self}
use native.Mathlib.Numerals.{towards_suc}
use raknet_proxy.Base.{
  ℕ, zero, suc, ◌+◌, ◌*◌, ◌/◌, ◌%◌, ◌^◌, ◌<◌, ◌≡◌, refl, ◌∙◌, true, false, ◌↔◌, ◌-◌, sym, ap, List,
  [], ◌∷◌, arith,
}
use raknet_proxy.Wire.{
  Memory, byte_at, get_uin, read_guid_loop, read_big_endian_guid, guid_bytes, guid_message,
  uin_of_frame, load_u32,
}

-- A message in memory: what stands behind its end is not determined.
abbrev pub Holds : Memory → ℕ → List ℕ → Type 0
Holds m i [] = Unit {0}
Holds m i (x ∷ xs) = (m i ≡ x) × Holds m (i + 1) xs

pow_step : (n : ℕ) → 2 ^ (8 * suc n) ≡ 2 ^ (8 * n) * 256
pow_step n = ap (◌^◌ 2) (mul_step n) ∙ simp towards_suc (omega arith)
  where
    mul_step : (k : ℕ) → 8 * suc k ≡ 8 * k + 8
    mul_step k = omega arith

-- One round of the reading loop appends the next byte.
append_byte :
    (n g acc x : ℕ)
    → acc ≡ g / 2 ^ (8 * suc n)
    → x ≡ g / 2 ^ (8 * n) % 256
    → g < 2 ^ 64
    → acc * 256 % 2 ^ 64 + x % 256 ≡ g / 2 ^ (8 * n)
append_byte n g acc x e f lt =
    let shift : g / 2 ^ (8 * suc n) ≡ g / 2 ^ (8 * n) / 256 =
      ap (◌/◌ g) (pow_step n) ∙ sym (div-div-eq-div-mul g (2 ^ (8 * n)) 256) in
    omega (arith, shift, div-le_self g (2 ^ (8 * n)))

read_guid_loop-guid_bytes :
    (n : ℕ) (m : Memory) (i g acc : ℕ)
    → g < 2 ^ 64
    → acc ≡ g / 2 ^ (8 * n)
    → Holds m i (guid_bytes n g)
    → read_guid_loop n m i acc ≡ g
unfolding read_guid_loop guid_bytes
read_guid_loop-guid_bytes zero m i g acc lt e h = omega (arith, e)
read_guid_loop-guid_bytes (suc n) m i g acc lt e h =
    read_guid_loop-guid_bytes n m (i + 1) g _ lt (append_byte n g acc (m i) e h.0 lt) h.1

-- The GUID of a message that SendMiniWorldMessageGUID builds is the GUID that
-- ReadBigEndianGuid finds at offset 2 of it, whatever the header and the sub-message are.
pub read_big_endian_guid-guid_message :
    (m : Memory) (header sub g : ℕ)
    → g < 2 ^ 64
    → Holds m 0 (guid_message header sub g)
    → read_big_endian_guid m 2 ≡ g
unfolding read_big_endian_guid guid_message
read_big_endian_guid-guid_message m header sub g lt h =
    read_guid_loop-guid_bytes 8 m 2 g 0 lt (omega arith) h.1.1

read_guid_loop-lt : (n : ℕ) (m : Memory) (i g : ℕ) → g < 2 ^ 64 → read_guid_loop n m i g < 2 ^ 64
unfolding read_guid_loop
read_guid_loop-lt zero m i g lt = lt
read_guid_loop-lt (suc n) m i g lt = read_guid_loop-lt n m (i + 1) _ (omega arith)

-- The GUID that ReadBigEndianGuid reads, from any bytes, is below 2^64.
pub read_big_endian_guid-lt : (m : Memory) (i : ℕ) → read_big_endian_guid m i < 2 ^ 64
unfolding read_big_endian_guid
read_big_endian_guid-lt m i = read_guid_loop-lt 8 m i 0 (omega arith)

-- The UIN of a GUID that is read at offset 2 is the number in its last four bytes, most
-- significant first: the bytes 6 to 9 of the packet, read as the `default` branch reads a UIN.
pub get_uin-read_big_endian_guid :
    (m : Memory) → get_uin (read_big_endian_guid m 2) ≡ uin_of_frame (λ j. m (5 + j))
unfolding get_uin read_big_endian_guid uin_of_frame
get_uin-read_big_endian_guid m = omega arith

-- `memcpy` agrees with the byte order of the rest of the protocol on a big-endian machine. On a
-- little-endian one it gives the four bytes reversed.
pub load_u32-uin_of_frame :
    (m : Memory)
    → (load_u32 false m 1 ≡ uin_of_frame m) × (load_u32 true m 1 ≡ uin_of_frame (λ i. m (5 - i)))
unfolding load_u32 uin_of_frame
load_u32-uin_of_frame m = (refl, refl)

-- On a little-endian machine the UIN that MW_PROXY_DATA would read from the bytes 1 to 4 of a
-- packet is the one that the `default` branch reads there exactly if the bytes are a palindrome.
pub load_u32-eq-uin_of_frame_iff :
    (m : Memory)
    → (load_u32 true m 1 ≡ uin_of_frame m)
      ↔ ((byte_at m 1 ≡ byte_at m 4) × (byte_at m 2 ≡ byte_at m 3))
unfolding load_u32 uin_of_frame
load_u32-eq-uin_of_frame_iff m = (λ e. (omega arith, omega arith), λ h. omega arith)

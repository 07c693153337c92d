-- ===== src/Wire.antt =====
-- The byte layouts of the MiniWorld messages: raknet_proxy.cpp, the constants MW_PROXY_*, GetUIN,
-- ReadBigEndianGuid, the bytes that SendMiniWorldMessage and SendMiniWorldMessageGUID build, and
-- the two ways in which the main loop reads a UIN. A memory is a function from offsets to
-- numbers; an `unsigned char` read from it is taken modulo 256.
pub mod RoundTrip
pub mod Agreement
use raknet_proxy.Base.{
  ℕ, zero, suc, ◌+◌, ◌*◌, ◌/◌, ◌%◌, ◌^◌, Bool, List, [], ◌∷◌, ◌++◌, if◌then◌else◌,
}

abbrev pub Memory : Type 0
Memory = ℕ → ℕ

-- MW_PROXY_*
abbrev pub client_register : ℕ
client_register = 0x1E

abbrev pub client_register_resp : ℕ
client_register_resp = 0x1F

abbrev pub host_register : ℕ
host_register = 0x20

abbrev pub host_register_resp : ℕ
host_register_resp = 0x21

abbrev pub client_auth : ℕ
client_auth = 0x22

abbrev pub client_online : ℕ
client_online = 0x23

abbrev pub host_auth : ℕ
host_auth = 0x24

abbrev pub relay_data : ℕ
relay_data = 0x30

abbrev pub ping : ℕ
ping = 0x32

abbrev pub pong : ℕ
pong = 0x34

abbrev pub disconnect : ℕ
disconnect = 0x36

-- `(uint32_t)(guid.g & 0xFFFFFFFF)`
unfoldable pub get_uin : ℕ → ℕ
get_uin g = g % 2 ^ 32

-- One byte of memory.
abbrev pub byte_at : Memory → ℕ → ℕ
byte_at m i = m i % 256

-- The rounds of the loop `g = (g << 8) | data[i]` on a `uint64_t`. The low eight bits of the
-- shifted value are zero, so the `|` is a sum.
read_guid_loop : ℕ → Memory → ℕ → ℕ → ℕ
read_guid_loop zero m i g = g
read_guid_loop (suc n) m i g = read_guid_loop n m (i + 1) (g * 256 % 2 ^ 64 + byte_at m i)

-- ReadBigEndianGuid(data + i)
unfoldable pub read_big_endian_guid : Memory → ℕ → ℕ
unfolding read_guid_loop
read_big_endian_guid m i = read_guid_loop 8 m i 0

-- The rounds of the loop `packet[2 + i] = (guidValue >> (56 - i * 8)) & 0xFF`, the last n of them.
guid_bytes : ℕ → ℕ → List ℕ
guid_bytes zero g = []
guid_bytes (suc n) g = (g / 2 ^ (8 * n) % 256) ∷ guid_bytes n g

-- The bytes that SendMiniWorldMessageGUID sends: the header, the sub-message and the GUID.
unfoldable pub guid_message : ℕ → ℕ → ℕ → List ℕ
unfolding guid_bytes
guid_message header sub g = header ∷ sub ∷ guid_bytes 8 g

-- The bytes that SendMiniWorldMessage sends: the header, the sub-message and the data.
unfoldable pub message : ℕ → ℕ → List ℕ → List ℕ
message header sub payload = header ∷ sub ∷ payload

-- The UIN of a packet in the `default` branch: bytes 1 to 4, most significant first.
unfoldable pub uin_of_frame : Memory → ℕ
uin_of_frame m = byte_at m 1 * 2 ^ 24 + byte_at m 2 * 2 ^ 16 + byte_at m 3 * 2 ^ 8 + byte_at m 4

-- `memcpy(&dataUin, data + i, 4)` on a machine of either byte order.
unfoldable pub load_u32 : Bool → Memory → ℕ → ℕ
load_u32 little_endian m i =
    if little_endian
    then byte_at m (i + 3) * 2 ^ 24
      + byte_at m (i + 2) * 2 ^ 16
      + byte_at m (i + 1) * 2 ^ 8
      + byte_at m i
    else byte_at m i * 2 ^ 24
      + byte_at m (i + 1) * 2 ^ 16
      + byte_at m (i + 2) * 2 ^ 8
      + byte_at m (i + 3)

-- `n` bytes of a memory from an offset on, as `Send(data + i, n)` takes them.
unfoldable pub slice : Memory → ℕ → ℕ → List ℕ
slice m i zero = []
slice m i (suc n) = byte_at m i ∷ slice m (i + 1) n

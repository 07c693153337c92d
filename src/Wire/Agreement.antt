-- ===== src/Wire/Agreement.antt =====
-- Reading from two memories that agree on their first bytes: the readers of raknet_proxy.cpp look
-- at no byte behind the length that their callers test.
use raknet_proxy.Base.{ℕ, zero, suc, ◌+◌, ◌<◌, ◌≤◌, ◌≡◌, refl, Bool, arith}
use raknet_proxy.Wire.{Memory, read_guid_loop, read_big_endian_guid, uin_of_frame, load_u32, slice}

-- The first n bytes are the same.
abbrev pub Agree : ℕ → Memory → Memory → Type 0
Agree n m m' = (i : ℕ) → i < n → m i ≡ m' i

pub slice-Agree :
    (len n i : ℕ) (m m' : Memory) → Agree len m m' → i + n ≤ len → slice m' i n ≡ slice m i n
unfolding slice
slice-Agree len zero i m m' a le = refl
slice-Agree len (suc n) i m m' a le =
    rw (a i (omega arith)) (rw (slice-Agree len n (i + 1) m m' a (omega arith)) refl)

read_guid_loop-Agree :
    (len n i g : ℕ) (m m' : Memory)
    → Agree len m m'
    → i + n ≤ len
    → read_guid_loop n m' i g ≡ read_guid_loop n m i g
unfolding read_guid_loop
read_guid_loop-Agree len zero i g m m' a le = refl
read_guid_loop-Agree len (suc n) i g m m' a le =
    rw (a i (omega arith)) (read_guid_loop-Agree len n (i + 1) _ m m' a (omega arith))

pub read_big_endian_guid-Agree :
    (len i : ℕ) (m m' : Memory)
    → Agree len m m'
    → i + 8 ≤ len
    → read_big_endian_guid m' i ≡ read_big_endian_guid m i
unfolding read_big_endian_guid
read_big_endian_guid-Agree len i m m' a le = read_guid_loop-Agree len 8 i 0 m m' a le

pub load_u32-Agree :
    (b : Bool) (len i : ℕ) (m m' : Memory)
    → Agree len m m'
    → i + 4 ≤ len
    → load_u32 b m' i ≡ load_u32 b m i
unfolding load_u32
load_u32-Agree b len i m m' a le = rw (a i (omega arith)) (
    rw (a (i + 1) (omega arith)) (rw (a (i + 2) (omega arith)) (rw (a (i + 3) (omega arith)) refl)))

pub uin_of_frame-Agree :
    (len : ℕ) (m m' : Memory) → Agree len m m' → 5 ≤ len → uin_of_frame m' ≡ uin_of_frame m
unfolding uin_of_frame
uin_of_frame-Agree len m m' a le =
    rw (a 1 (omega arith))
      (rw (a 2 (omega arith)) (rw (a 3 (omega arith)) (rw (a 4 (omega arith)) refl)))

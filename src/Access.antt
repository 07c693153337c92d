-- ===== src/Access.antt =====
-- Who may connect to a peer of patch/RakPeer.cpp: the security exception list and the password
-- for incoming connections, with the test of it in ParseConnectionRequestPacket. A C string is the
-- list of its bytes before the zero, an `int` is its 32-bit pattern, and none is the null pointer.
-- RakString::IPAddressMatch is a parameter; the mutex is left out.
pub mod Exceptions
pub mod Password
use raknet_proxy.Base.{
  ℕ, zero, suc, ◌+◌, ◌%◌, ◌^◌, Bool, true, false, not, ◌&&◌, List, [], ◌∷◌, ◌++◌, Option, none,
  some, ltb, ◌==◌, if◌then◌else◌, length, take,
}
use raknet_proxy.Bans.{fill_from_last}
use raknet_proxy.Sending.{is_negative, is_positive}

-- AddToSecurityExceptionList
unfoldable pub add_to_security_exception_list : List ℕ → List (List ℕ) → List (List ℕ)
add_to_security_exception_list ip es = es ++ ip ∷ []

module _ (address_match : List ℕ → List ℕ → Bool) where
  -- The loop of RemoveFromSecurityExceptionList, from an index on; the fuel is the number of
  -- entries. The last entry takes the place of one that is removed, and the index stays.
  unfoldable pub remove_matching : ℕ → List ℕ → List (List ℕ) → List (List ℕ)
  remove_matching zero ip es = es
  remove_matching (suc fuel) ip [] = []
  remove_matching (suc fuel) ip (e ∷ es) =
      let rest = remove_matching fuel ip es in
      let filled = remove_matching fuel ip (fill_from_last es) in
      if address_match e ip then filled else e ∷ rest

  -- RemoveFromSecurityExceptionList
  unfoldable pub remove_from_security_exception_list :
      Option (List ℕ) → List (List ℕ) → List (List ℕ)
  remove_from_security_exception_list none es = []
  remove_from_security_exception_list (some ip) es =
      if length es == 0 then es else remove_matching (length es) ip es

  -- The loop of IsInSecurityExceptionList.
  unfoldable pub has_match : List ℕ → List (List ℕ) → Bool
  has_match ip [] = false
  has_match ip (e ∷ es) = let rest = has_match ip es in if address_match e ip then true else rest

  -- IsInSecurityExceptionList
  unfoldable pub is_in_security_exception_list : List ℕ → List (List ℕ) → Bool
  is_in_security_exception_list ip es = if length es == 0 then false else has_match ip es

-- incomingPassword, an array of 256 bytes, and incomingPasswordLength.
pub record IncomingPassword : Type 0 where
  pub bytes : List ℕ
  pub size : ℕ

-- `memcpy` onto an array.
unfoldable pub overwrite : List ℕ → List ℕ → List ℕ
overwrite [] old = old
overwrite (b ∷ bs) [] = []
overwrite (b ∷ bs) (o ∷ old) = b ∷ overwrite bs old

-- `memcmp(a, b, n) == 0`, false where there are fewer bytes.
unfoldable pub same_bytes : ℕ → List ℕ → List ℕ → Bool
same_bytes zero xs ys = true
same_bytes (suc n) [] ys = false
same_bytes (suc n) (x ∷ xs) [] = false
same_bytes (suc n) (x ∷ xs) (y ∷ ys) = x == y && same_bytes n xs ys

-- `if (a > b) a = b` for an `int` a and a b that is not negative.
unfoldable pub at_most : ℕ → ℕ → ℕ
at_most b a = if ltb b a && not (is_negative a) then b else a

-- SetIncomingPassword
unfoldable pub set_incoming_password : Option (List ℕ) → ℕ → IncomingPassword → IncomingPassword
set_incoming_password none n w = record w { size = 0 }
set_incoming_password (some d) n w =
    let size = at_most 255 n in
    record {
      bytes = if is_positive size then overwrite (take size d) w.bytes else w.bytes;
      size = size % 256;
    }

-- GetIncomingPassword: the bytes that it writes to passwordData, and the length. The argument is
-- the length on entry if passwordData is not null.
unfoldable pub get_incoming_password : Option ℕ → IncomingPassword → List ℕ × ℕ
get_incoming_password none w = ([], w.size)
get_incoming_password (some n) w =
    let size = at_most w.size n in (if is_positive size then take size w.bytes else [], size)

-- The test of ParseConnectionRequestPacket, on the bytes behind the fields of the packet.
unfoldable pub has_password : List ℕ → IncomingPassword → Bool
has_password given w = w.size == length given && same_bytes w.size given w.bytes

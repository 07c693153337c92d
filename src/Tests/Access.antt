-- ===== src/Tests/Access.antt =====
-- Who may connect to a peer of patch/RakPeer.cpp: the theorems at concrete data.
use raknet_proxy.Base.{
  ℕ, zero, suc, ◌≡◌, ◌↔◌, refl, true, false, not, ◌&&◌, List, [], ◌∷◌, some, take, arith,
}
use raknet_proxy.Bans.{matches, fill_from_last}
use raknet_proxy.Bans.Laws.{any}
use raknet_proxy.Access.{
  IncomingPassword, has_password, set_incoming_password, get_incoming_password, remove_matching,
  remove_from_security_exception_list, is_in_security_exception_list,
}
use raknet_proxy.Access.Exceptions.{is_in_security_exception_list-remove}
use raknet_proxy.Access.Password.{min, has_password-set_incoming_password}
use raknet_proxy.Tests.Bans.{address, subnet, other}

-- The address, a subnet with it, and another.
abbrev exceptions : List (List ℕ)
exceptions = address ∷ subnet ∷ other ∷ []

removed : remove_from_security_exception_list matches (some address) exceptions ≡ other ∷ []
unfolding remove_from_security_exception_list remove_matching fill_from_last matches
removed = refl

is_in_security_exception_list-remove_example :
    let left = remove_from_security_exception_list matches (some address) exceptions in
    (is_in_security_exception_list matches other left
      ≡ any (λ e. not (matches e address) && matches e other) exceptions)
    × (is_in_security_exception_list matches address left ≡ false)
is_in_security_exception_list-remove_example =
    is_in_security_exception_list-remove matches address other exceptions

abbrev zeros : ℕ → List ℕ
zeros zero = []
zeros (suc n) = 0 ∷ zeros n

abbrev no_password : IncomingPassword
no_password = record { bytes = zeros 256; size = 0 }

abbrev block : List ℕ
block = 7 ∷ 8 ∷ 9 ∷ []

abbrev given : List ℕ
given = 7 ∷ 8 ∷ []

has_password-set_incoming_password_example :
    let w' = set_incoming_password (some block) 2 no_password in
    ((has_password given w' ≡ true) ↔ (given ≡ take (min 255 2) block))
    × (get_incoming_password (some 1) w' ≡ (take (min (min 255 2) 1) block, min (min 255 2) 1))
has_password-set_incoming_password_example =
    has_password-set_incoming_password block 2 1 no_password given (omega arith) (omega arith)
      (omega arith) refl

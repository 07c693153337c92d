-- ===== src/Tests/Bans.antt =====
-- The ban list of patch/RakPeer.cpp: runs, and the theorems at concrete data.
use raknet_proxy.Base.{◌≡◌, refl, true, List, [], ◌∷◌, some, not, ◌&&◌, ℕ}
use raknet_proxy.Bans.{Ban, is_unusable, matches, is_banned, scan, fill_from_last}
use raknet_proxy.Bans.Laws.{any, applies, is_banned_lem}

-- 1.2.3.4 and 1.2.*
abbrev pub address : List ℕ
address = b'1' ∷ b'.' ∷ b'2' ∷ b'.' ∷ b'3' ∷ b'.' ∷ b'4' ∷ []

abbrev pub subnet : List ℕ
subnet = b'1' ∷ b'.' ∷ b'2' ∷ b'.' ∷ b'*' ∷ []

abbrev pub other : List ℕ
other = b'9' ∷ []

-- One ban that expires at 50, and two that do not.
abbrev bans : List Ban
bans =
    record { ip = other; timeout = 50 }
    ∷ record { ip = other; timeout = 0 }
    ∷ record { ip = subnet; timeout = 0 }
    ∷ []

-- The expired entry goes, and the last one takes its place.
is_banned_run :
    is_banned 60 (some address) bans
    ≡ (true, record { ip = subnet; timeout = 0 } ∷ record { ip = other; timeout = 0 } ∷ [])
unfolding is_banned scan fill_from_last matches
is_banned_run = refl

is_banned_lem_example :
    (is_banned 60 (some address) bans).0
    ≡ (not (is_unusable address) && any (applies 60 address) bans)
is_banned_lem_example = is_banned_lem 60 address bans

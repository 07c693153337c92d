-- ===== src/Bans.antt =====
-- The list of banned addresses: patch/RakPeer.cpp, AddToBanList, RemoveFromBanList
-- and IsBanned, with BanStruct of patch/RakPeer.h. A C string is the list of its bytes before the
-- zero, and none is the null pointer. The clock and the width of RakNet::TimeMS are arguments;
-- the mutex and the memory of the entries are left out.
pub mod Laws
use raknet_proxy.Base.{
  ℕ, zero, suc, ◌+◌, ◌%◌, ◌^◌, Bool, true, false, not, ◌&&◌, ◌||◌, List, [], ◌∷◌, ◌++◌, Option,
  none, some, ltb, ◌==◌, if◌then◌else◌, length,
}

-- BanStruct; the timeout 0 stands for none.
pub record Ban : Type 0 where
  pub ip : List ℕ
  pub timeout : ℕ

-- `strcmp(a, b) == 0`
abbrev pub same_text : List ℕ → List ℕ → Bool
same_text [] [] = true
same_text [] (c ∷ cs) = false
same_text (p ∷ ps) [] = false
same_text (p ∷ ps) (c ∷ cs) = p == c && same_text ps cs

-- `IP == 0 || IP[0] == 0 || strlen(IP) > 15`, at a pointer that is not null.
abbrev pub is_unusable : List ℕ → Bool
is_unusable ip = length ip == 0 || ltb 15 (length ip)

-- The timeout of a new or renewed ban.
unfoldable pub expiry : ℕ → ℕ → ℕ → ℕ
expiry width now ms = if ms == 0 then 0 else (now + ms) % 2 ^ width

-- The loop of AddToBanList: an entry that exists is renewed, else one is added at the end.
unfoldable pub renew_or_append : List ℕ → ℕ → List Ban → List Ban
renew_or_append ip t [] = record { ip = ip; timeout = t } ∷ []
renew_or_append ip t (b ∷ bs) =
    if same_text ip b.ip then record b { timeout = t } ∷ bs else b ∷ renew_or_append ip t bs

-- AddToBanList
unfoldable pub add_to_ban_list : ℕ → ℕ → Option (List ℕ) → ℕ → List Ban → List Ban
unfolding renew_or_append
add_to_ban_list width now none ms bans = bans
add_to_ban_list width now (some ip) ms bans =
    if is_unusable ip then bans else renew_or_append ip (expiry width now ms) bans

-- The last of an entry and those behind it, and the others.
abbrev pub last_of {ℓ} : {A : Type ℓ} → A → List A → A
last_of b [] = b
last_of b (c ∷ cs) = last_of c cs

abbrev pub before_last {ℓ} : {A : Type ℓ} → A → List A → List A
before_last b [] = []
before_last b (c ∷ cs) = b ∷ before_last c cs

-- `banList[i] = banList[banList.Size() - 1]; banList.RemoveAtIndex(banList.Size() - 1);`, from the
-- entry i on, of which the argument is what stands behind it.
unfoldable pub fill_from_last {ℓ} : {A : Type ℓ} → List A → List A
fill_from_last [] = []
fill_from_last (b ∷ bs) = last_of b bs ∷ before_last b bs

-- The loop of RemoveFromBanList.
unfoldable pub remove_first : List ℕ → List Ban → List Ban
remove_first ip [] = []
remove_first ip (b ∷ bs) = if same_text ip b.ip then fill_from_last bs else b ∷ remove_first ip bs

-- RemoveFromBanList
unfoldable pub remove_from_ban_list : Option (List ℕ) → List Ban → List Ban
unfolding remove_first
remove_from_ban_list none bans = bans
remove_from_ban_list (some ip) bans = if is_unusable ip then bans else remove_first ip bans

-- The inner loop of IsBanned, on an entry's text and the address.
unfoldable pub matches : List ℕ → List ℕ → Bool
matches [] [] = true
matches [] (c ∷ cs) = false
matches (p ∷ ps) [] = false
matches (p ∷ ps) (c ∷ cs) = let rest = matches ps cs in if p == c then rest else p == b'*'

-- `timeout > 0 && timeout < time`
abbrev pub is_expired : ℕ → Ban → Bool
is_expired now b = ltb 0 b.timeout && ltb b.timeout now

-- The outer loop of IsBanned, from an index on; the fuel is the number of entries. An expired
-- entry is deleted, and the index stays.
unfoldable pub scan : ℕ → ℕ → List ℕ → List Ban → Bool × List Ban
scan zero now ip bans = (false, bans)
scan (suc fuel) now ip [] = (false, [])
scan (suc fuel) now ip (b ∷ bs) =
    let (r, bs') = scan fuel now ip bs in
    let filled = scan fuel now ip (fill_from_last bs) in
    if is_expired now b then filled else if matches b.ip ip then (true, b ∷ bs) else (r, b ∷ bs')

-- IsBanned: the answer, and the list without the entries that it deleted.
unfoldable pub is_banned : ℕ → Option (List ℕ) → List Ban → Bool × List Ban
is_banned now none bans = (false, bans)
is_banned now (some ip) bans =
    if is_unusable ip then (false, bans) else scan (length bans) now ip bans

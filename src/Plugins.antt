-- ===== src/Plugins.antt =====
-- The plugins of patch/RakPeer.cpp: AttachPlugin and DetachPlugin. A plugin is a number that stands
-- for its pointer, UsesReliabilityLayer is a parameter, and `calls` are the calls of the plugins in
-- order.
pub mod Attached
use raknet_proxy.Base.{
  ℕ, ◌≡◌, Bool, true, false, List, [], ◌∷◌, ◌++◌, Option, none, some, ◌==◌, if◌then◌else◌,
}
use raknet_proxy.Bans.{fill_from_last}

pub data Call : Type 0 where
  set_rak_peer_interface : ℕ → Bool → Call
  on_attach : ℕ → Call
  on_detach : ℕ → Call

-- pluginListNTS and pluginListTS.
pub record Plugins : Type 0 where
  pub not_threadsafe : List ℕ
  pub threadsafe : List ℕ
  pub calls : List Call

-- `GetIndexOf(plugin) != MAX_UNSIGNED_LONG`
unfoldable pub is_listed : ℕ → List ℕ → Bool
is_listed p [] = false
is_listed p (q ∷ qs) = let rest = is_listed p qs in if q == p then true else rest

-- The last plugin takes the place of the first entry that is this one, if there is any.
unfoldable pub remove_plugin : ℕ → List ℕ → List ℕ
remove_plugin p [] = []
remove_plugin p (q ∷ qs) =
    let rest = remove_plugin p qs in if q == p then fill_from_last qs else q ∷ rest

module _ (uses_reliability_layer : ℕ → Bool) where
  -- AttachPlugin
  unfoldable pub attach_plugin : ℕ → Plugins → Plugins
  attach_plugin p s =
      let attached = s.calls ++ set_rak_peer_interface p true ∷ on_attach p ∷ [] in
      if uses_reliability_layer p
      then (if is_listed p s.not_threadsafe
          then s
          else record s { not_threadsafe = s.not_threadsafe ++ p ∷ []; calls = attached })
      else if is_listed p s.threadsafe
      then s
      else record s { threadsafe = s.threadsafe ++ p ∷ []; calls = attached }

  -- DetachPlugin
  unfoldable pub detach_plugin : Option ℕ → Plugins → Plugins
  detach_plugin none s = s
  detach_plugin (some p) s =
      let detached = s.calls ++ on_detach p ∷ set_rak_peer_interface p false ∷ [] in
      if uses_reliability_layer p
      then record s { not_threadsafe = remove_plugin p s.not_threadsafe; calls = detached }
      else record s { threadsafe = remove_plugin p s.threadsafe; calls = detached }

-- ===== src/Tests/Plugins.antt =====
-- The plugins of patch/RakPeer.cpp: the theorems at concrete data.
use raknet_proxy.Base.{ℕ, ◌≡◌, refl, Bool, not, ◌&&◌, List, [], ◌∷◌, some, none, ◌==◌}
use raknet_proxy.Bans.{fill_from_last}
use raknet_proxy.Plugins.{is_listed, remove_plugin, attach_plugin, detach_plugin}
use raknet_proxy.Plugins.Attached.{
  Operation, attach, detach, count, one_if, is_attached, run, run-is_attached,
}

-- The first plugin is threadsafe.
abbrev uses_reliability_layer : ℕ → Bool
uses_reliability_layer p = not (p == 1)

-- Three plugins, one of them twice, and then the second goes; the newest call stands first.
abbrev operations : List Operation
operations =
    detach none ∷ detach (some 2) ∷ attach 4 ∷ attach 2 ∷ attach 3 ∷ attach 2 ∷ attach 1 ∷ []

runs :
    ((run uses_reliability_layer operations).not_threadsafe ≡ 4 ∷ 3 ∷ [])
    × ((run uses_reliability_layer operations).threadsafe ≡ 1 ∷ [])
unfolding attach_plugin detach_plugin is_listed remove_plugin fill_from_last
runs = (refl, refl)

run-is_attached_example :
    let uses = uses_reliability_layer 4 in
    (count 4 (run uses_reliability_layer operations).not_threadsafe
      ≡ one_if (uses && is_attached 4 operations))
    × (count 4 (run uses_reliability_layer operations).threadsafe
        ≡ one_if (not uses && is_attached 4 operations))
run-is_attached_example = run-is_attached uses_reliability_layer operations 4

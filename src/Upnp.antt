-- ===== src/Upnp.antt =====
-- The port mapping: raknet_proxy.cpp, AddUPnPPortMapping and RemoveUPnPPortMapping with the
-- globals g_upnpDevlist and g_upnpInitialized. The answers of miniupnpc are arguments: whether
-- upnpDiscover finds a device, whether UPNP_GetValidIGD gives a positive number (it then fills
-- g_upnpUrls), and whether UPNP_AddPortMapping and UPNP_DeletePortMapping give 0.
pub mod Laws
use raknet_proxy.Base.{ℕ, Bool, true, false, List, [], ◌∷◌, if◌then◌else◌}

pub data UpnpCall : Type 0 where
  discover : Bool → UpnpCall
  get_valid_igd : Bool → UpnpCall
  map_port : ℕ → Bool → UpnpCall
  unmap_port : ℕ → Bool → UpnpCall
  free_urls : UpnpCall
  free_devlist : UpnpCall

pub record Upnp : Type 0 where
  -- Whether g_upnpDevlist is not null.
  pub devlist : Bool
  pub initialized : Bool
  pub calls : List UpnpCall

pub record Answers : Type 0 where
  pub finds_device : Bool
  pub has_igd : Bool
  pub maps : Bool
  pub unmaps : Bool

-- The globals at the start.
abbrev pub initial : Upnp
initial = record { devlist = false; initialized = false; calls = [] }

-- The last lines of both functions: `if (g_upnpDevlist) { freeUPNPDevlist(…); … = NULL; }`
release_devlist : Upnp → Upnp
release_devlist u =
    if u.devlist then record u { devlist = false; calls = free_devlist ∷ u.calls } else u

-- UPNP_AddPortMapping and what follows it.
map_found : Answers → ℕ → Upnp → Bool × Upnp
unfolding release_devlist
map_found a port u =
    if a.maps
    then (true, record u { initialized = true; calls = map_port port true ∷ u.calls })
    else (false, release_devlist (record u { calls = free_urls ∷ map_port port false ∷ u.calls }))

-- UPNP_GetValidIGD and what follows it.
use_device : Answers → ℕ → Upnp → Bool × Upnp
unfolding map_found
use_device a port u =
    if a.has_igd
    then map_found a port (record u { calls = get_valid_igd true ∷ u.calls })
    else (false, record u { devlist = false; calls = free_devlist ∷ get_valid_igd false ∷ u.calls })

-- AddUPnPPortMapping
unfoldable pub add_upnp_port_mapping : Answers → ℕ → Upnp → Bool × Upnp
unfolding use_device
add_upnp_port_mapping a port u =
    let u' = record u { devlist = a.finds_device; calls = discover a.finds_device ∷ u.calls } in
    if a.finds_device then use_device a port u' else (false, u')

-- RemoveUPnPPortMapping. What UPNP_DeletePortMapping answers is not looked at.
unfoldable pub remove_upnp_port_mapping : Answers → ℕ → Upnp → Upnp
unfolding release_devlist
remove_upnp_port_mapping a port u =
    if u.initialized
    then record (release_devlist
        (record u { calls = free_urls ∷ unmap_port port a.unmaps ∷ u.calls })) {
          initialized = false;
        }
    else u

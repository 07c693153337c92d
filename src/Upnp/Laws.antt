-- ===== src/Upnp/Laws.antt =====
-- What the two functions hold of miniupnpc's memory and of the router's mappings.
use raknet_proxy.Base.{
  ℕ, zero, suc, ◌+◌, ◌-◌, ◌≡◌, Bool, true, false, List, [], ◌∷◌, if◌then◌else◌, ◌==◌, ◌&&◌, not,
  arith,
}
use raknet_proxy.Upnp.{
  UpnpCall, discover, get_valid_igd, map_port, unmap_port, free_urls, free_devlist, Answers,
  initial, add_upnp_port_mapping, remove_upnp_port_mapping,
}

-- What a sequence of calls (the newest first) has allocated and not freed, and what it has freed
-- in vain; `mapped` are the ports that it has mapped on the router.
pub record Held : Type 0 where
  pub devlists : ℕ
  pub urls : ℕ
  pub mapped : List ℕ
  pub double_frees : ℕ

abbrev pub count_if : Bool → ℕ → ℕ
count_if true n = n + 1
count_if false n = n

abbrev pub free_one : ℕ → ℕ → ℕ
free_one zero faults = faults + 1
free_one (suc n) faults = faults

abbrev pub without : ℕ → List ℕ → List ℕ
without p [] = []
without p (q ∷ qs) = let rest = without p qs in if q == p then rest else q ∷ rest

abbrev pub after : UpnpCall → Held → Held
after (discover b) r = record r { devlists = count_if b r.devlists }
after (get_valid_igd b) r = record r { urls = count_if b r.urls }
after (map_port p b) r = record r { mapped = if b then p ∷ r.mapped else r.mapped }
after (unmap_port p b) r = record r { mapped = if b then without p r.mapped else r.mapped }
after free_urls r = record r { urls = r.urls - 1; double_frees = free_one r.urls r.double_frees }
after free_devlist r = record r {
  devlists = r.devlists - 1;
  double_frees = free_one r.devlists r.double_frees;
}

abbrev pub held : List UpnpCall → Held
held [] = record { devlists = 0; urls = 0; mapped = []; double_frees = 0 }
held (c ∷ cs) = after c (held cs)

abbrev pub nothing_held : Held
nothing_held = record { devlists = 0; urls = 0; mapped = []; double_frees = 0 }

-- Called first, AddUPnPPortMapping reports success exactly if all three answers are good. It then
-- holds one device list, one set of URLs and one mapping; after a failure it holds nothing. In
-- no case does it free what is not allocated.
pub held-add_upnp_port_mapping :
    (a : Answers) (port : ℕ)
    → let r = add_upnp_port_mapping a port initial in
      (r.1.initialized ≡ r.0)
      × (r.1.devlist ≡ r.0)
      × (held r.1.calls ≡ (
          if r.0
          then record { devlists = 1; urls = 1; mapped = port ∷ []; double_frees = 0 }
          else nothing_held))
unfolding add_upnp_port_mapping
held-add_upnp_port_mapping a port = ground arith

-- After AddUPnPPortMapping and RemoveUPnPPortMapping of a port, as main calls them: no memory of
-- miniupnpc is held, nothing was freed twice, and the globals are as at the start. The port is
-- still mapped on the router exactly if the mapping succeeded and UPNP_DeletePortMapping failed;
-- no other port is.
pub held-remove_upnp_port_mapping :
    (a : Answers) (port : ℕ)
    → let u = remove_upnp_port_mapping a port (add_upnp_port_mapping a port initial).1 in
      (held u.calls ≡ record nothing_held {
        mapped =
            if a.finds_device && (a.has_igd && (a.maps && not a.unmaps)) then port ∷ [] else [];
      })
      × (u.initialized ≡ false)
      × (u.devlist ≡ false)
unfolding add_upnp_port_mapping remove_upnp_port_mapping
held-remove_upnp_port_mapping a port = ground arith

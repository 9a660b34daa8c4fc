-- ===== src/Bgp/Start/FilterFails.antt =====
-- The speaker starts with or without its import filter.
use gouter.Base.{
  string_eq, ℕ, ◌≡◌, refl, subst, Bool, true, false, Option, some, none, String, ◌==◌,
}
use gouter.Bgp.Server.{
  World, Call, start_bgp, add_defined_set, add_policy, add_policy_assignment, add_peer, add_path,
  add_ls_path, watch_best_path, imports, call,
}
use gouter.Bgp.Server.Actions.{
  Alike, Agree, Agree-bind, Agree-then, Agree-or_fail, Agree-call, Agree-logged, Agree-for_each,
  Agree-Quiet,
}
use gouter.Netip.{Addr}
use gouter.Bgp.Proxy.{ProxyManager, PeerProxy, create_proxy, start_inbound}
use gouter.Bgp.Filter.Fails.{setup_filter-Quiet}
use gouter.Bgp.Export.Agreement.{add_local_route-Agree, add_ls_routes-Agree}
use gouter.Bgp.Start.{
  Env, SpeakerConfig, PeerConfig, set_proxies, make_proxy, open_inbound, add_configured_peer,
  setup_global_nexthop, add_route, add_ls, start_peers, start_on, start, get_available_port,
  ended_proxy, ended_inbound,
}

-- The calls that set the import filter up.
pub is_filter_call : Call → Bool
is_filter_call (add_defined_set name entries) = true
is_filter_call (add_policy name statements) = name == "import-filter"
is_filter_call (add_policy_assignment imports name act) = true
is_filter_call _ = false

ended_proxy-Alike :
    (w w' : World) (r : ProxyManager × Option PeerProxy)
    → Alike (ended_proxy w r) (ended_proxy w' r)
ended_proxy-Alike w w' (pm, none) = record { ending = refl; proxies = refl }
ended_proxy-Alike w w' (pm, some proxy) = record { ending = refl; proxies = refl }

ended_inbound-Alike :
    (w w' : World) (r : ProxyManager × Bool) → Alike (ended_inbound w r) (ended_inbound w' r)
ended_inbound-Alike w w' (pm, true) = record { ending = refl; proxies = refl }
ended_inbound-Alike w w' (pm, false) = record { ending = refl; proxies = refl }

module _ (env : Env) (cfg : SpeakerConfig) (accepts : Call → Bool)
    (same : (c : Call) → is_filter_call c ≡ false → env.accepts c ≡ accepts c) where
  abbrev env' : Env
  env' = record env { accepts = accepts }

  answered : (c : Call) → is_filter_call c ≡ false → Agree (call env.accepts c) (call accepts c)
  answered c h = Agree-call env.accepts accepts c (same c h)

  -- An action that asks the server nothing.
  set_proxies-Agree : (pm : ProxyManager) → Agree (set_proxies pm) (set_proxies pm)
  unfolding set_proxies
  set_proxies-Agree pm w w' e = record { ending = refl; proxies = refl }

  make_proxy-Agree :
      (name : String) (a : Addr) (port : ℕ)
      → Agree (make_proxy env.listens name a port) (make_proxy env.listens name a port)
  unfolding make_proxy
  make_proxy-Agree name a port w w' e =
      let made =
        λ (pm : ProxyManager). create_proxy pm name a port (env.listens pm.next_ip pm.next_port) in
      subst (λ pm. Alike (ended_proxy w (made w.proxies)) (ended_proxy w' (made pm))) e
        (ended_proxy-Alike w w' (made w.proxies))

  open_inbound-Agree : (l : Option (ℕ × Option ℕ)) → Agree (open_inbound l) (open_inbound l)
  unfolding open_inbound
  open_inbound-Agree l w w' e =
      subst
        (λ pm.
          Alike (ended_inbound w (start_inbound w.proxies l))
            (ended_inbound w' (start_inbound pm l)))
        e (ended_inbound-Alike w w' (start_inbound w.proxies l))

  add_configured_peer-Agree :
      (p : PeerConfig) → Agree (add_configured_peer env cfg p) (add_configured_peer env' cfg p)
  unfolding add_configured_peer is_filter_call
  add_configured_peer-Agree p =
      Agree-bind _ _ _ _ (Agree-or_fail (env.parse_addr p.address)) (λ a.
        Agree-bind _ _ _ _ (make_proxy-Agree p.name a _) (λ proxy. answered (add_peer _) refl))

  start_peers-Agree : Agree (start_peers env cfg) (start_peers env' cfg)
  unfolding start_peers add_route add_ls is_filter_call
  start_peers-Agree = Agree-then _ _ _ _ (Agree-for_each cfg.peers _ _ add_configured_peer-Agree) (
      Agree-then _ _ _ _ (open_inbound-Agree env.listens_inbound) (
        Agree-then _ _ _ _
          (Agree-for_each cfg.export_routes _ _ (λ r. Agree-logged _ _ (
            add_local_route-Agree env.parse_addr env.parse_prefix env.nlri_made env.next_hop_made
              env.accepts accepts (λ p. same (add_path p) refl) r)))
          (Agree-then _ _ _ _
            (Agree-for_each cfg.ls_links _ _ (λ l. Agree-logged _ _ (
              add_ls_routes-Agree env.parse_addr env.parse_prefix env.nlri_made env.next_hop_made
                env.accepts accepts (λ n a. same (add_ls_path n a) refl) cfg.asn cfg.router_id l)))
            (answered watch_best_path refl))))

  setup_global_nexthop-Agree : Agree (setup_global_nexthop env cfg) (setup_global_nexthop env' cfg)
  unfolding setup_global_nexthop is_filter_call
  setup_global_nexthop-Agree =
      Agree-then _ _ _ _ (Agree-logged _ _ (answered _ refl)) (answered _ refl)

  start_on-Agree : (port : ℕ) → Agree (start_on env cfg port) (start_on env' cfg port)
  unfolding start_on is_filter_call
  start_on-Agree port = Agree-then _ _ _ _ (set_proxies-Agree _) (
      Agree-then _ _ _ _ (answered (start_bgp _ _ _ _) refl) (
        Agree-then _ _ _ _
          (Agree-Quiet _ _ (setup_filter-Quiet env.parse_prefix env.accepts cfg.import_filter)
            (setup_filter-Quiet env.parse_prefix accepts cfg.import_filter))
          (Agree-then _ _ _ _ (Agree-logged _ _ setup_global_nexthop-Agree) start_peers-Agree)))

  -- With two servers that differ at most in how they answer the calls that set the import filter up,
  -- the speaker starts, fails or panics alike, with the same proxies, so a filter that the
  -- server refuses does not keep it from starting.
  pub start-Alike : (w : World) → Alike (start env cfg w) (start env' cfg w)
  unfolding start
  start-Alike w =
      Agree-bind _ _ _ _ (Agree-or_fail (get_available_port env.free_port)) start_on-Agree w w refl

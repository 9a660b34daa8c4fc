-- ===== src/Bgp/Export.antt =====
-- internal/bgp/speaker.go: the routes that the router itself gives to BGP: those of its configuration
-- and its link-state links.
pub mod Agreement
pub mod Learnt
pub mod Delivered
use gouter.Base.{
  string_eq, ℕ, ◌/◌, ◌^◌, Bool, true, false, List, [], ◌∷◌, Option, none, some, String,
  if◌then◌else◌, ltb,
}
use gouter.Netip.{Addr, invalid, v4, v6, Prefix}
use gouter.Config.{RouteConfig}
use gouter.Bgp.Paths.{
  BestPath, Nlri, ip_prefix, labelled, next_hop, other_attribute, ipv4_uc, ipv4_mpls,
}
use gouter.Bgp.Server.{
  LsNode, LsNlri, ls_node, ls_link, Call, add_path, add_ls_path, Action, pure, fail, panic, or_fail,
  or_panic, ◌>>=◌, ◌>>◌, call,
}

-- The path of a route with its label, if it has one; 0 is none. The family is one of IPv4.
pub exported_path : Prefix → Addr → ℕ → BestPath
exported_path prefix nh in_label = record {
  family = if ltb 0 in_label then ipv4_mpls else ipv4_uc;
  nlri = if ltb 0 in_label then labelled prefix (in_label ∷ []) else ip_prefix prefix;
  attrs = other_attribute ∷ next_hop nh ∷ [];
  withdrawal = false;
}

-- `binary.BigEndian.Uint32` of the bytes of an address; the zero value has none, and the index
-- panics.
pub uint32_of : Addr → Option ℕ
uint32_of invalid = none
uint32_of (v4 a) = some a
uint32_of (v6 a z) = some (a / 2 ^ 96)

-- A link-state link of the configuration; the metric and the segment id are not advertised.
pub record LsLink : Type 0 where
  pub local_addr : Addr
  pub peer_addr : Addr
  pub remote_router_id : String
  pub remote_asn : ℕ
  pub metric : ℕ
  pub adj_sid : ℕ

-- The parsers of `net/netip`, and gobgp's constructors of an NLRI and of a next hop, which may fail,
-- are parameters, and so is what the server accepts.
module _ (parse_addr : String → Option Addr) (parse_prefix : String → Option Prefix)
    (nlri_made : Nlri → Bool) (next_hop_made : Addr → Bool) (accepts : Call → Bool) where
  pub add_exported : Prefix → Addr → ℕ → Action (Unit {0})
  add_exported prefix nh in_label =
      let p = exported_path prefix nh in_label in
      if nlri_made p.nlri
      then (if next_hop_made nh then call accepts (add_path p) else fail)
      else fail

  pub add_local_route : RouteConfig → Action (Unit {0})
  add_local_route r = do
    prefix ← or_fail (parse_prefix r.prefix)
    nh ← or_fail (parse_addr r.next_hop)
    add_exported prefix nh r.in_label

  -- `netip.ParseAddr` with its error dropped.
  abbrev pub addr_or_zero : String → Addr
  addr_or_zero s = elim (parse_addr s) [ none ↦ invalid | some a ↦ a ]

  -- The next hop is the router's id, with `MustParseAddr`.
  pub add_ls_path_of : String → LsNlri → Action (Unit {0})
  add_ls_path_of router_id nlri = do
    nh ← or_panic (parse_addr router_id)
    call accepts (add_ls_path nlri nh)

  pub add_ls_routes : ℕ → String → LsLink → Action (Unit {0})
  add_ls_routes asn router_id ls = do
    id ← or_panic (uint32_of (addr_or_zero router_id))
    let node : LsNode = record { asn = asn; bgp_ls_id = id; igp_router_id = router_id }
    add_ls_path_of router_id (ls_node node)
    remote_id ← or_panic (uint32_of (addr_or_zero ls.remote_router_id))
    let remote : LsNode = record {
      asn = ls.remote_asn;
      bgp_ls_id = remote_id;
      igp_router_id = ls.remote_router_id;
    }
    add_ls_path_of router_id (ls_link node remote ls.local_addr ls.peer_addr)

-- ===== src/Bgp/Server.antt =====
-- The BGP server as internal/bgp uses it: gobgp's, so each call is a value, and what it answers is a
-- parameter. An action of the speaker makes calls and proxies, and ends, fails or panics.
pub mod Actions
use gouter.Base.{
  ℕ, ◌≡◌, Bool, true, false, List, [], ◌∷◌, ◌++◌, Option, none, some, String, if◌then◌else◌,
}
use gouter.Netip.{Addr, Prefix}
use gouter.Bgp.Families.{Family}
use gouter.Bgp.Paths.{BestPath}
use gouter.Bgp.Proxy.{ProxyManager}

-- `api.Prefix`: a prefix set's entry, with the least and the greatest length of a match.
pub record PrefixEntry : Type 0 where
  pub ip_prefix : String
  pub mask_length_min : ℕ
  pub mask_length_max : ℕ

pub data RouteAction : Type 0 where
  accept reject : RouteAction

-- A statement of a policy: the prefix set that it asks for, the action, and the next hop it sets.
pub record Statement : Type 0 where
  pub name : String
  pub prefix_set : Option String
  pub route_action : Option RouteAction
  pub next_hop : Option String

pub data Direction : Type 0 where
  imports exports : Direction

pub record Peer : Type 0 where
  pub neighbor_address : Addr
  pub peer_asn : ℕ
  pub local_asn : ℕ
  pub remote_port : ℕ
  pub passive_mode : Bool
  pub connect_retry : ℕ
  pub afi_safis : List Family
  pub restart_time : Option ℕ
  pub route_reflector : Option String

-- A link-state node, and a link-state NLRI: a node, or a link of two nodes.
pub record LsNode : Type 0 where
  pub asn : ℕ
  pub bgp_ls_id : ℕ
  pub igp_router_id : String

pub data LsNlri : Type 0 where
  ls_node : LsNode → LsNlri
  ls_link : LsNode → LsNode → Addr → Addr → LsNlri

pub data Call : Type 0 where
  start_bgp : ℕ → String → ℕ → List String → Call
  add_defined_set : String → List PrefixEntry → Call
  add_policy : String → List Statement → Call
  add_policy_assignment : Direction → String → RouteAction → Call
  add_peer : Peer → Call
  add_path : BestPath → Call
  add_ls_path : LsNlri → Addr → Call
  watch_best_path : Call

pub record World : Type 0 where
  pub proxies : ProxyManager
  pub calls : List Call

pub data Ended (A : Type 0) : Type 0 where
  ok : A → Ended A
  failed : Ended A
  panicked : Ended A

abbrev pub Action : Type 0 → Type 0
Action A = World → Ended A × World

module _ {A : Type 0} where
  abbrev pub pure : A → Action A
  pure a w = (ok a, w)

  abbrev pub fail : Action A
  fail w = (failed, w)

  abbrev pub panic : Action A
  panic w = (panicked, w)

  abbrev pub or_fail : Option A → Action A
  or_fail none w = (failed, w)
  or_fail (some a) w = (ok a, w)

  abbrev pub or_panic : Option A → Action A
  or_panic none w = (panicked, w)
  or_panic (some a) w = (ok a, w)

abbrev pub bind_ended : {A B : Type 0} → Ended A × World → (A → Action B) → Ended B × World
bind_ended (ok a, w) f = f a w
bind_ended (failed, w) f = (failed, w)
bind_ended (panicked, w) f = (panicked, w)

infixl 5 ◌>>=◌ ◌>>◌
abbrev pub ◌>>=◌ : {A B : Type 0} → Action A → (A → Action B) → Action B
◌>>=◌ m f w = bind_ended (m w) f

abbrev pub ◌>>◌ : {A B : Type 0} → Action A → Action B → Action B
m >> k = m >>= λ _. k

abbrev pub log_failed : Ended (Unit {0}) × World → Ended (Unit {0}) × World
log_failed (ok a, w) = (ok a, w)
log_failed (failed, w) = (ok tt, w)
log_failed (panicked, w) = (panicked, w)

-- An action whose error is only logged.
abbrev pub logged : Action (Unit {0}) → Action (Unit {0})
logged m w = log_failed (m w)

-- `for`, which stops at the first error.
pub for_each : {A : Type 0} → List A → (A → Action (Unit {0})) → Action (Unit {0})
for_each [] f = pure tt
for_each (a ∷ rest) f = f a >> for_each rest f

-- `accepts` tells which calls the server takes without an error.
module _ (accepts : Call → Bool) where
  pub call : Call → Action (Unit {0})
  call c w =
      let w' = record w { calls = w.calls ++ (c ∷ []) } in (if accepts c then ok tt else failed, w')

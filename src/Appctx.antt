-- ===== src/Appctx.antt =====
-- internal/appctx/ac.go: the parts of the program, wired together. The speaker is put in later.
pub mod Quiet
pub mod Program
use gouter.Base.{Option, none, some}
use gouter.Config.{Config, ipv6_enabled}
use gouter.Mpls.Lfib.{Lfib, new_lfib}
use gouter.Netstack.Manager.{Manager, Calls, new_manager}
use gouter.Netstack.Forward.{ForwardManager, new_forward_manager}
use gouter.Router.Fib.{Fib, new_fib}
use gouter.Router.Nexthop.{NexthopResolver, new_nexthop_resolver}
use gouter.Router.Packets.{Router, new_router}
use gouter.Bgp.Paths.{Speaker}

pub record AppContext (S : Type 0) : Type 0 where
  pub config : Config
  pub netstack : Manager S
  pub fib : Fib
  pub nexthop : NexthopResolver
  pub lfib : Lfib
  pub router : Router S
  pub bgp_speaker : Option Speaker
  pub forward_manager : ForwardManager

-- `New`, with the new stack of gVisor as a parameter.
unfoldable pub new_app_context : {S : Type 0} → Calls S → S → Config → AppContext S
new_app_context calls stack cfg =
    let ns = new_manager stack (ipv6_enabled cfg) in
    let nexthop = new_nexthop_resolver new_fib in
    record {
      config = cfg;
      netstack = ns;
      fib = new_fib;
      nexthop = nexthop;
      lfib = new_lfib;
      router = new_router calls new_fib nexthop ns (some new_lfib);
      bgp_speaker = none;
      forward_manager = new_forward_manager;
    }

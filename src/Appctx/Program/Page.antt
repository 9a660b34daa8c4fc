-- ===== src/Appctx/Program/Page.antt =====
-- What the program at work shows of its routes over HTTP.
use gouter.Base.{string_eq, ◌≡◌, sym, ap, subst, ◌∙◌, List, ◌∷◌, Option, some, String, Bool, length}
use gouter.Config.{Config}
use gouter.Netip.{Addr, Prefix}
use gouter.Netstack.Manager.{Calls}
use gouter.Router.Fib.{has_exact, list}
use gouter.Router.Fib.Table.{IsValid}
use gouter.Router.Packets.{Outcome}
use gouter.Appctx.{AppContext}
use gouter.Appctx.Program.{Program, start, Event, run}
use gouter.Appctx.Program.Steps.{fib-IsValid}
use gouter.Appctx.Program.Convergence.{left_by, ended}
use gouter.Http.{Line, fib_routes, HostInfo, routes_page}
use gouter.Http.Routes.{shown_at, entry_shown, routes_page-lists}

-- After any run of a program whose own router id parses, the page of the routes counts the routes of
-- the table and shows for each prefix one line with the next hop and the transport of the entry that
-- the best paths left there, or no line where they left none.
pub routes_page-run :
    {S : Type 0} (calls : Calls S) (stack : S) (cfg : Config) (router_id : String)
    (resolve_nh : Option (Addr → String × Bool)) (parse_addr : String → Option Addr) (self : Addr)
    (es : List Event) (p : Program S) (outs : List Outcome) (info : HostInfo) (ac : AppContext S)
    → parse_addr router_id ≡ some self
    → run calls parse_addr (start calls stack cfg router_id resolve_nh) es ≡ some (p, outs)
    → ac.fib ≡ p.router.fib
    → (lines : List Line) × (routes_page info ac ≡ fib_routes (length (list ac.fib)) ∷ lines)
      × ((q : Prefix)
          → shown_at q lines
            ≡ entry_shown (left_by calls stack cfg router_id resolve_nh parse_addr self es q))
routes_page-run calls stack cfg router_id resolve_nh parse_addr self es p outs info ac known e
      same =
    let (s, at, _) = ended calls stack cfg router_id resolve_nh parse_addr self es p outs known e in
    let (lines, page, shown) =
      routes_page-lists info ac (subst IsValid (sym same) (fib-IsValid p s)) in
    (lines, page, λ q. shown q ∙ ap (λ f. entry_shown (has_exact f q)) same ∙ ap entry_shown (at q))

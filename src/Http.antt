-- ===== src/Http.antt =====
-- internal/http_server/http_server.go: the two pages, as the calls of `Fprint` and `Fprintf` that
-- write them, with their arguments. How a verb prints its argument is left to package fmt.
pub mod Routes
use gouter.Base.{ℕ, List, [], ◌∷◌, ◌++◌, Option, none, some, String, ltb, if◌then◌else◌, length}
use gouter.Netip.{Addr, Prefix}
use gouter.Router.Fib.{FibEntry, list}
use gouter.Appctx.{AppContext}

-- What one call writes: the banner, the dashes below it, and the lines with what they show. Only
-- `fib_routes` ends without a newline.
pub data Line : Type 0 where
  banner dashes : Line
  host : String → Line
  platform : String → String → Line
  asn : ℕ → Line
  routes : ℕ → Line
  fib_routes : ℕ → Line
  route : Prefix → Addr → String → Line

-- The host of the program: its name, an error of which is dropped, and its platform.
pub record HostInfo : Type 0 where
  pub hostname : Option String
  pub goos : String
  pub goarch : String

abbrev pub name_of : Option String → String
name_of none = ""
name_of (some name) = name

-- The loop of the page over the routes.
unfoldable pub route_lines : List FibEntry → List Line
route_lines [] = []
route_lines (r ∷ rs) = route r.prefix r.next_hop r.transport ∷ route_lines rs

module _ {S : Type 0} where
  unfoldable pub root_page : HostInfo → AppContext S → List Line
  root_page info ac =
      let number = ac.config.bgp.asn in
      banner
      ∷ dashes
      ∷ host (name_of info.hostname)
      ∷ platform info.goos info.goarch
      ∷ ((if ltb 0 number then asn number ∷ [] else []) ++ (routes (length (list ac.fib)) ∷ []))

  unfoldable pub routes_page : HostInfo → AppContext S → List Line
  routes_page info ac = fib_routes (length (list ac.fib)) ∷ route_lines (list ac.fib)

  -- The patterns that are registered, each with the page that it shows of the context as it is then.
  pub create_http_server : List (String × (HostInfo → AppContext S → List Line))
  create_http_server = ("/", root_page) ∷ ("/routes", routes_page) ∷ []

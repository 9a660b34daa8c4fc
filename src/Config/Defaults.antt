-- ===== src/Config/Defaults.antt =====
-- What a loaded configuration can be relied on for.
use gouter.Base.{
  nat_eq, ℕ, zero, suc, ℤ, pos, negsuc, ◌≡◌, ◌≢◌, ◌⊎◌, inl, inr, true, refl, ap, ap₂, Bool, List,
  [], ◌∷◌, Option, none, some, All,
}
use gouter.Config.{
  WireGuardConf, LinkConfig, WgLinkConfig, Config, default_to, set_wire_guard, set_link, set_links,
  set_ipv6, set_defaults,
}

-- The MTU of a WireGuard link is not zero.
pub HasMtu : Option WgLinkConfig → Type 0
HasMtu none = Unit
HasMtu (some w) = w.mtu ≢ pos 0

pub record IsComplete (cfg : Config) : Type 0 where
  pub port : cfg.netstack.http_port ≢ pos 0
  pub family : cfg.ipv6 ≢ none
  pub tunnels : All (λ w. w.mtu ≢ pos 0) cfg.wire_guard
  pub links : All (λ l. HasMtu l.wg) cfg.links

default_to-nonzero : (d : ℕ) (n : ℤ) → default_to (suc d) n ≢ pos 0
default_to-nonzero d (pos zero) = λ h. cc h
default_to-nonzero d (pos (suc n)) = λ h. cc h
default_to-nonzero d (negsuc n) = λ h. cc h

default_again : (d : ℕ) (n : ℤ) → default_to d (default_to d n) ≡ default_to d n
default_again zero (pos zero) = refl
default_again (suc d) (pos zero) = refl
default_again d (pos (suc n)) = refl
default_again d (negsuc n) = refl

set_wire_guard-mtu : (ws : List WireGuardConf) → All (λ w. w.mtu ≢ pos 0) (set_wire_guard ws)
unfolding set_wire_guard
set_wire_guard-mtu [] = tt
set_wire_guard-mtu (w ∷ ws) = (default_to-nonzero 1419 w.mtu, set_wire_guard-mtu ws)

set_link-HasMtu :
    (l : LinkConfig) (wg : Option WgLinkConfig) → HasMtu (set_link (record l { wg = wg })).wg
unfolding set_link HasMtu
set_link-HasMtu l none = tt
set_link-HasMtu l (some w) = default_to-nonzero 1419 w.mtu

set_links-HasMtu : (ls : List LinkConfig) → All (λ l. HasMtu l.wg) (set_links ls)
unfolding set_links
set_links-HasMtu [] = tt
set_links-HasMtu (l ∷ ls) = (set_link-HasMtu l l.wg, set_links-HasMtu ls)

set_wire_guard_again :
    (ws : List WireGuardConf) → set_wire_guard (set_wire_guard ws) ≡ set_wire_guard ws
unfolding set_wire_guard
set_wire_guard_again [] = refl
set_wire_guard_again (w ∷ ws) =
    ap₂ (λ m rest. record w { mtu = m } ∷ rest) (default_again 1420 w.mtu) (set_wire_guard_again ws)

set_link_again :
    (l : LinkConfig) (wg : Option WgLinkConfig)
    → set_link (set_link (record l { wg = wg })) ≡ set_link (record l { wg = wg })
unfolding set_link
set_link_again l none = refl
set_link_again l (some w) =
    ap (λ m. record l { wg = some (record w { mtu = m }) }) (default_again 1420 w.mtu)

set_links_again : (ls : List LinkConfig) → set_links (set_links ls) ≡ set_links ls
unfolding set_links
set_links_again [] = refl
set_links_again (l ∷ ls) = ap₂ (λ x xs. x ∷ xs) (set_link_again l l.wg) (set_links_again ls)

set_ipv6_set : (b : Option Bool) → set_ipv6 b ≢ none
unfolding set_ipv6
set_ipv6_set none = λ h. cc
set_ipv6_set (some b) = λ h. cc

set_ipv6_again : (b : Option Bool) → set_ipv6 (set_ipv6 b) ≡ set_ipv6 b
unfolding set_ipv6
set_ipv6_again none = refl
set_ipv6_again (some b) = refl

-- The value that was given, and the default for a zero.
abbrev pub Filled : ℕ → ℤ → ℤ → Type 0
Filled d given n = ((given ≡ pos 0) × (n ≡ pos d)) ⊎ ((given ≢ pos 0) × (n ≡ given))

-- The same length, and related one by one.
pub Each : {A : Type 0} → (A → A → Type 0) → List A → List A → Type 0
Each R [] [] = Unit
Each R [] (y ∷ ys) = ⊥
Each R (x ∷ xs) [] = ⊥
Each R (x ∷ xs) (y ∷ ys) = R x y × Each R xs ys

abbrev pub FilledTunnel : WireGuardConf → WireGuardConf → Type 0
FilledTunnel w v = Filled 1420 w.mtu v.mtu × (v ≡ record w { mtu = v.mtu })

abbrev pub FilledWg : Option WgLinkConfig → Option WgLinkConfig → Type 0
FilledWg none none = Unit
FilledWg none (some v) = ⊥
FilledWg (some w) none = ⊥
FilledWg (some w) (some v) = Filled 1420 w.mtu v.mtu × (v ≡ record w { mtu = v.mtu })

abbrev pub FilledLink : LinkConfig → LinkConfig → Type 0
FilledLink l k = FilledWg l.wg k.wg × (k ≡ record l { wg = k.wg })

-- A configuration with the defaults of another: what the other gives is kept.
pub record IsFilled (given cfg : Config) : Type 0 where
  pub port : Filled 8080 given.netstack.http_port cfg.netstack.http_port
  pub family : (b : Bool) → given.ipv6 ≡ some b → cfg.ipv6 ≡ some b
  pub no_family : given.ipv6 ≡ none → cfg.ipv6 ≡ some true
  pub tunnels : Each FilledTunnel given.wire_guard cfg.wire_guard
  pub links : Each FilledLink given.links cfg.links
  pub others :
      (cfg.bgp ≡ given.bgp)
      × (cfg.mpls ≡ given.mpls)
      × (cfg.routes ≡ given.routes)
      × (cfg.netstack.forwards ≡ given.netstack.forwards)

default_to-Filled : (d : ℕ) (n : ℤ) → Filled d n (default_to d n)
default_to-Filled d (pos zero) = inl (refl, refl)
default_to-Filled d (pos (suc n)) = inr (λ h. cc h, refl)
default_to-Filled d (negsuc n) = inr (λ h. cc h, refl)

set_wire_guard-Each : (ws : List WireGuardConf) → Each FilledTunnel ws (set_wire_guard ws)
unfolding set_wire_guard Each
set_wire_guard-Each [] = tt
set_wire_guard-Each (w ∷ ws) = ((default_to-Filled 1420 w.mtu, refl), set_wire_guard-Each ws)

set_link-FilledLink :
    (l : LinkConfig) (wg : Option WgLinkConfig)
    → FilledLink (record l { wg = wg }) (set_link (record l { wg = wg }))
unfolding set_link
set_link-FilledLink l none = (tt, refl)
set_link-FilledLink l (some w) = ((default_to-Filled 1420 w.mtu, refl), refl)

set_links-Each : (ls : List LinkConfig) → Each FilledLink ls (set_links ls)
unfolding set_links Each
set_links-Each [] = tt
set_links-Each (l ∷ ls) = (set_link-FilledLink l l.wg, set_links-Each ls)

set_defaults-IsFilled : (cfg : Config) → IsFilled cfg (set_defaults cfg)
unfolding set_defaults set_ipv6
set_defaults-IsFilled cfg = record {
  port = default_to-Filled 8080 cfg.netstack.http_port;
  family = λ b e. rw e refl;
  no_family = λ e. rw e refl;
  tunnels = set_wire_guard-Each cfg.wire_guard;
  links = set_links-Each cfg.links;
  others = (refl, refl, refl, refl);
}

-- The defaults complete every configuration: an HTTP port that is not 0, a decision on IPv6, and an
-- MTU that is not 0 for every tunnel and every WireGuard link. A port of 0 becomes 8080, an MTU of 0
-- 1420, and IPv6 is on where nothing was decided; everything that was given, negative numbers too,
-- is kept. To set the defaults again changes nothing.
pub set_defaults-IsComplete :
    (cfg : Config)
    → IsComplete (set_defaults cfg)
      × IsFilled cfg (set_defaults cfg)
      × (set_defaults (set_defaults cfg) ≡ set_defaults cfg)
unfolding set_defaults
set_defaults-IsComplete cfg = (
  record {
    port = default_to-nonzero 8079 cfg.netstack.http_port;
    family = set_ipv6_set cfg.ipv6;
    tunnels = set_wire_guard-mtu cfg.wire_guard;
    links = set_links-HasMtu cfg.links;
  },
  set_defaults-IsFilled cfg,
  rw
      (
        set_wire_guard_again cfg.wire_guard,
        set_links_again cfg.links,
        set_ipv6_again cfg.ipv6,
        default_again 8080 cfg.netstack.http_port,
      )
      refl,
)

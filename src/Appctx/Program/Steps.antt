-- ===== src/Appctx/Program/Steps.antt =====
-- What an event leaves of the program: it neither panics nor loses hold of its tables.
use mathlib.Core.List.{append-nil}
use gouter.Base.{
  string_eq, ℕ, nat_eq, ◌≡◌, refl, sym, ap, subst, ◌∙◌, List, [], ◌∷◌, ◌++◌, Option, some, String,
  arith, length, All,
}
use gouter.Netip.{Addr, Prefix}
use gouter.Transport.{Packet}
use gouter.Mpls.Lfib.{Lfib, lookup_label}
use gouter.Netstack.Manager.{Calls}
use gouter.Router.Fib.{has_exact}
use gouter.Router.Fib.Table.{IsValid}
use gouter.Router.Packets.{Router, Outcome, handle, null_process, new_router}
use gouter.Router.Packets as Packets
use gouter.Router.Nexthop as Resolver
use gouter.Router.Packets.Ends.{Ends, HasSwapLabels, KeepsLength, handle-Ends}
use gouter.Bgp.Paths.{BestPath, resolve_transport}
use gouter.Bgp.Paths.Changes.{left_at}
use gouter.Bgp.Paths.Effects.{
  handle_best_path-left_at, handle_best_path-config, resolve_transport-same,
}
use gouter.Bgp.Paths.Bindings.{bound_at, handle_best_path-bound_at}
use gouter.Bgp.Paths.Labels.{OnlyPops, Popping, handle_best_path-Popping}
use gouter.Appctx.Program.{
  Program, with_tables, with_speaker, Event, best_paths, adds_transport, removes_transport,
  adds_prefixes, removes_prefixes, adds_nic, removes_nic, receives, step,
}

-- The best paths among the events, in their order.
unfoldable pub paths_of : List Event → List BestPath
paths_of [] = []
paths_of (best_paths ps ∷ es) = ps ++ paths_of es
paths_of (adds_transport t ∷ es) = paths_of es
paths_of (removes_transport name ∷ es) = paths_of es
paths_of (adds_prefixes name prefixes ∷ es) = paths_of es
paths_of (removes_prefixes name ∷ es) = paths_of es
paths_of (adds_nic cfg ∷ es) = paths_of es
paths_of (removes_nic name ∷ es) = paths_of es
paths_of (receives pkt ∷ es) = paths_of es

pub paths_of_cons :
    (e : Event) (es : List Event) → paths_of (e ∷ es) ≡ paths_of (e ∷ []) ++ paths_of es
unfolding paths_of
paths_of_cons (best_paths ps) es = ap (λ qs. qs ++ paths_of es) (sym (append-nil ps))
paths_of_cons (adds_transport t) es = refl
paths_of_cons (removes_transport name) es = refl
paths_of_cons (adds_prefixes name prefixes) es = refl
paths_of_cons (removes_prefixes name) es = refl
paths_of_cons (adds_nic cfg) es = refl
paths_of_cons (removes_nic name) es = refl
paths_of_cons (receives pkt) es = refl

-- The router, its resolver and the speaker see the same tables; the forwarding table is valid, and
-- every label pops.
pub record IsSound {S : Type 0} (p : Program S) : Type 0 where
  pub same_fib : p.router.fib ≡ p.speaker.fib
  pub same_nexthop : p.router.nexthop.fib ≡ p.speaker.fib
  pub same_lfib : p.router.lfib ≡ some p.speaker.lfib
  pub valid : IsValid p.speaker.fib
  pub pops : OnlyPops p.speaker.lfib
  pub null : p.router.processor ≡ null_process

pub fib-IsValid : {S : Type 0} (p : Program S) → IsSound p → IsValid p.router.fib
fib-IsValid p s = subst IsValid (sym s.same_fib) s.valid

module _ {S : Type 0} (calls : Calls S) (parse_addr : String → Option Addr) (self : Addr)
    (t : Addr → String) where
  -- The speaker knows its own address, and by which transport it reaches a next hop.
  pub record IsSetUp (p : Program S) : Type 0 where
    pub known : parse_addr p.speaker.router_id ≡ some self
    pub resolves : resolve_transport p.speaker ≡ t

  -- A run from `p` over events with these paths, that ends in a sound program.
  pub record IsSafe (p : Program S) (ps : List BestPath)
      (result : Option (Program S × List Outcome)) : Type 0 where
    pub after : Program S
    pub outcomes : List Outcome
    pub returns : result ≡ some (after, outcomes)
    pub ends : All Ends outcomes
    pub sound : IsSound after
    pub set_up : IsSetUp after
    pub left :
        (q : Prefix) → has_exact after.router.fib q ≡ left_at self t q (has_exact p.router.fib q) ps
    pub bound :
        (k : ℕ)
        → lookup_label after.speaker.lfib k ≡ bound_at self k (lookup_label p.speaker.lfib k) ps

  -- An event that leaves the tables alone.
  pub quiet :
      (p : Program S) (router : Router S) (outs : List Outcome)
      → IsSetUp p
      → All Ends outs
      → router.fib ≡ p.router.fib
      → IsSound (record p { router = router })
      → IsSafe p [] (some (record p { router = router }, outs))
  unfolding left_at bound_at
  quiet p router outs up ok same s = record {
    after = record p { router = router };
    outcomes = outs;
    returns = refl;
    ends = ok;
    sound = s;
    set_up = record { known = up.known; resolves = up.resolves };
    left = λ q. ap (λ f. has_exact f q) same;
    bound = λ k. refl;
  }

  same_tables :
      (p : Program S) (router : Router S)
      → IsSound p
      → router.fib ≡ p.router.fib
      → router.nexthop.fib ≡ p.router.nexthop.fib
      → router.lfib ≡ p.router.lfib
      → router.processor ≡ p.router.processor
      → IsSound (record p { router = router })
  same_tables p router s f n l x = record {
    same_fib = f ∙ s.same_fib;
    same_nexthop = n ∙ s.same_nexthop;
    same_lfib = l ∙ s.same_lfib;
    valid = s.valid;
    pops = s.pops;
    null = x ∙ s.null;
  }

  handled-Ends : (p : Program S) (pkt : Packet) → IsSound p → Ends (handle p.router pkt)
  unfolding null_process
  handled-Ends p pkt s = handle-Ends p.router keeps swaps pkt
    where
      keeps : KeepsLength p.router
      keeps bytes out e =
          let same : bytes ≡ out = cc (ap (λ f. f bytes) s.null, e) in omega (arith, ap length same)

      swaps : (l : Lfib) → p.router.lfib ≡ some l → HasSwapLabels p.router l
      swaps l e label entry found swap =
          let same : p.speaker.lfib ≡ l = cc (s.same_lfib, e) in
          let pop = subst OnlyPops same s.pops label entry found in cc (pop, swap)

  learns :
      (p : Program S) (ps : List BestPath)
      → IsSound p
      → IsSetUp p
      → IsSafe p ps (step calls parse_addr p (best_paths ps))
  unfolding step
  learns p ps s up =
      let (s', done, valid, left) =
        handle_best_path-left_at parse_addr self p.speaker ps t up.resolves s.valid up.known in
      let (id, nh) = handle_best_path-config parse_addr self p.speaker ps s' up.known done in
      record {
        after = record { router = with_tables p.router s'.fib s'.lfib; speaker = s' };
        outcomes = [];
        returns = ap (with_speaker calls parse_addr p) done;
        ends = tt;
        sound = record {
          same_fib = refl;
          same_nexthop = refl;
          same_lfib = refl;
          valid = valid;
          pops = subst Popping done (handle_best_path-Popping parse_addr p.speaker ps s.pops);
          null = s.null;
        };
        set_up = record {
          known = ap parse_addr id ∙ up.known;
          resolves = resolve_transport-same p.speaker s' nh ∙ up.resolves;
        };
        left = λ q. left q ∙ ap (λ f. left_at self t q (has_exact f q) ps) (sym s.same_fib);
        bound = λ k. handle_best_path-bound_at parse_addr self p.speaker ps s' k up.known done;
      }

  pub step-IsSafe :
      (p : Program S) (e : Event)
      → IsSound p
      → IsSetUp p
      → IsSafe p (paths_of (e ∷ [])) (step calls parse_addr p e)
  unfolding paths_of step Packets.add_transport Packets.remove_transport Resolver.add_transport
      Resolver.remove_transport
  step-IsSafe p (best_paths ps) s up = rw (append-nil ps) (learns p ps s up)
  step-IsSafe p (adds_transport tr) s up =
      quiet p (Packets.add_transport p.router tr) [] up tt refl
        (same_tables p _ s refl refl refl refl)
  step-IsSafe p (removes_transport name) s up =
      quiet p (Packets.remove_transport p.router name) [] up tt refl
        (same_tables p _ s refl refl refl refl)
  step-IsSafe p (adds_prefixes name prefixes) s up =
      quiet p _ [] up tt refl (same_tables p _ s refl refl refl refl)
  step-IsSafe p (removes_prefixes name) s up =
      quiet p _ [] up tt refl (same_tables p _ s refl refl refl refl)
  step-IsSafe p (adds_nic cfg) s up =
      quiet p _ [] up tt refl (same_tables p _ s refl refl refl refl)
  step-IsSafe p (removes_nic name) s up =
      quiet p _ [] up tt refl (same_tables p _ s refl refl refl refl)
  step-IsSafe p (receives pkt) s up =
      quiet p p.router (handle p.router pkt ∷ []) up (handled-Ends p pkt s, tt) refl s

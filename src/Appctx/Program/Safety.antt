-- ===== src/Appctx/Program/Safety.antt =====
-- Whatever happens, in whatever order, the program ends every step with its tables in order.
use gouter.Base.{
  string_eq, ℕ, nat_eq, ◌≡◌, refl, sym, ap, ◌∙◌, Bool, List, [], ◌∷◌, ◌++◌, Option, none, some,
  String, All, All-append,
}
use gouter.Base.Dict
use gouter.Config.{Config}
use gouter.Netip.{Addr, Prefix}
use gouter.Mpls.Lfib.{new_lfib, lookup_label}
use gouter.Netstack.Manager.{Calls}
use gouter.Router.Fib.{new_fib, has_exact, find_exact}
use gouter.Router.Fib.Table.{IsValid, new_fib-IsValid}
use gouter.Router.Packets.{Outcome, new_router}
use gouter.Router.Nexthop as Resolver
use gouter.Router.Packets.Ends.{Ends}
use gouter.Bgp.Paths.{resolve_transport}
use gouter.Bgp.Paths.Changes.{left_at}
use gouter.Bgp.Paths.Labels.{OnlyPops}
use gouter.Bgp.Paths.Effects.{left_at-append}
use gouter.Bgp.Paths.Bindings.{bound_at, bound_at-append}
use gouter.Appctx.{new_app_context}
use gouter.Appctx.Program.{Program, start, Event, run}
use gouter.Appctx.Program.Steps.{
  paths_of, paths_of_cons, IsSound, IsSetUp, IsSafe, fib-IsValid, quiet, step-IsSafe,
}

module _ {S : Type 0} (calls : Calls S) (parse_addr : String → Option Addr) (self : Addr)
    (t : Addr → String) where
  run-IsSafe :
      (p : Program S) (es : List Event)
      → IsSound p
      → IsSetUp calls parse_addr self t p
      → IsSafe calls parse_addr self t p (paths_of es) (run calls parse_addr p es)
  unfolding paths_of run left_at bound_at
  run-IsSafe p [] s up = quiet calls parse_addr self t p p.router [] up tt refl s
  run-IsSafe p (e ∷ es) s up =
      let one = step-IsSafe calls parse_addr self t p e s up in
      let rest = run-IsSafe one.after es one.sound one.set_up in
      record {
        after = rest.after;
        outcomes = one.outcomes ++ rest.outcomes;
        returns = rw (one.returns, run, rest.returns) refl;
        ends = All-append Ends one.outcomes rest.outcomes one.ends rest.ends;
        sound = rest.sound;
        set_up = rest.set_up;
        left = λ q.
            rest.left q
            ∙ ap (λ old. left_at self t q old (paths_of es)) (one.left q)
            ∙ sym (
                ap (left_at self t q (has_exact p.router.fib q)) (paths_of_cons e es)
                ∙ left_at-append self t q (has_exact p.router.fib q) (paths_of (e ∷ []))
                    (paths_of es));
        bound = λ k.
            rest.bound k
            ∙ ap (λ old. bound_at self k old (paths_of es)) (one.bound k)
            ∙ sym (
                ap (bound_at self k (lookup_label p.speaker.lfib k)) (paths_of_cons e es)
                ∙ bound_at-append self k (lookup_label p.speaker.lfib k) (paths_of (e ∷ []))
                    (paths_of es));
      }

module _ {S : Type 0} (calls : Calls S) (stack : S) (cfg : Config) (router_id : String)
    (resolve_nh : Option (Addr → String × Bool)) where
  -- Every run from the start is safe.
  pub start-IsSafe :
      (parse_addr : String → Option Addr) (self : Addr) (es : List Event)
      → parse_addr router_id ≡ some self
      → let p = start calls stack cfg router_id resolve_nh in
        IsSafe calls parse_addr self
          (resolve_transport p.speaker)
          p
          (paths_of es)
          (run calls parse_addr p es)
  unfolding new_app_context new_router Resolver.new_nexthop_resolver new_fib new_lfib lookup_label
      Dict.lookup
  start-IsSafe parse_addr self es known =
      let p = start calls stack cfg router_id resolve_nh in
      let t = resolve_transport p.speaker in
      let sound : IsSound p = record {
        same_fib = refl;
        same_nexthop = refl;
        same_lfib = refl;
        valid = new_fib-IsValid;
        pops = λ label e found. cc found;
        null = refl;
      } in
      run-IsSafe calls parse_addr self t p es sound (record { known = known; resolves = refl })

  pub start-has_exact :
      (q : Prefix) → has_exact (start calls stack cfg router_id resolve_nh).router.fib q ≡ none
  unfolding new_app_context new_router new_fib has_exact find_exact
  start-has_exact q = refl

  pub start-lookup_label :
      (k : ℕ) → lookup_label (start calls stack cfg router_id resolve_nh).speaker.lfib k ≡ none
  unfolding new_app_context new_lfib lookup_label Dict.lookup
  start-lookup_label k = refl

-- A program whose own router id parses, started from any configuration, returns from every run of
-- best paths, transports that come and go, prefixes and NICs that come and go, and packets, in any
-- order: the speaker never panics; every packet is sent on a named transport, given to a NIC, refused
-- by the netstack or dropped, so that no handler loops, and none takes an IP header's bytes, or a
-- label to swap to, out of range; the router's forwarding table is sorted and without duplicates, and
-- every entry of the label table pops; and each prefix has the entry that the last best path to change
-- it says, or none, and each label the pop to which the last announcement of the router itself bound
-- it, or none.
pub run-start :
    {S : Type 0} (calls : Calls S) (stack : S) (cfg : Config) (router_id : String)
    (resolve_nh : Option (Addr → String × Bool)) (parse_addr : String → Option Addr) (self : Addr)
    (es : List Event)
    → parse_addr router_id ≡ some self
    → (p : Program S) × (outs : List Outcome) × (run calls parse_addr
          (start calls stack cfg router_id resolve_nh)
          es
        ≡ some (p, outs))
      × All Ends outs
      × IsValid p.router.fib
      × OnlyPops p.speaker.lfib
      × ((q : Prefix)
          → has_exact p.router.fib q
            ≡ left_at self
                (resolve_transport (start calls stack cfg router_id resolve_nh).speaker)
                q
                none
                (paths_of es))
      × ((k : ℕ) → lookup_label p.speaker.lfib k ≡ bound_at self k none (paths_of es))
run-start calls stack cfg router_id resolve_nh parse_addr self es known =
    let begun = start calls stack cfg router_id resolve_nh in
    let safe = start-IsSafe calls stack cfg router_id resolve_nh parse_addr self es known in
    (
      safe.after,
      safe.outcomes,
      safe.returns,
      safe.ends,
      fib-IsValid safe.after safe.sound,
      safe.sound.pops,
      λ q.
          safe.left q
          ∙ ap (λ old. left_at self (resolve_transport begun.speaker) q old (paths_of es))
              (start-has_exact calls stack cfg router_id resolve_nh q),
      λ k.
          safe.bound k
          ∙ ap (λ old. bound_at self k old (paths_of es))
              (start-lookup_label calls stack cfg router_id resolve_nh k),
    )

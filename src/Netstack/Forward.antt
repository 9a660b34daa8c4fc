-- ===== src/Netstack/Forward.antt =====
-- internal/netstack/forward.go: the table of port forwards. A listener of the netstack is a number;
-- which of them are open is part of the state.
pub mod InTable
pub mod Listeners
use gouter.Base.{
  string_eq, nat_eq, ℕ, Bool, true, false, ◌&&◌, ◌||◌, not, List, [], ◌∷◌, Option, none, some,
  String, ◌==◌, if◌then◌else◌,
}
use gouter.Base.Dict

pub record ForwardRule : Type 0 where
  pub name : String
  pub listen_port : ℕ
  pub target : String

pub record ActiveFwd : Type 0 where
  pub rule : ForwardRule
  pub listener : ℕ

-- `fwd` is `none` for the nil map that `Close` leaves.
pub record ForwardManager : Type 0 where
  pub fwd : Option (List (String × ActiveFwd))
  pub is_open : ℕ → Bool

pub new_forward_manager : ForwardManager
new_forward_manager = record { fwd = some []; is_open = λ ln. false }

-- A nil map reads as an empty one.
abbrev pub entries : Option (List (String × ActiveFwd)) → List (String × ActiveFwd)
entries none = []
entries (some l) = l

-- How an `Add` ends.
pub data Added : Type 0 where
  already_there listen_failed started panicked : Added

abbrev pub opened : ForwardManager → ℕ → ℕ → Bool
opened m ln k = k == ln || m.is_open k

-- The store of the new forward; a store into a nil map panics, with the listener open.
pub store : ForwardManager → ForwardRule → ℕ → ForwardManager × Added
store m rule ln = elim m.fwd [
  | none ↦ (record m { is_open = opened m ln }, panicked)
  | some l ↦
      let fwd' = some (Dict.insert rule.name (record { rule = rule; listener = ln }) l) in
      (record { fwd = fwd'; is_open = opened m ln }, started)
]

-- `listened` is what `ListenTCP` comes back with.
pub add_forward : ForwardManager → ForwardRule → Option ℕ → ForwardManager × Added
add_forward m rule listened = elim (Dict.lookup rule.name (entries m.fwd)) [
  | some _ ↦ (m, already_there)
  | none ↦ elim listened [ none ↦ (m, listen_failed) | some ln ↦ store m rule ln ]
]

pub remove_forward : ForwardManager → String → ForwardManager
remove_forward m name = elim m.fwd [
  | none ↦ m
  | some l ↦ elim (Dict.lookup name l) [
    | none ↦ m
    | some af ↦ record {
      fwd = some (Dict.delete name l);
      is_open = λ k. m.is_open k && not (k == af.listener);
    }
  ]
]

-- Whether a listener is one of the table.
unfoldable pub in_table : ℕ → List (String × ActiveFwd) → Bool
in_table k [] = false
in_table k ((_, af) ∷ l) = k == af.listener || in_table k l

-- The loop of `Close` closes every listener of the table.
pub close_forwards : ForwardManager → ForwardManager
close_forwards m = record {
  fwd = none;
  is_open = λ k. m.is_open k && not (in_table k (entries m.fwd));
}

-- What a turn of the loop of `run` meets: a connection, or an error of `Accept`, with the context
-- done or not.
pub data Accepted : Type 0 where
  connection : ℕ → Accepted
  accept_error : Bool → Accepted

-- The connections that were given to `handle`, and whether `run` has returned.
pub run_accepts : List Accepted → List ℕ × Bool
run_accepts [] = ([], false)
run_accepts (connection c ∷ es) = let rest = run_accepts es in (c ∷ rest.0, rest.1)
run_accepts (accept_error context_done ∷ es) =
    let rest = run_accepts es in if context_done then ([], true) else rest

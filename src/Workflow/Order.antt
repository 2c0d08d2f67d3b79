-- ===== src/Workflow/Order.antt =====
-- The depth-first walk that validates a dependency graph and lists its nodes, dependencies first:
-- `visit` and its `forEach` in src/workflow/definition.mjs.
pub mod Path
pub mod Sorted
pub mod Total
use code_fleet.Prelude.{
  ℕ, zero, suc, ◌+◌, Option, none, some, List, [], ◌∷◌, ◌++◌, Text, elem, without, length, Result,
  ok, err, ◌>>=◌, if◌then◌else◌,
}

pub data Fault : Type 0 where
  missing_dependency cyclic_dag : Fault
  -- The model's own: no call of `order` ends in it.
  exhausted : Fault

-- The three collections that the walk mutates.
pub record Walk : Type 0 where
  pub ordered : List Text
  pub visited : List Text
  pub visiting : List Text

abbrev pub start : Walk
start = record { ordered = []; visited = []; visiting = [] }

-- `for (const dep of …) visit(dep)`
unfoldable pub visit_each : (Text → Walk → Result Fault Walk) → List Text → Walk → Result Fault Walk
visit_each step [] w = ok w
visit_each step (k ∷ ks) w = step k w >>= visit_each step ks

abbrev pub enter : Text → Walk → Walk
enter key w = record w { visiting = key ∷ w.visiting }

abbrev pub leave : Text → Walk → Walk
leave key w = record w {
  visiting = without key w.visiting;
  visited = key ∷ w.visited;
  ordered = w.ordered ++ key ∷ [];
}

-- `nodes` gives the dependencies of a node.
module _ (nodes : Text → Option (List Text)) where
  unfoldable pub visit : ℕ → Text → Walk → Result Fault Walk
  visit zero key w = err exhausted
  visit (suc f) key w = elim (nodes key) [
    | none ↦ err missing_dependency
    | some deps ↦
        if elem w.visiting key
        then err cyclic_dag
        else if elem w.visited key
        then ok w
        else (visit_each (visit f) deps (enter key w) >>= λ w'. ok (leave key w'))
  ]

  -- One level of the walk for each node that can be on the path, and one to find a cycle.
  unfoldable pub walk : List Text → Result Fault Walk
  unfolding visit
  walk keys = visit_each (visit (length keys + 1)) keys start

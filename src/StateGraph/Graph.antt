-- ===== src/StateGraph/Graph.antt =====
-- A run of the graph that `_build_graph` builds. Around each node the world acts on the state: the
-- callback that wraps the node, the tools, the operator, and the engine, which may or may not keep
-- what a callback or an edge writes into the dictionary that it was given.
use sky_claw_gravity.Prelude.{List, [], ℕ, ◌∷◌}
use sky_claw_gravity.StateGraph.{SupervisorState, Workflow}
use sky_claw_gravity.StateGraph.Nodes.{node}
use sky_claw_gravity.StateGraph.Edges.{Route, edge, invalid, to_end, to_node}

-- one round of the engine: the clock, and what the world makes of the state before the node
pub record Tick (P : Type 0) : Type 0 where
  pub now : ℕ
  pub world : Workflow P → Workflow P

module _ {P : Type 0} where
  -- a node after what the world did, and the edge out of it
  unfoldable pub round : Tick P → SupervisorState → Workflow P → Workflow P × Route
  round t n s = edge n t.now (node n t.now (t.world s))

  -- the nodes that a run visits, in order
  unfoldable pub visits : List (Tick P) → SupervisorState → Workflow P → List SupervisorState
  visits [] n s = []
  visits (t ∷ ts) n s =
      let (s', r) = round t n s in
      n ∷ elim r [ to_node m ↦ visits ts m s' | to_end ↦ [] | invalid _ _ ↦ [] ]

  -- where a run stands after its last round
  unfoldable pub arrives : List (Tick P) → SupervisorState → Workflow P → Workflow P × Route
  arrives [] n s = (s, to_node n)
  arrives (t ∷ ts) n s =
      let (s', r) = round t n s in
      elim r [
        | to_node m ↦ arrives ts m s'
        | to_end ↦ (s', to_end)
        | invalid a b ↦ (s', invalid a b)
      ]

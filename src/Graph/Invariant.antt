-- ===== src/Graph/Invariant.antt =====
-- The rule for what holds along a run of the graph (app/graph/builder.py).
use agentic_rag_claude_code.Prelude.{ℕ, zero, suc, ◌≡◌, Option, none, some, some-injective, subst}
use agentic_rag_claude_code.Settings.{Settings}
use agentic_rag_claude_code.Graph.State.{World}
use agentic_rag_claude_code.Graph.Services.{Services}
use agentic_rag_claude_code.Graph.Builder.{Node, next, visit, run, proceed}

-- What is to hold behind a node: the assertion of the next node, or that of END.
abbrev pub Behind : (Node → World → Type 0) → (World → Type 0) → World → Option Node → Type 0
Behind At Post w none = Post w
Behind At Post w (some n) = At n w

module _ (s : Settings) (v : Services) (At : Node → World → Type 0) (Post : World → Type 0)
    (keep : (n : Node) (w : World)
      → At n w
      → Behind At Post (visit s v n w) (next s n (visit s v n w).state)) where
  -- If each node takes its assertion to that of the node behind it, what holds at END follows from
  -- the assertion of the node where the run starts.
  pub run_rule :
      (fuel : ℕ) (n : Node) (w w' : World) → At n w → run s v fuel n w ≡ some w' → Post w'
  unfolding run
  run_rule zero n w w' h e = absurd (cc e)
  run_rule (suc fuel) n w w' h e =
      behind (next s n (visit s v n w).state) (keep n w h) e
        (λ n'. run_rule fuel n' (visit s v n w) w')
    where
      behind :
          (o : Option Node)
          → Behind At Post (visit s v n w) o
          → proceed (run s v fuel) (visit s v n w) o ≡ some w'
          → ((n' : Node)
              → At n' (visit s v n w)
              → run s v fuel n' (visit s v n w) ≡ some w'
              → Post w')
          → Post w'
      behind none h e rec = subst Post (some-injective (visit s v n w) w' e) h
      behind (some n') h e rec = rec n' h e

-- ===== src/Tests/IdentityExamples.antt =====
-- Examples for the agents that processes belong to.
use omnisec.Prelude.{any, ℕ, ◌≡◌, refl, none, some, List, [], ◌∷◌, arith, map}
use omnisec.Prelude.Maps.{get, put, keys, Distinct}
use omnisec.Identity.Types.{AgentIdentityEngine, new_identity_engine}
use omnisec.Identity.Engine.{
  register_agent, record_fork, record_exec, record_exit, import_identities, export_identities,
  get_identity, get_children, get_process_tree,
}
use omnisec.Identity.Changes.{Stem, view}
use omnisec.Identity.Lineage.{
  Call, registering, exec, fork, exit, run, AllFresh, Descends, run-Descends,
}
use omnisec.Identity.Import.{Filed, last_named, import-export}

-- An agent, a fork of it, a program that the fork starts as another process, and the end of the fork.
abbrev calls : List Call
calls =
    registering 50 1 1001 1 "agent" "python3" (some "langchain")
    ∷ fork 51 2 1001 2001 "python3"
    ∷ exec 52 3 3001 2001 "node" "/usr/bin/node"
    ∷ exit 4 2001
    ∷ []

abbrev engine : AgentIdentityEngine
engine = run new_identity_engine calls

calls_fresh : AllFresh new_identity_engine calls
unfolding get put new_identity_engine register_agent record_fork record_exec
calls_fresh = (refl, (refl, (refl, (tt, tt))))

run-Descends_example :
    ((id : ℕ) (s : Stem)
      → (view engine).agents id ≡ some s
      → (s.id ≡ id) × Descends (view engine).agents id s.depth)
    × ((pid id : ℕ)
        → (view engine).who pid ≡ some id
        → (s : Stem) × ((view engine).agents id ≡ some s))
run-Descends_example = run-Descends calls (omega arith) calls_fresh

engine_ids : Distinct (keys engine.identities) × Filed engine.identities
unfolding get put any new_identity_engine register_agent record_fork record_exec record_exit
engine_ids = ((refl, (refl, (refl, tt))), (refl, (refl, (refl, tt))))

import-export_example :
    (((id : ℕ)
        → get_identity (import_identities new_identity_engine (export_identities engine)) id
          ≡ get_identity engine id)
      × ((pid : ℕ)
          → get (import_identities new_identity_engine (export_identities engine)).pid_map pid
            ≡ last_named (export_identities engine) pid none))
import-export_example = import-export engine engine_ids.0 engine_ids.1

-- The program that the fork starts is a child of the fork's process, but the process tree of the fork does
-- not hold it, and the process that has ended still belongs to the fork.
children_run : get_children engine 2001 ≡ 3001 ∷ []
unfolding get_children get put any new_identity_engine register_agent record_fork record_exec
    record_exit
children_run = refl

tree_run : map (λ r. r.agent_id) (get_process_tree engine 51) ≡ 51 ∷ []
unfolding get_process_tree get put any new_identity_engine register_agent record_fork record_exec
    record_exit
tree_run = refl

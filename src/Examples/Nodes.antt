-- ===== src/Examples/Nodes.antt =====
-- Two judge nodes, three test cases, a pipe and a cache.
use mathlib.Core.List.{reverse}
use mathlib.Core.List.Permᴰ
use pigeon_oj.Base.{
  ℕ, ◌+◌, ◌≤◌, ◌≡◌, refl, true, false, ◌||◌, some, List, [], ◌∷◌, length, take, All, arith, ltb,
  elem,
}
use pigeon_oj.Gateway.{
  Connection, Registry, register, unregister, registered_as, find_object, dispatch, task_count,
}
use pigeon_oj.Gateway.Dispatch.{Fits, eligible, dispatch_chooses_least}
use pigeon_oj.Gateway.Reconnects.{reconnect_keeps_jobs}
use pigeon_oj.Node.{RunStatus, read_limited, run_cases_serial, run_cases_parallel, run_batch}
use pigeon_oj.Node.Pipes.{read_limited_exact}
use pigeon_oj.Node.Runs.{never, parallel_equals_serial}

abbrev connection : ℕ → List ℕ → Connection
connection o jobs = record {
  object = o;
  node_id = o;
  capacity = 2;
  supports_spj = true;
  inflight = jobs;
  pending_runs = 0;
  stale = false;
}

abbrev two_nodes : List Connection
two_nodes = connection 1 (11 ∷ []) ∷ connection 2 [] ∷ []

dispatch_chooses_least_example :
    Fits true (connection 2 [])
    × All (λ d. task_count (connection 2 []) ≤ task_count d) (eligible true two_nodes)
unfolding dispatch
dispatch_chooses_least_example = dispatch_chooses_least true two_nodes (connection 2 []) refl

-- node 7 is registered with connection 1, which has job 11 in flight
abbrev registry : Registry
registry = record { objects = two_nodes; registered = (7, 1) ∷ [] }

reconnect_keeps_jobs_example :
    (unregister 7 1 (register 7 2 registry) ≡ (register 7 2 registry, []))
    × (elem 11 (unregister 7 2 (register 7 2 registry)).1 ≡ (elem 11 [] || elem 11 (11 ∷ [])))
unfolding registered_as find_object
reconnect_keeps_jobs_example =
    reconnect_keeps_jobs registry 7 1 2 11 (connection 1 (11 ∷ [])) (connection 2 []) refl refl refl
      refl

abbrev five_bytes : List ℕ
five_bytes = 1 ∷ 2 ∷ 3 ∷ 4 ∷ 5 ∷ []

abbrev one_more : ℕ → ℕ
one_more i = i

read_limited_exact_example :
    read_limited 5 3 one_more five_bytes ≡ some (take (3 + 1) five_bytes, ltb 3 (length five_bytes))
read_limited_exact_example = read_limited_exact 5 3 one_more five_bytes (omega arith)

-- a case is the status that it ends with
abbrev as_given : ℕ → RunStatus → RunStatus
as_given i status = status

abbrev three_cases : List RunStatus
three_cases = RunStatus.accepted ∷ RunStatus.wrong_answer ∷ RunStatus.accepted ∷ []

-- the cases of a batch complete backwards
abbrev backwards : ℕ → List (ℕ × RunStatus) → List (ℕ × RunStatus)
backwards i es = reverse es

parallel_equals_serial_example :
    run_cases_parallel as_given never backwards 2 three_cases
    ≡ run_cases_serial as_given never false 0 three_cases
unfolding run_batch
parallel_equals_serial_example =
    parallel_equals_serial as_given backwards 2 three_cases (λ j es. Permᴰ.symm (Permᴰ.reverse es))
      (omega arith) refl

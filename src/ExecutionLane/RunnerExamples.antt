-- ===== src/ExecutionLane/RunnerExamples.antt =====
-- The theorems on the runner at a session that is started twice and stopped twice, and a build that raises.
use nautilus_builder.Prelude.{true, false, List, [], ◌∷◌, ◌≡◌, refl}
use nautilus_builder.Prelude.Dict.{get, put, remove}
use nautilus_builder.ExecutionLane.Slots.{not_found}
use nautilus_builder.ExecutionLane.Runner.{
  build, start_thread, stop, joined, dispose, new, start, stop_session,
}
use nautilus_builder.ExecutionLane.NodeOrder.{calls_of, is_legal, Call, starts, stops, run_all}
use nautilus_builder.ExecutionLane.NodeCalls.{run_all-legal, stop_twice}

abbrev calls : List Call
calls =
    starts false true "s" ("d" ∷ []) ("x" ∷ [])
    ∷ starts false true "s" ("d" ∷ []) ("x" ∷ [])
    ∷ starts false false "t" ("d" ∷ []) ("x" ∷ [])
    ∷ stops false "s"
    ∷ stops true "s"
    ∷ []

-- The first node runs on: the second start has put another node under its session.
calls_test :
    (calls_of 0 (run_all calls new).trace ≡ build ∷ start_thread ∷ [])
    × (calls_of 1 (run_all calls new).trace
        ≡ build ∷ start_thread ∷ stop ∷ joined false ∷ dispose ∷ [])
    × (calls_of 2 (run_all calls new).trace ≡ build ∷ [])
unfolding get put remove start stop_session calls_of run_all
calls_test = (refl, refl, refl)

run_all-legal_example : is_legal (calls_of 1 (run_all calls new).trace) ≡ true
run_all-legal_example = run_all-legal calls 1

stop_twice_example :
    stop_session false "s" (stop_session true "s" (run_all calls new)).1
    ≡ (not_found, (stop_session true "s" (run_all calls new)).1)
stop_twice_example = stop_twice calls true false "s"

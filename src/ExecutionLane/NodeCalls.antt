-- ===== src/ExecutionLane/NodeCalls.antt =====
-- Sequences of starts and stops of the runner in packages/execution_lane/sessions.py.
use nautilus_builder.Prelude.{
  ℕ, Bool, true, false, none, some, String, List, [], ◌∷◌, string_eq, nat_eq, ◌≡◌, refl, sym,
  Option-cases, inl, inr,
}
use mathlib.Core.Path.{subst}
use nautilus_builder.Prelude.Dict.{get}
use nautilus_builder.Prelude.Dict.Order.{get-remove_self}
use nautilus_builder.ExecutionLane.Slots.{SessionStatus, not_found}
use nautilus_builder.ExecutionLane.Runner.{Runner, new, start, final_status, stop_session}
use nautilus_builder.ExecutionLane.NodeOrder.{
  calls_of, is_legal, Call, starts, stops, run_all, IsOrdered, new-IsOrdered, started-IsOrdered,
  unbuilt-IsOrdered, ended, ended-IsOrdered,
}

start-IsOrdered :
    (in_loop builds : Bool) (id : String) (data_factories exec_factories : List String) (r : Runner)
    → IsOrdered r
    → IsOrdered (start in_loop builds id data_factories exec_factories r).1
unfolding start
start-IsOrdered true builds id data_factories exec_factories r h = h
start-IsOrdered false builds id [] exec_factories r h = h
start-IsOrdered false builds id (d ∷ ds) [] r h = h
start-IsOrdered false true id (d ∷ ds) (x ∷ xs) r h = started-IsOrdered id r h
start-IsOrdered false false id (d ∷ ds) (x ∷ xs) r h = unbuilt-IsOrdered r h

stop_session-unknown :
    (alive : Bool) (id : String) (r : Runner)
    → get id r.sessions ≡ none
    → stop_session alive id r ≡ (not_found, r)
unfolding stop_session
stop_session-unknown alive id r h = rw (h, stop_session) refl

stop_session-found :
    (alive : Bool) (id : String) (node : ℕ) (r : Runner)
    → get id r.sessions ≡ some node
    → stop_session alive id r ≡ (final_status alive, ended alive id node r)
unfolding stop_session
stop_session-found alive id node r h = rw (h, stop_session) refl

stop_session-IsOrdered :
    (alive : Bool) (id : String) (r : Runner) → IsOrdered r → IsOrdered (stop_session alive id r).1
stop_session-IsOrdered alive id r h = elim (Option-cases (get id r.sessions)) [
  | inl none_found ↦
      subst (λ (q : SessionStatus × Runner). IsOrdered q.1)
        (sym (stop_session-unknown alive id r none_found)) h
  | inr (node, found) ↦
      subst (λ (q : SessionStatus × Runner). IsOrdered q.1)
        (sym (stop_session-found alive id node r found)) (ended-IsOrdered alive id node r h found)
]

run_all-IsOrdered : (cs : List Call) (r : Runner) → IsOrdered r → IsOrdered (run_all cs r)
unfolding run_all
run_all-IsOrdered [] r h = h
run_all-IsOrdered (starts in_loop builds id data_factories exec_factories ∷ cs) r h =
    run_all-IsOrdered cs (start in_loop builds id data_factories exec_factories r).1
      (start-IsOrdered in_loop builds id data_factories exec_factories r h)
run_all-IsOrdered (stops alive id ∷ cs) r h =
    run_all-IsOrdered cs (stop_session alive id r).1 (stop_session-IsOrdered alive id r h)

-- Whatever is started and stopped on a new runner, in any order and under any names, and whatever builds
-- raise: what the runner does with each node is legal. The node is built; if that returned, its thread
-- is started, once; it may then be stopped, and its thread is joined; and it is disposed of exactly
-- where the thread had ended at the join. Each is done once at most, and in this order.
pub run_all-legal : (cs : List Call) (n : ℕ) → is_legal (calls_of n (run_all cs new).trace) ≡ true
run_all-legal cs n = (run_all-IsOrdered cs new new-IsOrdered).legal n

-- After any calls, a session that was stopped, whether its thread had ended or not, is unknown: to
-- stop it again calls no node and changes nothing.
pub stop_twice :
    (cs : List Call) (alive alive' : Bool) (id : String)
    → let r = (stop_session alive id (run_all cs new)).1 in
      stop_session alive' id r ≡ (not_found, r)
stop_twice cs alive alive' id =
    let r = run_all cs new in
    elim (Option-cases (get id r.sessions)) [
      | inl none_found ↦
          subst (λ (q : SessionStatus × Runner). stop_session alive' id q.1 ≡ (not_found, q.1))
            (sym (stop_session-unknown alive id r none_found))
            (stop_session-unknown alive' id r none_found)
      | inr (node, found) ↦
          subst (λ (q : SessionStatus × Runner). stop_session alive' id q.1 ≡ (not_found, q.1))
            (sym (stop_session-found alive id node r found))
            (stop_session-unknown alive' id (ended alive id node r)
              (get-remove_self id r.sessions (run_all-IsOrdered cs new new-IsOrdered).unique))
    ]

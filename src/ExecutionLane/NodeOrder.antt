-- ===== src/ExecutionLane/NodeOrder.antt =====
-- The calls that `NativeTradingNodeSessionRunner` of packages/execution_lane/sessions.py makes of each
-- node, whatever is started and stopped.
use nautilus_builder.Prelude.{
  ℕ, ◌≤◌, ◌<◌, Bool, true, false, some, String, List, [], ◌∷◌, ◌++◌, ◌==◌, string_eq, nat_eq,
  if◌then◌else◌, ◌≡◌, ◌∙◌, refl, sym, ap, arith, eq_iff, Bool-cases, beq_refl, inl, inr,
}
use mathlib.Core.List.{append-nil}
use nautilus_builder.Prelude.Dict.{get, remove}
use nautilus_builder.Prelude.Dict.Laws.{put-cases}
use nautilus_builder.Prelude.Dict.Unique.{Unique, put-Unique}
use nautilus_builder.Prelude.Dict.Order.{get-remove_self, get-remove_other, remove-Unique}
use nautilus_builder.ExecutionLane.Runner.{
  NodeCall, build, start_thread, stop, joined, dispose, Runner, started, unbuilt, new, start,
  ending, stop_session,
}

-- The calls made of one node.
unfoldable pub calls_of : ℕ → List (ℕ × NodeCall) → List NodeCall
calls_of n [] = []
calls_of n ((m, c) ∷ t) = let rest = calls_of n t in if m == n then c ∷ rest else rest

-- A node is built; then its thread is started; then it is stopped and its thread is joined; and it is
-- disposed of only where the thread has ended: each once at most.
abbrev pub is_legal : List NodeCall → Bool
is_legal [] = true
is_legal (build ∷ []) = true
is_legal (build ∷ start_thread ∷ []) = true
is_legal (build ∷ start_thread ∷ stop ∷ joined true ∷ []) = true
is_legal (build ∷ start_thread ∷ stop ∷ joined false ∷ dispose ∷ []) = true
is_legal _ = false

pub data Call : Type 0 where
  starts : Bool → Bool → String → List String → List String → Call
  stops : Bool → String → Call

unfoldable pub run_all : List Call → Runner → Runner
run_all [] r = r
run_all (starts in_loop builds id data_factories exec_factories ∷ cs) r =
    run_all cs (start in_loop builds id data_factories exec_factories r).1
run_all (stops alive id ∷ cs) r = run_all cs (stop_session alive id r).1

-- A node that is not made yet has no calls; the node of a session is built and its thread started, and is no other
-- session's; and all calls are legal.
pub record IsOrdered (r : Runner) : Type 0 where
  pub fresh : (n : ℕ) → r.made ≤ n → calls_of n r.trace ≡ []
  pub active :
      (id : String) (n : ℕ)
      → get id r.sessions ≡ some n
      → (n < r.made) × (calls_of n r.trace ≡ build ∷ start_thread ∷ [])
  pub once : (i j : String) (n : ℕ) → get i r.sessions ≡ some n → get j r.sessions ≡ some n → i ≡ j
  pub legal : (n : ℕ) → is_legal (calls_of n r.trace) ≡ true
  pub unique : Unique r.sessions

calls_of-append :
    (n : ℕ) (t u : List (ℕ × NodeCall)) → calls_of n (t ++ u) ≡ calls_of n t ++ calls_of n u
unfolding calls_of
calls_of-append n [] u = refl
calls_of-append n ((m, c) ∷ t) u = ground (arith, calls_of-append n t u)

-- The calls of another node do not count.
calls_of-other :
    (n m : ℕ) (alive : Bool)
    → (m == n) ≡ false
    → (calls_of n ((m, build) ∷ (m, start_thread) ∷ []) ≡ [])
      × (calls_of n (ending alive m) ≡ [])
      × (calls_of n ((m, build) ∷ []) ≡ [])
unfolding calls_of
calls_of-other n m true h = ground arith
calls_of-other n m false h = ground arith

pub new-IsOrdered : IsOrdered new
unfolding calls_of get
new-IsOrdered = record {
  fresh = λ n h. refl;
  active = λ id n h. cc h;
  once = λ i j n h k. cc h;
  legal = λ n. refl;
  unique = tt;
}

-- What its calls are: those of the new node, or those from before.
started_own :
    (id : String) (r : Runner)
    → IsOrdered r
    → calls_of r.made (started id r).trace ≡ build ∷ start_thread ∷ []
unfolding calls_of
started_own id r h =
    calls_of-append r.made r.trace ((r.made, build) ∷ (r.made, start_thread) ∷ [])
    ∙ ap (λ cs. cs ++ calls_of r.made ((r.made, build) ∷ (r.made, start_thread) ∷ []))
        (h.fresh r.made (omega arith))
    ∙ ground arith

started_other :
    (id : String) (n : ℕ) (r : Runner)
    → (r.made == n) ≡ false
    → calls_of n (started id r).trace ≡ calls_of n r.trace
started_other id n r differ =
    calls_of-append n r.trace ((r.made, build) ∷ (r.made, start_thread) ∷ [])
    ∙ ap (λ cs. calls_of n r.trace ++ cs) (calls_of-other n r.made true differ).0
    ∙ append-nil (calls_of n r.trace)

pub started-IsOrdered : (id : String) (r : Runner) → IsOrdered r → IsOrdered (started id r)
started-IsOrdered id r h = record {
  fresh = λ n k. started_other id n r (ground arith) ∙ h.fresh n (omega (arith, k));
  active = λ i n g. elim (put-cases id i r.made n r.sessions g) [
    | inl (same, own) ↦ (
      omega (arith, own),
      ap (λ m. calls_of m (started id r).trace) (sym own) ∙ started_own id r h,
    )
    | inr (differ, old) ↦
        let (below, calls) = h.active i n old in
        (omega (arith, below), started_other id n r (ground arith) ∙ calls)
  ];
  once = λ i j n g k. elim (put-cases id i r.made n r.sessions g) [
    | inl (same, own) ↦ elim (put-cases id j r.made n r.sessions k) [
      | inl (same', own') ↦ sym same ∙ same'
      | inr (differ, old) ↦ absurd (omega (arith, own, (h.active j n old).0))
    ]
    | inr (differ, old) ↦ elim (put-cases id j r.made n r.sessions k) [
      | inl (same', own') ↦ absurd (omega (arith, own', (h.active i n old).0))
      | inr (differ', old') ↦ h.once i j n old old'
    ]
  ];
  legal = λ n. elim (Bool-cases (r.made == n)) [
    | inl same ↦
        let e : r.made ≡ n = ground arith in
        ap (λ m. is_legal (calls_of m (started id r).trace)) (sym e)
        ∙ ap is_legal (started_own id r h)
    | inr differ ↦ ap is_legal (started_other id n r differ) ∙ h.legal n
  ];
  unique = put-Unique id r.made r.sessions h.unique;
}

-- A node whose build raises.
unbuilt_own : (r : Runner) → IsOrdered r → calls_of r.made (unbuilt r).trace ≡ build ∷ []
unfolding calls_of
unbuilt_own r h =
    calls_of-append r.made r.trace ((r.made, build) ∷ [])
    ∙ ap (λ cs. cs ++ calls_of r.made ((r.made, build) ∷ [])) (h.fresh r.made (omega arith))
    ∙ ground arith

unbuilt_other :
    (n : ℕ) (r : Runner) → (r.made == n) ≡ false → calls_of n (unbuilt r).trace ≡ calls_of n r.trace
unbuilt_other n r differ =
    calls_of-append n r.trace ((r.made, build) ∷ [])
    ∙ ap (λ cs. calls_of n r.trace ++ cs) (calls_of-other n r.made true differ).2
    ∙ append-nil (calls_of n r.trace)

pub unbuilt-IsOrdered : (r : Runner) → IsOrdered r → IsOrdered (unbuilt r)
unbuilt-IsOrdered r h = record {
  fresh = λ n k. unbuilt_other n r (ground arith) ∙ h.fresh n (omega (arith, k));
  active = λ i n g.
      let (below, calls) = h.active i n g in
      (omega (arith, below), unbuilt_other n r (ground arith) ∙ calls);
  once = h.once;
  legal = λ n. elim (Bool-cases (r.made == n)) [
    | inl same ↦
        let e : r.made ≡ n = ground arith in
        ap (λ m. is_legal (calls_of m (unbuilt r).trace)) (sym e) ∙ ap is_legal (unbuilt_own r h)
    | inr differ ↦ ap is_legal (unbuilt_other n r differ) ∙ h.legal n
  ];
  unique = h.unique;
}

-- The state after a stop that finds a node.
abbrev pub ended : Bool → String → ℕ → Runner → Runner
ended alive id node r = record {
  made = r.made;
  sessions = remove id r.sessions;
  trace = r.trace ++ ending alive node;
}

ending_legal :
    (alive : Bool) (node : ℕ)
    → is_legal (build ∷ start_thread ∷ calls_of node (ending alive node)) ≡ true
unfolding calls_of
ending_legal true node = ground arith
ending_legal false node = ground arith

ended_own :
    (alive : Bool) (id : String) (node : ℕ) (r : Runner)
    → IsOrdered r
    → get id r.sessions ≡ some node
    → is_legal (calls_of node (ended alive id node r).trace) ≡ true
ended_own alive id node r h g =
    ap is_legal (
      calls_of-append node r.trace (ending alive node)
      ∙ ap (λ cs. cs ++ calls_of node (ending alive node)) (h.active id node g).1)
    ∙ ending_legal alive node

ended_other :
    (alive : Bool) (id : String) (node n : ℕ) (r : Runner)
    → (node == n) ≡ false
    → calls_of n (ended alive id node r).trace ≡ calls_of n r.trace
ended_other alive id node n r differ =
    calls_of-append n r.trace (ending alive node)
    ∙ ap (λ cs. calls_of n r.trace ++ cs) (calls_of-other n node alive differ).1
    ∙ append-nil (calls_of n r.trace)

-- A session that is left is another one.
left_over :
    (id i : String) (n : ℕ) (r : Runner)
    → IsOrdered r
    → get i (remove id r.sessions) ≡ some n
    → ((id == i) ≡ false) × (get i r.sessions ≡ some n)
left_over id i n r h g = elim (Bool-cases (id == i)) [
  | inl same ↦ let e = (eq_iff id i).0 same in cc (get-remove_self id r.sessions h.unique, e, g)
  | inr differ ↦ (differ, sym (get-remove_other id i r.sessions differ) ∙ g)
]

-- Different sessions have different nodes.
other_node :
    (id i : String) (node n : ℕ) (r : Runner)
    → IsOrdered r
    → get id r.sessions ≡ some node
    → (id == i) ≡ false
    → get i r.sessions ≡ some n
    → (node == n) ≡ false
other_node id i node n r h g differ old = elim (Bool-cases (node == n)) [
  | inl same ↦
      let e : node ≡ n = ground arith in
      let one = h.once id i n (g ∙ ap some e) old in cc (beq_refl i, one, differ)
  | inr other ↦ other
]

pub ended-IsOrdered :
    (alive : Bool) (id : String) (node : ℕ) (r : Runner)
    → IsOrdered r
    → get id r.sessions ≡ some node
    → IsOrdered (ended alive id node r)
ended-IsOrdered alive id node r h g = record {
  fresh = λ n k.
      let below = (h.active id node g).0 in
      ended_other alive id node n r (ground arith) ∙ h.fresh n k;
  active = λ i n l.
      let (differ, old) = left_over id i n r h l in
      (
        (h.active i n old).0,
        ended_other alive id node n r (other_node id i node n r h g differ old)
            ∙ (h.active i n old).1,
      );
  once = λ i j n k l. h.once i j n (left_over id i n r h k).1 (left_over id j n r h l).1;
  legal = λ n. elim (Bool-cases (node == n)) [
    | inl same ↦
        let e : node ≡ n = ground arith in
        ap (λ m. is_legal (calls_of m (ended alive id node r).trace)) (sym e)
        ∙ ended_own alive id node r h g
    | inr differ ↦ ap is_legal (ended_other alive id node n r differ) ∙ h.legal n
  ];
  unique = remove-Unique id r.sessions h.unique;
}

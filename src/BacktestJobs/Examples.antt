-- ===== src/BacktestJobs/Examples.antt =====
-- The theorems on packages/backtest_jobs, with a digest that gives the two keys of the requests different texts.
use nautilus_builder.Prelude.{
  Bool, true, false, ◌||◌, ◌==◌, if◌then◌else◌, ◌∙◌, sym, Bool-cases, inl, inr, list_beq_iff,
  eq_iff, none, some, String, List, [], ◌∷◌, ok, err, string_eq, list_eq, pair_eq, ◌≡◌, refl, arith,
}
use nautilus_builder.Prelude.Dict.{Dict, get, put}
use nautilus_builder.Auth.Models.{UserProjectContext}
use nautilus_builder.BacktestJobs.Job.{
  BacktestJob, Key, first_given, canonical_payload, make_key, payload_from_job,
}
use nautilus_builder.BacktestJobs.Service.{
  outside_scope, BacktestJobService, new, make_job_id, event_stream_id, new_job, store, create_job,
  check_scope, get_job, update, transition_job, request_cancel, in_context,
}
use nautilus_builder.BacktestJobs.Calls.{Call, create, transition, cancel, call, run, all_ask}
use nautilus_builder.BacktestJobs.Links.{HasApart}
use nautilus_builder.BacktestJobs.Once.{create_job_once}
use nautilus_builder.BacktestJobs.Scope.{outside_raises}

-- A request that uses an old name of the version, and a job that runs and is then cancelled.
abbrev request : Dict String String
request = ("strategy_version_id", "v1") ∷ ("compile_artifact_id", "art") ∷ ("project_id", "p") ∷ []

abbrev other_request : Dict String String
other_request = ("strategy_version_id", "v2") ∷ []

-- Two texts of more than 12 characters, one of them for the first request.
unfoldable digest : Key → String
digest k =
    if k == make_key request
    then "0123456789abcdef0123456789abcdef"
    else "fedcba9876543210fedcba9876543210"

abbrev listed : Key → Bool
listed k = k == make_key request || k == make_key other_request

digest_own : (k : Key) → (k == make_key request) ≡ true → make_job_id digest k ≡ "bt_0123456789ab"
unfolding make_job_id digest
digest_own k h = rw (h, make_job_id) refl

digest_other :
    (k : Key) → (k == make_key request) ≡ false → make_job_id digest k ≡ "bt_fedcba987654"
unfolding make_job_id digest
digest_other k h = rw (h, make_job_id) refl

other_listed :
    (k : Key) → (k == make_key request) ≡ false → listed k ≡ true → k ≡ make_key other_request
other_listed k h a = (list_beq_iff k (make_key other_request)).0 (ground arith)

differ :
    (k l : Key)
    → (k == make_key request) ≡ true
    → (l == make_key request) ≡ false
    → make_job_id digest k ≡ make_job_id digest l
    → (true ≡ false)
differ k l own other h = sym (
    (eq_iff "bt_0123456789ab" "bt_fedcba987654").1
      (sym (digest_own k own) ∙ h ∙ digest_other l other))

apart : HasApart digest listed
apart k l a b h = elim (Bool-cases (k == make_key request)) [
  | inl own ↦ elim (Bool-cases (l == make_key request)) [
    | inl own' ↦
        (list_beq_iff k (make_key request)).0 own ∙ sym ((list_beq_iff l (make_key request)).0 own')
    | inr other ↦ cc (differ k l own other h)
  ]
  | inr other ↦ elim (Bool-cases (l == make_key request)) [
    | inl own ↦ cc (differ l k own other (sym h))
    | inr other' ↦ other_listed k other a ∙ sym (other_listed l other' b)
  ]
]

abbrev name : String
name = make_job_id digest (make_key request)

abbrev before : List Call
before = create "10:00" other_request ∷ []

abbrev between : List Call
between = transition "10:02" name "RUNNING" (some "w") none none ∷ cancel "10:03" name none ∷ []

abbrev first_job : BacktestJob × BacktestJobService
first_job = create_job digest "10:01" request (run digest before new)

abbrev later_state : BacktestJobService
later_state = run digest between first_job.1

all_listed :
    (all_ask listed before ≡ true)
    × (listed (make_key request) ≡ true)
    × (all_ask listed between ≡ true)
unfolding make_key get
all_listed = (refl, refl, refl)

create_job_once_example :
    (j : BacktestJob) × (create_job digest "10:04" request later_state ≡ (j, later_state))
    × (get_job first_job.0.job_id none later_state ≡ ok j)
    × (j.job_id ≡ first_job.0.job_id)
create_job_once_example =
    create_job_once digest listed apart before between "10:01" "10:04" request all_listed.0
      all_listed.1 all_listed.2

abbrev stranger : UserProjectContext
stranger = record { user_id = "system"; project_id = "default"; role = "builder" }

-- The job is there, and it is not the stranger's.
there :
    (j : BacktestJob) × (get name later_state.jobs_by_id ≡ some j)
    × (in_context (some stranger) j ≡ false)
    × (j.stage ≡ "CANCEL_REQUESTED")
    × (j.worker_id ≡ "w")
unfolding create_job call run get put store make_key canonical_payload first_given make_job_id
    new_job event_stream_id transition_job request_cancel get_job check_scope update
    payload_from_job in_context digest
there = (_, refl, refl, refl, refl)

outside_raises_example :
    (get_job name (some stranger) later_state ≡ err outside_scope)
    × (transition_job "10:05" name "RUNNING" none none (some stranger) later_state
        ≡ err outside_scope)
    × (request_cancel "10:05" name (some stranger) later_state ≡ err outside_scope)
outside_raises_example =
    outside_raises "10:05" name "RUNNING" none none stranger later_state there.0 there.1 there.2

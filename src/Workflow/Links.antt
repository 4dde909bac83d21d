-- ===== src/Workflow/Links.antt =====
-- What the records of packages/workflow_spine name is stored: a chain from each suggestion to its
-- strategy, and numbers that are never used twice.
use nautilus_builder.Prelude.{
  true, none, some, String, List, [], ◌∷◌, ok, string_eq, ◌≡◌, refl, sym, ◌∙◌, arith, >>=-eq-ok,
  or_raise-eq-ok, or_raise, passed,
}
use mathlib.Core.Path.{subst}
use nautilus_builder.Prelude.Dict.{Dict, get}
use nautilus_builder.Prelude.Dict.Laws.{get-Entries, put-Entries, Entries-mono, known, known-put}
use nautilus_builder.Workflow.Models.{
  StrategyVersionIdentity, WorkflowJobRecord, WorkflowResultRecord, AiSuggestionRecord, any_empty,
  invalid_model, unknown_job, unknown_result, unknown_version, missing_thread, missing_cycle,
}
use nautilus_builder.Workflow.Repository.{
  Repository, save_strategy, save_version, save_job, save_result, save_ai_suggestion, in_project,
  result_of,
}
use nautilus_builder.Workflow.Service.{
  WorkflowService, new_service, Completed, Suggested, result_record, make_result, suggestion_record,
  make_suggestion, strategy_of, version_of, job_of,
}
use nautilus_builder.Workflow.Calls.{
  Call, call, run, Moved, refused, skipped, by_create, by_complete, by_suggest, call-Moved,
  completed, suggested,
}
use nautilus_builder.Workflow.Records.{
  Kept, JobLinked, ResultLinked, SuggestionLinked, IsLinked, holds_versions, holds_jobs,
  created-IsLinked,
}

made_result :
    (c : Completed) (r : Repository) (x : WorkflowResultRecord)
    → make_result c r ≡ ok x
    → (j : WorkflowJobRecord) × (get c.test_job_id r.jobs ≡ some j) × (x ≡ result_record c j)
unfolding make_result
made_result c r x h =
    let (j, found, rest) = >>=-eq-ok (or_raise (get c.test_job_id r.jobs) unknown_job) _ h in
    let (_, same) =
      passed (any_empty (c.result_id ∷ [])) invalid_model (ok (result_record c j)) rest in
    (j, or_raise-eq-ok (get c.test_job_id r.jobs) unknown_job j found, cc same)

pub result_of_unscoped :
    (id : String) (r : Repository) → result_of id none r ≡ ok (get id r.results)
unfolding result_of in_project
result_of_unscoped id r = ground arith

made_suggestion :
    (a : Suggested) (r : Repository) (y : AiSuggestionRecord)
    → make_suggestion a r ≡ ok y
    → (x : WorkflowResultRecord) × (v : StrategyVersionIdentity) × (thread : String)
      × (cycle : String) × (get a.result_id r.results ≡ some x)
      × (get x.strategy_version_id r.versions ≡ some v)
      × (v.ai_thread_id ≡ some thread)
      × (v.improvement_cycle_id ≡ some cycle)
      × (y ≡ suggestion_record a x thread cycle)
unfolding make_suggestion
made_suggestion a r y h =
    let (o, e0, r0) = >>=-eq-ok (result_of a.result_id none r) _ h in
    let (x, e1, r1) = >>=-eq-ok (or_raise o unknown_result) _ r0 in
    let (v, e2, r2) =
      >>=-eq-ok (or_raise (get x.strategy_version_id r.versions) unknown_version) _ r1 in
    let (thread, e3, r3) = >>=-eq-ok (or_raise v.ai_thread_id missing_thread) _ r2 in
    let (cycle, e4, r4) = >>=-eq-ok (or_raise v.improvement_cycle_id missing_cycle) _ r3 in
    let (_, same) =
      passed (any_empty (a.suggestion_id ∷ thread ∷ cycle ∷ a.suggestion_type ∷ a.message ∷ []))
        invalid_model (ok (suggestion_record a x thread cycle)) r4 in
    let known_result = or_raise-eq-ok o unknown_result x e1 in
    (
      x,
      v,
      thread,
      cycle,
      cc (result_of_unscoped a.result_id r, e0, known_result),
      or_raise-eq-ok (get x.strategy_version_id r.versions) unknown_version v e2,
      or_raise-eq-ok v.ai_thread_id missing_thread thread e3,
      or_raise-eq-ok v.improvement_cycle_id missing_cycle cycle e4,
      cc same,
    )

get-known :
    (k : String) (v : WorkflowResultRecord) (d : Dict String WorkflowResultRecord)
    → get k d ≡ some v
    → known k d ≡ true
get-known k v d h = rw (h, known) refl

completed-IsLinked :
    (c : Completed) (s : WorkflowService) (x : WorkflowResultRecord)
    → IsLinked s
    → make_result c s.repository ≡ ok x
    → IsLinked (completed x s)
unfolding save_result result_record
completed-IsLinked c s x l made =
    let (j, found, same) = made_result c s.repository x made in
    let after = save_result x s.repository in
    record {
      versions = l.versions;
      jobs = l.jobs;
      results = put-Entries (ResultLinked after) x.result_id x s.repository.results l.results (
        refl,
        j,
        (λ i. get (same i).test_job_id s.repository.jobs) ∙ found,
        cc same,
        cc same,
        cc same,
      );
      suggestions =
          Entries-mono (SuggestionLinked s.repository) (SuggestionLinked after)
            s.repository.suggestions
            (λ k y h. (
              h.0,
              h.1,
              h.2,
              h.3,
              h.4,
              h.5,
              known-put x.result_id y.result_id x s.repository.results h.6,
            ))
            l.suggestions;
      free_strategies = l.free_strategies;
      free_versions = l.free_versions;
      free_jobs = l.free_jobs;
    }

suggested-IsLinked :
    (a : Suggested) (s : WorkflowService) (y : AiSuggestionRecord)
    → IsLinked s
    → make_suggestion a s.repository ≡ ok y
    → IsLinked (suggested y s)
unfolding save_ai_suggestion suggestion_record
suggested-IsLinked a s y l made =
    let (x, v, thread, cycle, found, versioned, e3, e4, same) =
      made_suggestion a s.repository y made in
    let (named, j, job_found, _, same_lineage, same_version) =
      get-Entries (ResultLinked s.repository) a.result_id x s.repository.results l.results found in
    let (_, v', version_found, lineage) =
      get-Entries (JobLinked s.repository) x.test_job_id j s.repository.jobs l.jobs job_found in
    let same_result : y.result_id ≡ a.result_id = cc in
    let after = save_ai_suggestion y s.repository in
    record {
      versions = l.versions;
      jobs = l.jobs;
      results = l.results;
      suggestions =
          put-Entries (SuggestionLinked after) y.suggestion_id y s.repository.suggestions
            l.suggestions
            (
              refl,
              v,
              (λ i. get (same i).strategy_version_id s.repository.versions) ∙ versioned,
              cc,
              cc,
              cc,
              (λ i. known (same_result i) s.repository.results)
                  ∙ get-known a.result_id x s.repository.results found,
            );
      free_strategies = l.free_strategies;
      free_versions = l.free_versions;
      free_jobs = l.free_jobs;
    }

Moved-IsLinked : {s u : WorkflowService} → Moved s u → IsLinked s → IsLinked u
Moved-IsLinked (refused e) l = subst IsLinked (sym e) l
Moved-IsLinked {s} (skipped e) l = subst IsLinked (sym e) (record {
  versions = l.versions;
  jobs = l.jobs;
  results = l.results;
  suggestions = l.suggestions;
  free_strategies = λ m h. l.free_strategies m (omega arith);
  free_versions = λ m h. l.free_versions m (omega arith);
  free_jobs = λ m h. l.free_jobs m (omega arith);
})
Moved-IsLinked {s} (by_create t e) l = subst IsLinked (sym e) (created-IsLinked t s l)
Moved-IsLinked {s} (by_complete c x made e) l =
    subst IsLinked (sym e) (completed-IsLinked c s x l made)
Moved-IsLinked {s} (by_suggest a x made e) l =
    subst IsLinked (sym e) (suggested-IsLinked a s x l made)

pub run_from-IsLinked : (cs : List Call) (s : WorkflowService) → IsLinked s → IsLinked (run cs s)
unfolding run
run_from-IsLinked [] s l = l
run_from-IsLinked (c ∷ cs) s l = run_from-IsLinked cs (call c s) (Moved-IsLinked (call-Moved c s) l)

new-IsLinked : IsLinked new_service
unfolding get
new-IsLinked = record {
  versions = tt;
  jobs = tt;
  results = tt;
  suggestions = tt;
  free_strategies = λ m h. refl;
  free_versions = λ m h. refl;
  free_jobs = λ m h. refl;
}

-- After any calls of the workflow service: each version names a stored strategy of its own lineage;
-- each job a stored version of its lineage; each result a stored job with its project, lineage and
-- version; each suggestion the id of a stored result, which may since have been recorded again for
-- another job, and a stored version of its lineage that holds its thread and its improvement cycle;
-- and no number that is still to come has been used.
pub run-IsLinked : (cs : List Call) → IsLinked (run cs new_service)
run-IsLinked cs = run_from-IsLinked cs new_service new-IsLinked

-- What is stored of jobs and versions stays stored.
abbrev pub KeepsRecords : WorkflowService → WorkflowService → Type 0
KeepsRecords s u =
    Kept s.repository.jobs u.repository.jobs × Kept s.repository.versions u.repository.versions

Moved-KeepsRecords : {s u : WorkflowService} → Moved s u → IsLinked s → KeepsRecords s u
unfolding save_job save_version save_strategy save_result save_ai_suggestion strategy_of version_of
    job_of
Moved-KeepsRecords {s} (refused e) l = subst (KeepsRecords s) (sym e) ((λ k v h. h), λ k v h. h)
Moved-KeepsRecords {s} (skipped e) l = subst (KeepsRecords s) (sym e) ((λ k v h. h), λ k v h. h)
Moved-KeepsRecords {s} (by_create t e) l =
    subst (KeepsRecords s) (sym e) (holds_jobs t s l, holds_versions t s l)
Moved-KeepsRecords {s} (by_complete c x made e) l =
    subst (KeepsRecords s) (sym e) ((λ k v h. h), λ k v h. h)
Moved-KeepsRecords {s} (by_suggest a x made e) l =
    subst (KeepsRecords s) (sym e) ((λ k v h. h), λ k v h. h)

pub run-KeepsRecords :
    (cs : List Call) (s : WorkflowService) → IsLinked s → KeepsRecords s (run cs s)
unfolding run
run-KeepsRecords [] s l = ((λ k v h. h), λ k v h. h)
run-KeepsRecords (c ∷ cs) s l =
    let moved = call-Moved c s in
    let first = Moved-KeepsRecords moved l in
    let later = run-KeepsRecords cs (call c s) (Moved-IsLinked moved l) in
    ((λ k v h. later.0 k v (first.0 k v h)), λ k v h. later.1 k v (first.1 k v h))

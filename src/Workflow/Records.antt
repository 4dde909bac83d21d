-- ===== src/Workflow/Records.antt =====
-- How the records of packages/workflow_spine name one another, and what `create_version_and_enqueue_test`
-- adds to them.
use nautilus_builder.Prelude.{
  ℕ, suc, ◌≤◌, ◌<◌, true, false, none, some, String, ◌==◌, string_eq, ◌≡◌, refl, ◌∙◌, arith, eq_iff,
  inl, inr, Bool-cases,
}
use nautilus_builder.Prelude.Decimal.{padded_injective}
use nautilus_builder.Prelude.Dict.{Dict, get, put}
use nautilus_builder.Prelude.Dict.Laws.{
  Entries, put-Entries, Entries-mono, get-put, get-put_self, get-put_other, known,
}
use nautilus_builder.Workflow.Models.{
  StrategyIdentity, StrategyVersionIdentity, WorkflowJobRecord, WorkflowResultRecord,
  AiSuggestionRecord,
}
use nautilus_builder.Workflow.Repository.{Repository, save_strategy, save_version, save_job}
use nautilus_builder.Workflow.Service.{
  WorkflowService, NewTest, numbered, strategy_of, version_of, job_of,
}
use nautilus_builder.Workflow.Calls.{created}

-- Every number from `n` on is unused under the prefix.
abbrev pub Unused : {V : Type 0} → String → ℕ → Dict String V → Type 0
Unused prefix n d = (m : ℕ) → n ≤ m → get (numbered prefix m) d ≡ none

-- What is stored stays so.
abbrev pub Kept : {V : Type 0} → Dict String V → Dict String V → Type 0
Kept {V} d d' = (k : String) (v : V) → get k d ≡ some v → get k d' ≡ some v

pub numbered-ne :
    (prefix : String) (m n : ℕ) → n < m → (numbered prefix n == numbered prefix m) ≡ false
unfolding numbered
numbered-ne prefix m n h = elim (Bool-cases (numbered prefix n == numbered prefix m)) [
  | inl same ↦ absurd (
      omega (
        arith,
        padded_injective prefix 3 n m ((eq_iff (numbered prefix n) (numbered prefix m)).0 same),
      ))
  | inr differ ↦ differ
]

module _ {V : Type 0} where
  pub put-Kept : (k : String) (w : V) (d : Dict String V) → get k d ≡ none → Kept d (put k w d)
  put-Kept k w d new j v h = ground (arith, get-put k j w d, eq_iff k j)

  pub put-Unused :
      (prefix : String) (n : ℕ) (w : V) (d : Dict String V)
      → Unused prefix n d
      → Unused prefix (suc n) (put (numbered prefix n) w d)
  put-Unused prefix n w d free m h =
      get-put_other (numbered prefix n) (numbered prefix m) w d
        (numbered-ne prefix m n (omega arith))
      ∙ free m (omega arith)

abbrev pub VersionLinked : Repository → String → StrategyVersionIdentity → Type 0
VersionLinked r k v =
    (v.strategy_version_id ≡ k)
    × (x : StrategyIdentity) × (get v.strategy_id r.strategies ≡ some x)
    × (x.strategy_lineage_id ≡ v.strategy_lineage_id)

abbrev pub JobLinked : Repository → String → WorkflowJobRecord → Type 0
JobLinked r k j =
    (j.test_job_id ≡ k)
    × (v : StrategyVersionIdentity) × (get j.strategy_version_id r.versions ≡ some v)
    × (v.strategy_lineage_id ≡ j.strategy_lineage_id)

abbrev pub ResultLinked : Repository → String → WorkflowResultRecord → Type 0
ResultLinked r k x =
    (x.result_id ≡ k)
    × (j : WorkflowJobRecord) × (get x.test_job_id r.jobs ≡ some j)
    × (j.project_id ≡ x.project_id)
    × (j.strategy_lineage_id ≡ x.strategy_lineage_id)
    × (j.strategy_version_id ≡ x.strategy_version_id)

abbrev pub SuggestionLinked : Repository → String → AiSuggestionRecord → Type 0
SuggestionLinked r k y =
    (y.suggestion_id ≡ k)
    × (v : StrategyVersionIdentity) × (get y.strategy_version_id r.versions ≡ some v)
    × (v.strategy_lineage_id ≡ y.strategy_lineage_id)
    × (v.ai_thread_id ≡ some y.ai_thread_id)
    × (v.improvement_cycle_id ≡ some y.improvement_cycle_id)
    × (known y.result_id r.results ≡ true)

pub record IsLinked (s : WorkflowService) : Type 0 where
  pub versions : Entries (VersionLinked s.repository) s.repository.versions
  pub jobs : Entries (JobLinked s.repository) s.repository.jobs
  pub results : Entries (ResultLinked s.repository) s.repository.results
  pub suggestions : Entries (SuggestionLinked s.repository) s.repository.suggestions
  pub free_strategies : Unused "strat_" s.counter s.repository.strategies
  pub free_versions : Unused "sv_" s.counter s.repository.versions
  pub free_jobs : Unused "job_" s.counter s.repository.jobs

abbrev pub saved : NewTest → WorkflowService → Repository
saved t s = record s.repository {
  strategies = put (numbered "strat_" s.counter) (strategy_of t s.counter) s.repository.strategies;
  versions = put (numbered "sv_" s.counter) (version_of t s.counter) s.repository.versions;
  jobs = put (numbered "job_" s.counter) (job_of t s.counter) s.repository.jobs;
}

module _ (t : NewTest) (s : WorkflowService) (l : IsLinked s) where
  pub holds_strategies : Kept s.repository.strategies (saved t s).strategies
  holds_strategies =
      put-Kept _ (strategy_of t s.counter) s.repository.strategies
        (l.free_strategies s.counter (omega arith))

  pub holds_versions : Kept s.repository.versions (saved t s).versions
  holds_versions =
      put-Kept _ (version_of t s.counter) s.repository.versions
        (l.free_versions s.counter (omega arith))

  pub holds_jobs : Kept s.repository.jobs (saved t s).jobs
  holds_jobs =
      put-Kept _ (job_of t s.counter) s.repository.jobs (l.free_jobs s.counter (omega arith))

  pub created-IsLinked : IsLinked (created t s)
  unfolding save_job save_version save_strategy strategy_of version_of job_of
  created-IsLinked = record {
    versions =
        put-Entries (VersionLinked (saved t s)) (numbered "sv_" s.counter) (version_of t s.counter)
          s.repository.versions
          (Entries-mono (VersionLinked s.repository) (VersionLinked (saved t s))
            s.repository.versions (λ k v h. (h.0, h.1, holds_strategies _ _ h.2, h.3)) l.versions)
          (refl, strategy_of t s.counter, get-put_self _ _ s.repository.strategies, refl);
    jobs =
        put-Entries (JobLinked (saved t s)) (numbered "job_" s.counter) (job_of t s.counter)
          s.repository.jobs
          (Entries-mono (JobLinked s.repository) (JobLinked (saved t s)) s.repository.jobs
            (λ k j h. (h.0, h.1, holds_versions _ _ h.2, h.3)) l.jobs)
          (refl, version_of t s.counter, get-put_self _ _ s.repository.versions, refl);
    results =
        Entries-mono (ResultLinked s.repository) (ResultLinked (saved t s)) s.repository.results
          (λ k x h. (h.0, h.1, holds_jobs _ _ h.2, h.3, h.4, h.5)) l.results;
    suggestions =
        Entries-mono (SuggestionLinked s.repository) (SuggestionLinked (saved t s))
          s.repository.suggestions (λ k y h. (h.0, h.1, holds_versions _ _ h.2, h.3, h.4, h.5, h.6))
          l.suggestions;
    free_strategies = put-Unused "strat_" s.counter _ s.repository.strategies l.free_strategies;
    free_versions = put-Unused "sv_" s.counter _ s.repository.versions l.free_versions;
    free_jobs = put-Unused "job_" s.counter _ s.repository.jobs l.free_jobs;
  }

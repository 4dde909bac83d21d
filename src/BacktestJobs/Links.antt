-- ===== src/BacktestJobs/Links.antt =====
-- The two dictionaries of packages/backtest_jobs/service.py name the same jobs.
use mathlib.Core.Path.{subst}
use nautilus_builder.Prelude.{
  Bool, true, false, some, String, ◌==◌, string_eq, list_eq, pair_eq, ◌≡◌, ◌∙◌, sym, ap, eq_iff,
  Bool-cases, inl, inr, beq_refl, list_beq_iff,
}
use nautilus_builder.Prelude.Dict.{get, put}
use nautilus_builder.Prelude.Dict.Laws.{get-put_self, get-put_other, put-cases}
use nautilus_builder.BacktestJobs.Job.{BacktestJob, Key, job_key}
use nautilus_builder.BacktestJobs.Service.{BacktestJobService, new, store, make_job_id}

module _ (digest : Key → String) (listed : Key → Bool) where
  -- A job's name is the digest of its key, one of the keys that are listed.
  abbrev pub IsNamed : BacktestJob → Type 0
  IsNamed j = (j.job_id ≡ make_job_id digest (job_key j)) × (listed (job_key j) ≡ true)

  -- Every job stands under its own key and under its own name, in both dictionaries.
  abbrev pub IsLinked : BacktestJobService → Type 0
  IsLinked s =
      ((k : Key) (j : BacktestJob)
        → get k s.jobs_by_key ≡ some j
        → (job_key j ≡ k) × IsNamed j × (get j.job_id s.jobs_by_id ≡ some j))
      × ((i : String) (j : BacktestJob)
          → get i s.jobs_by_id ≡ some j
          → (j.job_id ≡ i) × IsNamed j × (get (job_key j) s.jobs_by_key ≡ some j))

  pub new-IsLinked : IsLinked new
  unfolding get
  new-IsLinked = (λ k j h. cc h, λ i j h. cc h)

  -- The listed keys have different names.
  abbrev pub HasApart : Type 0
  HasApart =
      (k l : Key)
      → listed k ≡ true
      → listed l ≡ true
      → make_job_id digest k ≡ make_job_id digest l
      → k ≡ l

  module _ (apart : HasApart) where
    -- Jobs of one name have one key.
    named_once :
        (i j : BacktestJob) → IsNamed i → IsNamed j → i.job_id ≡ j.job_id → job_key i ≡ job_key j
    named_once i j m n h = apart (job_key i) (job_key j) m.1 n.1 (sym m.0 ∙ h ∙ n.0)

    -- Jobs with different keys have different names.
    names_differ :
        (i j : BacktestJob)
        → IsNamed i
        → IsNamed j
        → (job_key i == job_key j) ≡ false
        → (i.job_id == j.job_id) ≡ false
    names_differ i j m n differ = elim (Bool-cases (i.job_id == j.job_id)) [
      | inl same ↦
          cc (named_once i j m n ((eq_iff i.job_id j.job_id).0 same), beq_refl (job_key j), differ)
      | inr other ↦ other
    ]

    keys_differ :
        (i j : BacktestJob)
        → IsNamed i
        → IsNamed j
        → (i.job_id == j.job_id) ≡ false
        → (job_key i == job_key j) ≡ false
    keys_differ i j m n differ = elim (Bool-cases (job_key i == job_key j)) [
      | inl same ↦
          cc (m.0, n.0, (list_beq_iff (job_key i) (job_key j)).0 same, beq_refl j.job_id, differ)
      | inr other ↦ other
    ]

    -- One job is stored under its key and its name.
    pub store-IsLinked :
        (s : BacktestJobService) (j : BacktestJob)
        → IsLinked s
        → IsNamed j
        → IsLinked (store (job_key j) j s)
    unfolding store
    store-IsLinked s j (by_key, by_id) n = (
      λ k i h. elim (put-cases (job_key j) k j i s.jobs_by_key h) [
        | inl (same, own) ↦
            subst
              (λ (q : BacktestJob).
                (job_key q ≡ k) × IsNamed q × (get q.job_id (put j.job_id j s.jobs_by_id) ≡ some q))
              own (same, n, get-put_self j.job_id j s.jobs_by_id)
        | inr (differ, old) ↦
            let (key_i, m, there) = by_key k i old in
            (
              key_i,
              m,
              get-put_other j.job_id i.job_id j s.jobs_by_id
                    (names_differ j i n m (ap (λ q. job_key j == q) key_i ∙ differ))
                  ∙ there,
            )
      ],
      λ k i h. elim (put-cases j.job_id k j i s.jobs_by_id h) [
        | inl (same, own) ↦
            subst
              (λ (q : BacktestJob).
                (q.job_id ≡ k)
                × IsNamed q
                × (get (job_key q) (put (job_key j) j s.jobs_by_key) ≡ some q))
              own (same, n, get-put_self (job_key j) j s.jobs_by_key)
        | inr (differ, old) ↦
            let (name_i, m, there) = by_id k i old in
            (
              name_i,
              m,
              get-put_other (job_key j) (job_key i) j s.jobs_by_key
                    (keys_differ j i n m (ap (λ q. j.job_id == q) name_i ∙ differ))
                  ∙ there,
            )
      ],
    )

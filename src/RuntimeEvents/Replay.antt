-- ===== src/RuntimeEvents/Replay.antt =====
-- What packages/runtime_events replays of a job, after events of any jobs were appended.
use mathlib.Core.Path.{subst}
use nautilus_builder.Json.{set_default}
use nautilus_builder.Prelude.{
  ℕ, suc, true, false, String, List, [], ◌∷◌, ◌++◌, length, select, ◌==◌, string_eq, if◌then◌else◌,
  ◌≡◌, ◌∙◌, refl, sym, ap, arith, eq_iff, Bool-cases, inl, inr, beq_refl,
}
use mathlib.Core.List.{append-nil, append_assoc}
use nautilus_builder.Prelude.Dict.{get, put}
use nautilus_builder.Prelude.Dict.Laws.{get-put}
use nautilus_builder.RuntimeEvents.Stream.{
  RuntimeEvent, Stream, replay, append_to, Appended, or_empty, event_id_of, event_of, append_event,
}

-- Calls of `append_event`, one after another.
unfoldable pub append_all : List Appended → Stream → Stream
unfolding append_event
append_all [] s = s
append_all (a ∷ calls) s = append_all calls (append_event a s).1

-- The events that calls ask for.
abbrev pub asked : String → List Appended → List Appended
asked job_id calls = select (λ (a : Appended). a.job_id == job_id) calls

asked_own :
    (job_id : String) (a : Appended) (calls : List Appended)
    → (a.job_id == job_id) ≡ true
    → asked job_id (a ∷ calls) ≡ a ∷ asked job_id calls
asked_own job_id a calls same = rw same refl

asked_other :
    (job_id : String) (a : Appended) (calls : List Appended)
    → (a.job_id == job_id) ≡ false
    → asked job_id (a ∷ calls) ≡ asked job_id calls
asked_other job_id a calls differ = rw differ refl

replay-put :
    (k job_id : String) (events : List RuntimeEvent) (s : Stream)
    → replay job_id (put k events s) ≡ (if k == job_id then events else replay job_id s)
unfolding replay
replay-put k job_id events s = rw (get-put k job_id events s, replay) (ground arith)

-- The replay of a job after one call: one event more, or what it was.
replay-own :
    (a : Appended) (s : Stream)
    → replay a.job_id (append_event a s).1
      ≡ replay a.job_id s ++ event_of a (length (replay a.job_id s)) ∷ []
unfolding append_event append_to event_of
replay-own a s =
    let events = replay a.job_id s ++ event_of a (length (replay a.job_id s)) ∷ [] in
    replay-put a.job_id a.job_id events s ∙ rw (beq_refl a.job_id) refl

replay-other :
    (job_id : String) (a : Appended) (s : Stream)
    → (a.job_id == job_id) ≡ false
    → replay job_id (append_event a s).1 ≡ replay job_id s
unfolding append_event append_to event_of
replay-other job_id a s differ =
    let events = replay a.job_id s ++ event_of a (length (replay a.job_id s)) ∷ [] in
    replay-put a.job_id job_id events s ∙ rw differ refl

-- The events that the calls ask for, where the job has `n` events: each with the texts, the clock and
-- the payload of its call, and numbered in a row.
unfoldable pub events_from : ℕ → List Appended → List RuntimeEvent
events_from n [] = []
events_from n (a ∷ calls) =
    record {
      event_id = event_id_of a.job_id (suc n);
      job_id = a.job_id;
      actor_type = a.actor_type;
      actor_id = a.actor_id;
      stage = a.stage;
      level = a.level;
      message = a.message;
      timestamp = a.now;
      metadata = set_default "progress_pct" a.progress_pct (or_empty a.metadata);
      progress_pct = a.progress_pct;
    }
    ∷ events_from (suc n) calls

length-snoc : (xs : List RuntimeEvent) (x : RuntimeEvent) → length (xs ++ x ∷ []) ≡ suc (length xs)
length-snoc [] x = refl
length-snoc (y ∷ xs) x = ap suc (length-snoc xs x)

event_of-first :
    (a : Appended) (n : ℕ) (calls : List Appended)
    → events_from n (a ∷ calls) ≡ event_of a n ∷ events_from (suc n) calls
unfolding event_of events_from
event_of-first a n calls = refl

replay-next :
    (job_id : String) (a : Appended) (calls : List Appended) (s : Stream)
    → replay job_id (append_event a s).1
        ++ events_from (length (replay job_id (append_event a s).1)) (asked job_id calls)
      ≡ replay job_id s ++ events_from (length (replay job_id s)) (asked job_id (a ∷ calls))
replay-next job_id a calls s = elim (Bool-cases (a.job_id == job_id)) [
  | inl same ↦
      let n = length (replay a.job_id s) in
      subst
        (λ k.
          replay k (append_event a s).1
            ++ events_from (length (replay k (append_event a s).1)) (asked job_id calls)
          ≡ replay k s ++ events_from (length (replay k s)) (asked job_id (a ∷ calls)))
        ((eq_iff a.job_id job_id).0 same)
        (ap (λ es. es ++ events_from (length es) (asked job_id calls)) (replay-own a s)
          ∙ ap (λ m. (replay a.job_id s ++ event_of a n ∷ []) ++ events_from m (asked job_id calls))
              (length-snoc (replay a.job_id s) (event_of a n))
          ∙ append_assoc (replay a.job_id s) (event_of a n ∷ [])
              (events_from (suc n) (asked job_id calls))
          ∙ ap (λ es. replay a.job_id s ++ es) (sym (event_of-first a n (asked job_id calls)))
          ∙ ap (λ cs. replay a.job_id s ++ events_from n cs) (sym (asked_own job_id a calls same)))
  | inr differ ↦
      ap (λ es. es ++ events_from (length es) (asked job_id calls)) (replay-other job_id a s differ)
      ∙ ap (λ cs. replay job_id s ++ events_from (length (replay job_id s)) cs)
          (sym (asked_other job_id a calls differ))
]

append_all-replay :
    (job_id : String) (calls : List Appended) (s : Stream)
    → replay job_id (append_all calls s)
      ≡ replay job_id s ++ events_from (length (replay job_id s)) (asked job_id calls)
unfolding append_all events_from
append_all-replay job_id [] s = sym (append-nil (replay job_id s))
append_all-replay job_id (a ∷ calls) s =
    append_all-replay job_id calls (append_event a s).1 ∙ replay-next job_id a calls s

-- After any calls of `append_event` on a new stream, for any jobs in any order, a job's replay is the
-- list of exactly the events that were appended for it, in their order, with every field as the call
-- gave it; the ids are numbered from 1 on without a gap, and the percentage is part of the metadata
-- where they do not have one.
pub append_all_lem :
    (job_id : String) (calls : List Appended)
    → replay job_id (append_all calls []) ≡ events_from 0 (asked job_id calls)
unfolding replay get
append_all_lem job_id calls = append_all-replay job_id calls []

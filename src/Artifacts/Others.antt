-- ===== src/Artifacts/Others.antt =====
-- Writing an artifact of packages/artifact_store/service.py leaves every other one as it was.
use nautilus_builder.Prelude.{
  String, ok, ◌==◌, string_eq, ◌≡◌, ◌≢◌, refl, sym, ap, ◌∙◌, inl, inr, Bool-cases, Result-cases,
  eq_iff,
}
use nautilus_builder.Prelude.Dict.{get}
use nautilus_builder.Prelude.Dict.Laws.{get-put_other}
use nautilus_builder.Auth.Models.{UserProjectContext, ScopedArtifactRef}
use nautilus_builder.Artifacts.Store.{
  ArtifactRecord, Codec, Files, scoped_ref, NewArtifact, scope_of, put_json, get_json,
}
use nautilus_builder.Artifacts.Paths.{path_text, path_for_safe, scoped_ref-AllSafe, path_injective}
use nautilus_builder.Artifacts.RoundTrip.{put_json-eq-ok}

-- `get_json` reads one file only.
get_json_same_file :
    (c : Codec) (root ref : String) (reader : UserProjectContext) (x : ScopedArtifactRef)
    (files files' : Files)
    → scoped_ref ref ≡ ok x
    → get (path_text root x) files' ≡ get (path_text root x) files
    → get_json c root reader ref files' ≡ get_json c root reader ref files
unfolding get_json
get_json_same_file c root ref reader x files files' reads same =
    rw (reads, get_json)
      (rw (path_for_safe root x (scoped_ref-AllSafe ref x reads), get_json)
        (rw (same, get_json) refl))

module _ (c : Codec) (root : String) (context : UserProjectContext) (a : NewArtifact)
    (files files' : Files) (r : ArtifactRecord)
    (returned : put_json c root context a files ≡ ok (r, files')) where
  -- After an artifact was written, whatever anyone reads by a reference of another scope, another
  -- type or another identifier gives what it gave before, errors included.
  pub get_json-put_json_other :
      (reader : UserProjectContext) (ref : String)
      → scoped_ref ref ≢ ok (scope_of context a)
      → get_json c root reader ref files' ≡ get_json c root reader ref files
  unfolding get_json
  get_json-put_json_other reader ref other = elim (Result-cases (scoped_ref ref)) [
    | inr (e, raised) ↦ rw (raised, get_json) refl
    | inl (x, reads) ↦
        let (safe, _, written) = put_json-eq-ok c root context a files files' r returned in
        let y = scope_of context a in
        elim (Bool-cases (path_text root y == path_text root x)) [
          | inl same ↦ absurd (
              other (
                reads
                ∙ ap ok (
                    path_injective root x y (scoped_ref-AllSafe ref x reads) safe
                      (sym ((eq_iff (path_text root y) (path_text root x)).0 same)))))
          | inr differ ↦
              get_json_same_file c root ref reader x files files' reads
                (ap (get (path_text root x)) written ∙ get-put_other _ _ _ files differ)
        ]
  ]

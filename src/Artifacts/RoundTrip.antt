-- ===== src/Artifacts/RoundTrip.antt =====
-- What `put_json` of packages/artifact_store/service.py stored, `get_json` reads back.
use nautilus_builder.Prelude.{
  some, String, ok, string_eq, beq_refl, ◌≡◌, refl, sym, ap, ◌∙◌, arith, eq_iff, >>=-eq-ok,
}
use nautilus_builder.Prelude.Dict.{get, put}
use nautilus_builder.Prelude.Dict.Laws.{get-put_self}
use nautilus_builder.Json.{Payload}
use nautilus_builder.Auth.Models.{UserProjectContext}
use nautilus_builder.Auth.Policy.{assert_same_project}
use nautilus_builder.Artifacts.Store.{
  ArtifactRecord, StoredJsonArtifact, Codec, Files, artifact_ref_of, safe_identifier, path_for,
  check_scope, NewArtifact, scope_of, record_of, put_json, get_json, verify_ref,
}
use nautilus_builder.Artifacts.Paths.{
  AllSafe, path_text, path_for-eq-ok, path_for_safe, scoped_ref-artifact_ref_of,
}

-- What is relied on of JSON: reading the text of an envelope gives the same record, and a payload with
-- the same canonical text, in which only the order of the keys may differ.
pub record IsLawful (c : Codec) : Type 0 where
  pub read-write :
      (e : StoredJsonArtifact)
      → (p : Payload) × (c.read (c.write e) ≡ some (record e { payload = p }))
        × (c.canonical_json p ≡ c.canonical_json e.payload)

check_scope_own :
    (context : UserProjectContext) (a : NewArtifact)
    → check_scope context (scope_of context a) ≡ ok tt
unfolding check_scope assert_same_project
check_scope_own context a =
    rw (beq_refl context.user_id, check_scope) (rw (beq_refl context.project_id, check_scope) refl)

pub put_json-eq-ok :
    (c : Codec) (root : String) (context : UserProjectContext) (a : NewArtifact)
    (files files' : Files) (r : ArtifactRecord)
    → put_json c root context a files ≡ ok (r, files')
    → AllSafe (scope_of context a)
      × (r ≡ record_of c root context a (path_text root (scope_of context a)))
      × (files'
          ≡ put
              (path_text root (scope_of context a))
              (c.write (record {
                entry = record_of c root context a (path_text root (scope_of context a));
                payload = a.payload;
              }))
              files)
unfolding put_json
put_json-eq-ok c root context a files files' r h =
    let (_, _, r1) = >>=-eq-ok (safe_identifier a.artifact_type) _ h in
    let (_, _, r2) = >>=-eq-ok (safe_identifier a.artifact_id) _ r1 in
    let (path, made, r3) = >>=-eq-ok (path_for root (scope_of context a)) _ r2 in
    let (safe, same) = path_for-eq-ok root (scope_of context a) path made in
    let own : r ≡ record_of c root context a path = cc in
    let written : files'
        ≡ put path
            (c.write (record { entry = record_of c root context a path; payload = a.payload }))
            files =
      cc in
    (
      safe,
      own ∙ ap (record_of c root context a) same,
      written ∙ (λ i.
          put (same i)
            (c.write (record { entry = record_of c root context a (same i); payload = a.payload }))
            files),
    )

module _ (c : Codec) (root : String) (context : UserProjectContext) (a : NewArtifact) where
  -- The file that `put_json` writes.
  abbrev pub stored : StoredJsonArtifact
  stored = record {
    entry = record_of c root context a (path_text root (scope_of context a));
    payload = a.payload;
  }

  get_json_written :
      (p : Payload) (files : Files)
      → AllSafe (scope_of context a)
      → get (path_text root (scope_of context a)) files ≡ some (c.write stored)
      → c.read (c.write stored) ≡ some (record stored { payload = p })
      → c.canonical_json p ≡ c.canonical_json a.payload
      → get_json c root context (artifact_ref_of (scope_of context a)) files
        ≡ ok (record stored { payload = p })
  unfolding get_json record_of
  get_json_written p files safe found read same =
      let x = scope_of context a in
      let text = c.write stored in
      let reads = scoped_ref-artifact_ref_of x safe in
      rw (reads, get_json)
        (rw (check_scope_own context a, get_json)
          (rw (path_for_safe root x safe, get_json)
            (rw (found, get_json)
              (rw (read, get_json)
                (rw (reads, get_json)
                  (rw (check_scope_own context a, get_json)
                    (rw (same, get_json)
                      (rw (beq_refl (c.sha256 (c.canonical_json a.payload)), get_json) refl))))))))

verify_ref_known :
    (c : Codec) (root : String) (context : UserProjectContext) (ref : String) (files : Files)
    (e : StoredJsonArtifact)
    → get_json c root context ref files ≡ ok e
    → verify_ref c root context ref (some e.entry.checksum_sha256) files ≡ ok e.entry
unfolding verify_ref
verify_ref_known c root context ref files e h =
    rw (h, verify_ref) (ground (arith, eq_iff e.entry.checksum_sha256 e.entry.checksum_sha256))

-- What the store has written for a context, it reads back for that context by the reference of the
-- returned record: the same record, and a payload with the same canonical text. The reference is
-- verified against the checksum of the record.
pub get_json-put_json :
    (c : Codec)
    → IsLawful c
    → (root : String) (context : UserProjectContext) (a : NewArtifact) (files files' : Files)
      (r : ArtifactRecord)
    → put_json c root context a files ≡ ok (r, files')
    → (p : Payload) × (get_json c root context r.artifact_ref files'
        ≡ ok (record { entry = r; payload = p }))
      × (c.canonical_json p ≡ c.canonical_json a.payload)
      × (verify_ref c root context r.artifact_ref (some r.checksum_sha256) files' ≡ ok r)
unfolding record_of
get_json-put_json c lawful root context a files files' r h =
    let (safe, own, written) = put_json-eq-ok c root context a files files' r h in
    let (p, read, same) = lawful.read-write (stored c root context a) in
    let path = path_text root (scope_of context a) in
    let found : get path files' ≡ some (c.write (stored c root context a)) =
      ap (get path) written ∙ get-put_self path _ files in
    let back = get_json_written c root context a p files' safe found read same in
    let whole : get_json c root context r.artifact_ref files'
        ≡ ok (record { entry = r; payload = p }) =
      (λ i. get_json c root context (own i).artifact_ref files')
      ∙ back
      ∙ (λ i. ok (record { entry = sym own i; payload = p })) in
    (p, whole, same, verify_ref_known c root context r.artifact_ref files' _ whole)

-- ===== src/Artifacts/Store.antt =====
-- `LocalJsonArtifactStore` of packages/artifact_store/service.py, with the records of models.py. The
-- files are a dictionary from paths to texts. JSON, SHA-256 and the reading of an envelope into its
-- models are a parameter; `none` stands for each exception that `get_json` turns into
-- "artifact envelope invalid".
use nautilus_builder.Prelude.{
  ℕ, Bool, false, not, ◌&&◌, ◌||◌, Option, none, some, String, List, [], ◌∷◌, Result, ok, err,
  ◌>>=◌, ◌>>◌, raise_if, or_raise, ◌==◌, string_eq, nat_eq, leb,
}
use nautilus_builder.Prelude.Text.{append, split_at, all_codes, prefix, truthy}
use nautilus_builder.Prelude.Slashes.{slash, joined}
use nautilus_builder.Prelude.Dict.{Dict, get, put}
use nautilus_builder.Json.{Payload}
use nautilus_builder.Auth.Models.{UserProjectContext, ScopedArtifactRef}
use nautilus_builder.Auth.Policy.{assert_same_project}

pub record ArtifactRecord : Type 0 where
  pub artifact_ref : String
  pub artifact_type : String
  pub artifact_id : String
  pub user_id : String
  pub project_id : String
  pub path : String
  pub checksum_sha256 : String
  pub content_type : String
  pub created_at : String
  pub metadata : Dict String String

-- Also the contents of a file, `{"record": ..., "payload": ...}`.
pub record StoredJsonArtifact : Type 0 where
  pub entry : ArtifactRecord
  pub payload : Payload

pub record Codec : Type 0 where
  pub canonical_json : Payload → String
  pub sha256 : String → String
  pub write : StoredJsonArtifact → String
  pub read : String → Option StoredJsonArtifact

pub data ArtifactError : Type 0 where
  unsafe_identifier : String → ArtifactError
  invalid_ref outside_scope not_found invalid_envelope checksum_mismatch : ArtifactError

abbrev pub Files : Type 0
Files = Dict String String

-- `[A-Za-z0-9]`
unfoldable pub is_alphanumeric : ℕ → Bool
is_alphanumeric c = (leb 65 c && leb c 90) || (leb 97 c && leb c 122) || (leb 48 c && leb c 57)

-- `[A-Za-z0-9_.:-]`
unfoldable pub is_safe_code : ℕ → Bool
unfolding is_alphanumeric
is_safe_code c = is_alphanumeric c || c == 95 || c == 46 || c == 58 || c == 45

-- `_SAFE_IDENTIFIER.fullmatch`
unfoldable pub is_safe : String → Bool
unfolding is_alphanumeric is_safe_code
is_safe s = not (s == "") && all_codes is_alphanumeric (prefix 1 s) && all_codes is_safe_code s

unfoldable pub safe_identifier : String → Result ArtifactError String
unfolding is_safe
safe_identifier s = raise_if (not (is_safe s)) (unsafe_identifier s) >> ok s

abbrev pub artifact_prefix : String
artifact_prefix = "artifact://builder"

-- `_artifact_ref`
unfoldable pub artifact_ref_of : ScopedArtifactRef → String
artifact_ref_of a =
    joined artifact_prefix
      (joined a.project_id (joined a.user_id (joined a.artifact_type a.artifact_id)))

-- The seven parts of a reference.
unfoldable pub scope_of_parts : List String → Result ArtifactError ScopedArtifactRef
unfolding safe_identifier
scope_of_parts (a ∷ b ∷ c ∷ project ∷ user ∷ kind ∷ id ∷ []) = do
  raise_if (not (joined a (joined b c) == artifact_prefix)) invalid_ref
  safe_kind ← safe_identifier kind
  safe_id ← safe_identifier id
  safe_user ← safe_identifier user
  safe_project ← safe_identifier project
  ok (record {
    artifact_type = safe_kind;
    artifact_id = safe_id;
    user_id = safe_user;
    project_id = safe_project;
  })
scope_of_parts _ = err invalid_ref

unfoldable pub scoped_ref : String → Result ArtifactError ScopedArtifactRef
unfolding scope_of_parts
scoped_ref artifact_ref = scope_of_parts (split_at slash artifact_ref)

-- `_path_for`
unfoldable pub path_for : String → ScopedArtifactRef → Result ArtifactError String
unfolding safe_identifier
path_for root a = do
  project ← safe_identifier a.project_id
  user ← safe_identifier a.user_id
  kind ← safe_identifier a.artifact_type
  id ← safe_identifier a.artifact_id
  ok (joined root (joined project (joined user (joined kind (append id ".json")))))

-- `assert_same_project`, which raises a PermissionError that no handler catches.
unfoldable pub check_scope :
    UserProjectContext → ScopedArtifactRef → Result ArtifactError (Unit {0})
unfolding assert_same_project
check_scope context a = elim (assert_same_project context a) [
  | ok _ ↦ ok tt
  | err _ ↦ err outside_scope
]

-- The arguments of `put_json`, and the clock's text.
pub record NewArtifact : Type 0 where
  pub artifact_type : String
  pub artifact_id : String
  pub payload : Payload
  pub metadata : Option (Dict String String)
  pub now : String

abbrev or_empty : Option (Dict String String) → Dict String String
or_empty none = []
or_empty (some d) = d

-- `expected_sha256 and checksum != expected_sha256`
abbrev pub differs : Option String → String → Bool
differs none checksum = false
differs (some expected) checksum = truthy expected && not (checksum == expected)

abbrev pub scope_of : UserProjectContext → NewArtifact → ScopedArtifactRef
scope_of context a = record {
  artifact_type = a.artifact_type;
  artifact_id = a.artifact_id;
  user_id = context.user_id;
  project_id = context.project_id;
}

module _ (c : Codec) (root : String) where
  unfoldable pub record_of : UserProjectContext → NewArtifact → String → ArtifactRecord
  unfolding artifact_ref_of
  record_of context a path = record {
    artifact_ref = artifact_ref_of (scope_of context a);
    artifact_type = a.artifact_type;
    artifact_id = a.artifact_id;
    user_id = context.user_id;
    project_id = context.project_id;
    path = path;
    checksum_sha256 = c.sha256 (c.canonical_json a.payload);
    content_type = "application/json";
    created_at = a.now;
    metadata = or_empty a.metadata;
  }

  -- The record that is returned, and the files with the artifact in place of an older one.
  unfoldable pub put_json :
      UserProjectContext → NewArtifact → Files → Result ArtifactError (ArtifactRecord × Files)
  unfolding record_of safe_identifier path_for
  put_json context a files = do
    _ ← safe_identifier a.artifact_type
    _ ← safe_identifier a.artifact_id
    path ← path_for root (scope_of context a)
    ok (
      record_of context a path,
      put path (c.write (record { entry = record_of context a path; payload = a.payload })) files,
    )

  unfoldable pub get_json :
      UserProjectContext → String → Files → Result ArtifactError StoredJsonArtifact
  unfolding scoped_ref check_scope path_for
  get_json context artifact_ref files = do
    a ← scoped_ref artifact_ref
    check_scope context a
    path ← path_for root a
    raw ← or_raise (get path files) not_found
    envelope ← or_raise (c.read raw) invalid_envelope
    own ← scoped_ref envelope.entry.artifact_ref
    check_scope context own
    raise_if (not (c.sha256 (c.canonical_json envelope.payload) == envelope.entry.checksum_sha256))
        checksum_mismatch
    ok envelope

  unfoldable pub verify_ref :
      UserProjectContext → String → Option String → Files → Result ArtifactError ArtifactRecord
  unfolding get_json
  verify_ref context artifact_ref expected files = do
    stored ← get_json context artifact_ref files
    raise_if (differs expected stored.entry.checksum_sha256) checksum_mismatch
    ok stored.entry

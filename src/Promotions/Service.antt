-- ===== src/Promotions/Service.antt =====
-- `PromotionService` of packages/promotions/service.py. The artifact store is an interface: what the
-- service reads of a stored artifact, by its reference.
use nautilus_builder.Prelude.{
  Bool, true, false, not, ◌&&◌, ◌||◌, Option, none, some, String, List, [], ◌∷◌, Result, ok, ◌>>=◌,
  ◌>>◌, raise_if, or_raise, ◌==◌, string_eq, optional_eq, nat_eq, if◌then◌else◌,
}
use nautilus_builder.Prelude.Text.{strip, starts_with}
use nautilus_builder.Prelude.Dict.{Dict, get}
use nautilus_builder.Promotions.Policy.{elem}
use nautilus_builder.Json.{Value, null, text, Payload}

pub data Error : Type 0 where
  unsupported_promotion_target : Error
  version_required hash_required gate_required approval_required : Error
  evidence_missing scoped_refs_required : Error
  store_error : Error
  type_mismatch hash_mismatch version_mismatch : String → Error

pub record PromotionRequest : Type 0 where
  pub strategy_version : String
  pub compile_hash : String
  pub profile : String
  pub may_submit_order : Bool
  pub may_create_trade_action : Bool
  pub gate_compatibility : Bool
  pub manual_approval : Bool
  pub evidence_refs : Dict String String
  pub evidence_checksums : Dict String String

-- `StoredJsonArtifact`, flattened with the fields of its record that are read here
pub record StoredArtifact : Type 0 where
  pub artifact_type : String
  pub metadata : Dict String String
  pub checksum_sha256 : String
  pub payload : Payload

-- `get_json` at the service's context, and Python's `str` of a value that is no text.
pub record ArtifactStore : Type 0 where
  pub get_json : String → Result Error StoredArtifact
  pub repr : Value → String

-- The fields of `PromotionEvidenceRefs`: strict texts of at least one character.
abbrev pub evidence_fields : List String
evidence_fields =
    "validation_report" ∷ "backtest_result" ∷ "no_lookahead_report" ∷ "gate_compatibility_report"
    ∷ "runtime_boundary_report" ∷ "risk_review" ∷ []

unfoldable pub strict_text : Option Value → Option String
strict_text (some (text s)) = if s == "" then none else some s
strict_text _ = none

unfoldable pub read_fields : List String → Payload → Result Error (Dict String String)
unfolding strict_text
read_fields [] d = ok []
read_fields (f ∷ fs) d = do
  ref ← or_raise (strict_text (get f d)) evidence_missing
  rest ← read_fields fs d
  ok ((f, ref) ∷ rest)

-- `extra="forbid"`: no key beside the fields
unfoldable pub only_keys : List String → Payload → Bool
unfolding elem
only_keys fs [] = true
only_keys fs ((k, v) ∷ d) = elem k fs && only_keys fs d

-- `PromotionEvidenceRefs.model_validate(…).model_dump()`
unfoldable pub validate_refs : Payload → Result Error (Dict String String)
unfolding read_fields only_keys
validate_refs d = do
  refs ← read_fields evidence_fields d
  raise_if (not (only_keys evidence_fields d)) evidence_missing
  ok refs

-- `_binding_value`
unfoldable pub binding_value : (Value → String) → StoredArtifact → String → Option String
binding_value repr a key = elim (get key a.metadata) [
  | some s ↦ some s
  | none ↦ elim (get key a.payload) [
    | some (text s) ↦ some s
    | some null ↦ none
    | some v ↦ some (repr v)
    | none ↦ none
  ]
]

-- the strategy version that an artifact is bound to, under either of its names
unfoldable pub bound_version : (Value → String) → StoredArtifact → Option String
unfolding binding_value
bound_version repr a = elim (binding_value repr a "strategy_version") [
  | some s ↦ some s
  | none ↦ binding_value repr a "strategy_version_id"
]

-- `_assert_evidence_binding`
unfoldable pub assert_evidence_binding :
    (Value → String) → String → StoredArtifact → String → String → Result Error (Unit {0})
unfolding binding_value bound_version
assert_evidence_binding repr key a compile_hash version = do
  raise_if (not (binding_value repr a "compile_hash" == some compile_hash)) (hash_mismatch key)
  raise_if (not (bound_version repr a == some version)) (version_mismatch key)
  ok tt

abbrev pub artifact_prefix : String
artifact_prefix = "artifact://builder/"

-- One round of the loop in `_validate_evidence`: the checksum of the artifact.
unfoldable pub check_evidence :
    ArtifactStore → String → String → String × String → Result Error String
unfolding assert_evidence_binding
check_evidence st compile_hash version (key, ref) = do
  raise_if (not (starts_with ref artifact_prefix)) scoped_refs_required
  a ← st.get_json ref
  raise_if (not (a.artifact_type == key)) (type_mismatch key)
  assert_evidence_binding st.repr key a compile_hash version
  ok a.checksum_sha256

-- The loop; the keys are the six fields, so that each checksum is a new entry.
unfoldable pub collect_checksums :
    ArtifactStore → String → String → Dict String String → Result Error (Dict String String)
unfolding check_evidence
collect_checksums st compile_hash version [] = ok []
collect_checksums st compile_hash version ((key, ref) ∷ refs) = do
  checksum ← check_evidence st compile_hash version (key, ref)
  rest ← collect_checksums st compile_hash version refs
  ok ((key, checksum) ∷ rest)

-- `_validate_evidence`; `none` where the service has no store or no context.
unfoldable pub validate_evidence :
    Option ArtifactStore
    → Payload
    → String
    → String
    → Result Error (Dict String String × Dict String String)
unfolding validate_refs collect_checksums
validate_evidence none d version compile_hash = do refs ← validate_refs d; ok (refs, [])
validate_evidence (some st) d version compile_hash = do
  refs ← validate_refs d
  checksums ← collect_checksums st compile_hash version refs
  ok (refs, checksums)

abbrev pub request :
    String → String → Bool → Dict String String → Dict String String → PromotionRequest
request version compile_hash approval refs checksums = record {
  strategy_version = version;
  compile_hash = compile_hash;
  profile = "signal_preview_only";
  may_submit_order = false;
  may_create_trade_action = false;
  gate_compatibility = true;
  manual_approval = approval;
  evidence_refs = refs;
  evidence_checksums = checksums;
}

unfoldable pub create_shadow_request :
    Option ArtifactStore → String → String → Bool → Payload → Result Error PromotionRequest
unfolding validate_evidence
create_shadow_request st version compile_hash gate_compatibility d = do
  raise_if (strip version == "") version_required
  raise_if (strip compile_hash == "") hash_required
  raise_if (not gate_compatibility) gate_required
  e ← validate_evidence st d version compile_hash
  ok (request version compile_hash false e.0 e.1)

unfoldable pub create_final_candidate :
    Option ArtifactStore → String → String → Bool → Bool → Payload → Result Error PromotionRequest
unfolding validate_evidence
create_final_candidate st version compile_hash gate_compatibility manual_approval d = do
  raise_if (strip version == "") version_required
  raise_if (strip compile_hash == "") hash_required
  raise_if (not manual_approval) approval_required
  raise_if (not gate_compatibility) gate_required
  e ← validate_evidence st d version compile_hash
  ok (request version compile_hash true e.0 e.1)

-- The dictionary that `request_builder_promotion` returns; its other entries are constants.
pub record BuilderPromotion : Type 0 where
  pub strategy_version_id : String
  pub result_id : String
  pub target : String
  pub approval_state : String
  pub manual_approval_required : Bool
  pub may_submit_order : Bool
  pub may_create_trade_action : Bool
  pub mode : String

unfoldable pub request_builder_promotion : String → String → String → Result Error BuilderPromotion
request_builder_promotion version_id result_id target = do
  raise_if (not (target == "shadow" || target == "signal-preview")) unsupported_promotion_target
  ok (record {
    strategy_version_id = version_id;
    result_id = result_id;
    target = target;
    approval_state = "manual_approval_pending";
    manual_approval_required = true;
    may_submit_order = false;
    may_create_trade_action = false;
    mode = "builder_safe_promotion_request";
  })

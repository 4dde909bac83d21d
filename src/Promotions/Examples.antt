-- ===== src/Promotions/Examples.antt =====
-- The theorems on packages/promotions at a version with all its evidence.
use nautilus_builder.Prelude.{
  true, false, some, String, [], ◌∷◌, ok, string_eq, or_raise, optional_eq, ◌≡◌, refl,
}
use nautilus_builder.Prelude.Dict.{Dict, get}
use nautilus_builder.Json.{text, Payload}
use nautilus_builder.Prelude.Text.{strip}
use nautilus_builder.Promotions.Gate.{PromotionEvidenceSet}
use nautilus_builder.Promotions.Policy.{elem}
use nautilus_builder.Promotions.Service.{
  store_error, StoredArtifact, ArtifactStore, strict_text, read_fields, only_keys, validate_refs,
  binding_value, bound_version, assert_evidence_binding, check_evidence, collect_checksums,
  validate_evidence, create_shadow_request, create_final_candidate, request,
}
use nautilus_builder.Promotions.Evidence.{IsSupported, create_final_candidate-IsSupported}

abbrev evidence_set : PromotionEvidenceSet
evidence_set = record {
  compile_artifact_ref = "artifact://compile";
  validation_result_ref = "artifact://validation";
  replay_manifest_ref = "";
  backtest_result_ref = "artifact://backtest";
  dataset_manifest_refs = [];
  manual_review_ref = "";
  data_tester_ref = "";
  exec_tester_ref = "";
  reconciliation_ref = "";
  is_synthetic_backtest = true;
}

-- A store whose artifacts are named by their types, one for the payload's strategy version.
abbrev artifact : String → StoredArtifact
artifact type = record {
  artifact_type = type;
  metadata = ("compile_hash", "hash") ∷ [];
  checksum_sha256 = type;
  payload = ("strategy_version_id", text "v1") ∷ [];
}

abbrev stored : Dict String StoredArtifact
stored =
    ("artifact://builder/validation_report", artifact "validation_report")
    ∷ ("artifact://builder/backtest_result", artifact "backtest_result")
    ∷ ("artifact://builder/no_lookahead_report", artifact "no_lookahead_report")
    ∷ ("artifact://builder/gate_compatibility_report", artifact "gate_compatibility_report")
    ∷ ("artifact://builder/runtime_boundary_report", artifact "runtime_boundary_report")
    ∷ ("artifact://builder/risk_review", artifact "risk_review")
    ∷ []

abbrev store : ArtifactStore
store = record { get_json = λ ref. or_raise (get ref stored) store_error; repr = λ v. "" }

abbrev evidence : Payload
evidence =
    ("validation_report", text "artifact://builder/validation_report")
    ∷ ("backtest_result", text "artifact://builder/backtest_result")
    ∷ ("no_lookahead_report", text "artifact://builder/no_lookahead_report")
    ∷ ("gate_compatibility_report", text "artifact://builder/gate_compatibility_report")
    ∷ ("runtime_boundary_report", text "artifact://builder/runtime_boundary_report")
    ∷ ("risk_review", text "artifact://builder/risk_review")
    ∷ []

abbrev refs : Dict String String
refs =
    ("validation_report", "artifact://builder/validation_report")
    ∷ ("backtest_result", "artifact://builder/backtest_result")
    ∷ ("no_lookahead_report", "artifact://builder/no_lookahead_report")
    ∷ ("gate_compatibility_report", "artifact://builder/gate_compatibility_report")
    ∷ ("runtime_boundary_report", "artifact://builder/runtime_boundary_report")
    ∷ ("risk_review", "artifact://builder/risk_review")
    ∷ []

abbrev sums : Dict String String
sums =
    ("validation_report", "validation_report")
    ∷ ("backtest_result", "backtest_result")
    ∷ ("no_lookahead_report", "no_lookahead_report")
    ∷ ("gate_compatibility_report", "gate_compatibility_report")
    ∷ ("runtime_boundary_report", "runtime_boundary_report")
    ∷ ("risk_review", "risk_review")
    ∷ []

-- Both requests are made.
requests_made :
    (create_shadow_request (some store) "v1" "hash" true evidence
      ≡ ok (request "v1" "hash" false refs sums))
    × (create_final_candidate (some store) "v1" "hash" true true evidence
        ≡ ok (request "v1" "hash" true refs sums))
unfolding create_shadow_request create_final_candidate validate_evidence validate_refs read_fields
    only_keys elem strict_text collect_checksums check_evidence assert_evidence_binding
    binding_value bound_version get strip
requests_made = (refl, refl)

create_final_candidate-IsSupported_example :
    IsSupported store (request "v1" "hash" true refs sums)
    × ((request "v1" "hash" true refs sums).manual_approval ≡ true)
    × (true ≡ true)
create_final_candidate-IsSupported_example =
    create_final_candidate-IsSupported store "v1" "hash" true true evidence
      (request "v1" "hash" true refs sums) requests_made.1

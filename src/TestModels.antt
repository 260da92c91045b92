-- ===== src/TestModels.antt =====
-- modules/test-models (the catalog and its service) and modules/participations/tutorial.catalog.ts:
-- what each test model asks for. Copy and names are not modelled.
use orbitplay_api.Prelude.{Bool, true, false, String, Option, none, some, List, [], ◌∷◌}
use orbitplay_api.Schema.Enums.{
  TestModelKey, free_exploration_telemetry, free_exploration, ab_test, ab_test_images, ConsentKind,
  screen_recording,
}

pub record TestModelView : Type 0 where
  pub key : TestModelKey
  pub requires_telemetry : Bool
  pub requires_build : Bool
  pub available : Bool
  pub unavailable_reason : Option String

-- `TEST_MODEL_CATALOG`, read by `TestModelsService.get`: every key of the enumeration is in it.
unfoldable pub test_model : TestModelKey → TestModelView
test_model free_exploration = record {
  key = free_exploration;
  requires_telemetry = false;
  requires_build = true;
  available = true;
  unavailable_reason = none;
}
test_model free_exploration_telemetry = record {
  key = free_exploration_telemetry;
  requires_telemetry = true;
  requires_build = true;
  available = false;
  unavailable_reason = some "O Orbit Plug-in ainda não está disponível nesta fase da plataforma.";
}
test_model ab_test = record {
  key = ab_test;
  requires_telemetry = false;
  requires_build = true;
  available = true;
  unavailable_reason = none;
}
test_model ab_test_images = record {
  key = ab_test_images;
  requires_telemetry = false;
  requires_build = false;
  available = true;
  unavailable_reason = none;
}

-- `tutorialForModel(modelKey).requiredConsents`
unfoldable pub required_consents : TestModelKey → List ConsentKind
required_consents ab_test_images = []
required_consents _ = screen_recording ∷ []

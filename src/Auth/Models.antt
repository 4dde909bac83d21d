-- ===== src/Auth/Models.antt =====
-- packages/auth/models.py: the context of a user in a project, and the scope of an artifact.
use nautilus_builder.Prelude.{String}

pub record UserProjectContext : Type 0 where
  pub user_id : String
  pub project_id : String
  pub role : String

pub record AuthToken : Type 0 where
  pub token : String
  pub context : UserProjectContext

pub record ScopedArtifactRef : Type 0 where
  pub artifact_type : String
  pub artifact_id : String
  pub user_id : String
  pub project_id : String

-- ===== src/Auth.antt =====
-- packages/auth: contexts and scopes, the environment's policy, tokens, capabilities and rate limits.
pub mod Models
pub mod Policy
pub mod Startup
pub mod Deployment
pub mod Capabilities
pub mod Roles
pub mod RateLimit
pub mod Window
pub mod Sliding
pub mod Tokens
pub mod Verify
mod Examples

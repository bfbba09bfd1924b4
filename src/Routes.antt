-- ===== src/Routes.antt =====
-- packages/server/src/routes: the HTTP handlers, over requests that their JSON schemas have let
-- through.
mod Tests
pub mod Response
pub mod Jobs
pub mod Schedules
pub mod Schemas

-- ===== src/Tests.antt =====
-- Runs of the theorems at concrete inputs, over a small world in place of realm-core.
mod World
mod SchemaRuns
mod PushRuns
mod NativeRuns
mod OpenRuns
mod HttpRuns
mod LoopRuns
mod CallbackRuns
mod ModuleRuns
mod PlaygroundRuns
mod RealmRuns
mod CollectionRuns
mod CurlWorld
mod ObjectRuns
mod UserRuns

-- ===== src/Workflow.antt =====
-- The workflow engine: a definition (Definition), a running process (Instance) and the engine that keeps and
-- moves the processes (Engine).
pub mod Definition
pub mod Instance
pub mod Engine

-- ===== src/Runtime.antt =====
-- Package runtime: the actor engine of one process (runtime/runtime.go and runtime/occupied.go).
pub mod Occupied
pub mod Engine

-- ===== src/Runtime.antt =====
-- backend/internal/runtime: the records of the engine's resources, the parts that do not call the
-- engine, and those that do with the engine's answers as parameters.
pub mod Types
pub mod ContainerGhosts
pub mod Sizes
pub mod Prune
pub mod Ports
pub mod CommandError
pub mod Build
pub mod Registry
pub mod Network
pub mod Mock

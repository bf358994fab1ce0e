-- ===== src/Models.antt =====
-- mesh/models: the data that the other components share.
pub mod Enums
pub mod Nodes
pub mod Tasks
pub mod Jobs
pub use Enums.*
unfoldable pub use Nodes.{meets_requirements}
pub use Nodes.{Node, NodeResources}
pub use Tasks.{ResourceRequirements, TaskSpec, Checkpoint}
unfoldable pub use Jobs.{is_terminal}
pub use Jobs.{JobState, Job}

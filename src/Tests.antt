-- ===== src/Tests.antt =====
-- Concrete numbers, times and resources, and the theorems at them.
pub mod Numbers
pub mod Resources
pub mod DecisionTests
pub mod ClassifierTests
pub mod ControllerTests
pub mod ManagerTests
pub mod ConfigTests
pub mod WorkerTests
pub mod FleetTests
pub mod SystemTests
pub mod ExplainerTests

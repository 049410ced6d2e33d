-- ===== src/Controller.antt =====
-- operator/controllers/collectormonitor_controller.go: the reconciler, in the modules below.
pub mod Cluster
pub mod Action
pub mod Discovery
pub mod Status
pub mod Connection
pub mod Fleet
pub mod Emergency
pub mod Handlers
pub mod Reconcile
pub mod Watching
pub mod Conditions
pub mod HealthLevels
pub mod HealthReports
pub mod InPlace
pub mod Sharing
pub mod Keeping
pub mod Steps
pub mod Paths
pub mod Connecting
pub mod Consistency
pub mod Connected
pub mod Messaging
pub mod Table
pub mod Turning
pub mod Running
pub mod Refining
pub mod Refined
pub mod Interleaved
pub mod Exclusive
pub mod Ending
pub mod Selected
pub mod Reporting
pub mod Checking
pub mod Courses
pub mod Complete
pub mod EmergencyCourses
pub mod ReadOnly
pub mod Ownership
pub mod Again
pub mod Acknowledging
pub mod Answering
pub mod Reconnecting
pub mod EmergencyRuns
pub mod GivingUp
pub mod Discovered
pub mod Drift
pub mod Disabled
pub mod Simulated
mod Tests
mod RunTests
mod EmergencyTests
mod CourseTests
mod ReportTests
mod InterleavedTests
mod SharingTests
mod AnswerTests

-- ===== src/Scripts.antt =====
-- The programs under scripts/ that test the balancer.
pub mod CheckResults
pub mod LoadTest
pub mod CourseServer
pub mod CbCompare
pub mod CbTest

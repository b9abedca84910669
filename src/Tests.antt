-- ===== src/Tests.antt =====
-- Runs of the definitions, and the theorems at concrete inputs.
mod WireTests
mod SurfaceTests
mod RelayTests
mod RegistryTests
mod SessionTests
mod EnrollmentTests
mod UpdateTests
mod SizingTests
mod FrameTests
mod HiveTests

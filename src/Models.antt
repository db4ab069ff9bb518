-- ===== src/Models.antt =====
-- The rows and enumerations of backend/app/models/ that the components read and write. Instants are
-- seconds on one UTC clock, so that `_as_utc`, which gives a naive instant its UTC zone, is the
-- identity; a row's identifier is a number; a text that the code only compares is a `String`.
pub mod Gateway
pub mod Attendance
pub mod Access
pub mod Auth

-- ===== src/Release.antt =====
-- hack/check-go-release-age/main.go: the check that no pinned module is younger than a given age.
pub mod Text
pub mod Dates
pub mod Pins
pub mod Allowlist
pub mod Lookup
pub mod Audit
mod Tests

-- ===== src/Util.antt =====
-- Helpers: slices and sets of lang/utils/strings.go and internal/utils/slice.go, and the markers of
-- internal/utils/marker.go.
pub mod Dedup
pub mod Marker

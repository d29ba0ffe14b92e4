-- ===== src/Api/Addresses.antt =====
-- The address that a device shows, and the request that gave it
-- (apps/api/internal/api/types.go).
use elp.Prelude.Eq.{string_comparable}

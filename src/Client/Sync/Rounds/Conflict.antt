-- ===== src/Client/Sync/Rounds/Conflict.antt =====
-- The copy that a pull makes of an edit that lost to the server.
use scrigno.Prelude.Bytes.{Bytes}

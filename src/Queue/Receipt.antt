-- ===== src/Queue/Receipt.antt =====
-- The receipts of the queue (internal/service/recoveryreceipt/queue.go), and the operations of the
-- ledger that read, pin and delete them: immutable ConfigMaps in a namespace of their own that record
-- the intent before the build is created.
mod Data
mod Pins
mod Cleanup
mod Recording
unfoldable pub use Data.*
unfoldable pub use Pins.*
unfoldable pub use Cleanup.*
unfoldable pub use Recording.*

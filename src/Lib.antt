-- ===== src/Lib.antt =====
-- Verification of kova, a Kubernetes-native image build service (github.com/cofy-x/kova).
--
-- A build is a KovaBuild resource. The HTTP service reserves a bounded queue intent before it
-- creates one, the controller grants it worker slots from a bounded ledger, and a runner Pod builds
-- it. Both ledgers are ConfigMaps changed by compare-and-swap.
--
-- Files and the code they model:
-- - Api: internal/apis/kova/v1alpha1/types.go.
-- - Recovery: the inert placeholder builds of internal/service/recoverydrain/drain.go.
-- - Admission: the grant decision of internal/service/buildcontroller/admission.go
--   (saturatedAdmission, decideAdmission, queuedAdmissionCandidates, fairQueue). Its proofs stand
--   in Admission/Decide, Admission/Limits and below Admission/Fair.
-- - Queue: the queue ledger of internal/service/queueadmission/ledger.go (its state and checks), with
--   Queue/Store (read, write, EnsureInitialized, Reserve, Lookup), Queue/Receipt (PinReceipt,
--   markReceiptCleanupReady, deletePinnedReceipt and internal/service/recoveryreceipt/queue.go) and
--   Queue/Release (VerifyForBuild, ReleaseForBuild, ReleaseRejected and its variants).
--   Queue/Steps is the abstract ledger, a relation of four steps; Queue/Evidence says what an
--   operation must have seen before each change, and Queue/Safety takes the operations one by one,
--   each with its scope, the changes that it may ask for at all;
--   Queue/Cluster puts the writes of all replicas together, in Queue/Cluster/Writing as writes that
--   runs of the operations ask for;
--   Queue/Quiet runs operations against a server that nobody else uses.
-- - Reservations: the state of the reservation ledger of internal/service/buildcontroller/reservation.go
--   and the grant that admission.go writes; Reservations/Grants joins it with the grant decision.
--   Reservations/Ledger reads, writes and initializes it, Reservations/Fences has fenceReservation,
--   releaseReservation, beginPodCreate and completePodCreate, Reservations/Admit has `admission` and
--   ensureNoUnreservedRunner, Reservations/Grant is grant_receipt.go, and Reservations/Pod is
--   pod_receipt.go. Reservations/Steps is the abstract ledger, a relation of four steps;
--   Reservations/Evidence says what an operation must have seen before each change,
--   Reservations/Safety takes the operations one by one, each with its scope, and
--   Reservations/Cluster puts the writes of all replicas together, in Reservations/Cluster/Writing
--   as writes that runs of the operations ask for.
-- - Receipts: the receipts of grants and of Pod creations,
--   internal/service/recoveryreceipt/effect.go. Templates: the canonical Pod template of
--   internal/service/recoveryreceipt/pod_template.go and the defaults that pod_receipt.go fills in.
-- - Coordinator: internal/service/buildcontroller/admission_coordinator.go, a state machine; its runs
--   stand in Coordinator/Wakeup.
-- - Effects: programs whose calls of the Kubernetes API, of the Genesis guard
--   (internal/service/admissiongenesis), of the clock and of the random source may be answered in
--   any way; Effects/Traces holds the rules for claims on all their runs.
-- - Base: shared names, Go strings as byte lists, Go maps as association lists, sorting.
--
-- Bounds and fuel: the interleaving of the fair queue runs at most as many rounds as there are
-- builds; each round takes a build while one is left, so the fuel is enough.
-- A CAS loop of either ledger has 16 attempts, as in the source, and then fails; the loops of the
-- model count the attempts left.
--
-- Parameters: JSON, SHA-256, UTF-8 and the Kubernetes name checks are the records Externals, Codec,
-- Payloads and TemplateCodec; image references are the field `reference` of Backend; what the
-- ledgers read of the Genesis guard is the records Genesis and Original. The fields of Pods that the
-- code does not look at are not modelled. Not modelled either: nil builds and nil clients, error
-- texts, and the other components of the repository.
pub mod Base
pub mod Api
pub mod Effects
pub mod Recovery
pub mod Admission
pub mod Queue
pub mod Receipts
pub mod Templates
pub mod Coordinator
pub mod Reservations

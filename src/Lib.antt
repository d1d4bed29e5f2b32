-- ===== src/Lib.antt =====
-- The Certificate controller of AWS Controllers for Kubernetes (ACM): the reconciliation code of
-- pkg/resource/certificate and pkg/tags, with the API types of apis/v1alpha1.
--
-- The program. main.go reads the flags, makes a manager of controllers with a resource manager's
-- factory for each kind, and starts it. A reconciler in the runtime, which is not in the
-- repository, calls the methods of a resource manager (manager.go): ReadOne, Create, Update,
-- Delete, LateInitialize and the methods on tags. They call the handlers of sdk.go (sdkFind,
-- sdkCreate, sdkUpdate, sdkDelete) and the hooks of hooks.go (import, export, comparison), which
-- call the AWS SDK, Kubernetes secrets and pkg/tags/sync.go, and end in onError or onSuccess,
-- which record the outcome in the conditions of the custom resource. references.go resolves the
-- reference to a certificate authority before that.
--
-- How code becomes definitions. A Go function without effects is a function on values: the custom
-- resource is a record with the fields of the source, a pointer that may be nil is an Option, and
-- a copy of a resource is the resource. A function with effects is a function of the calls made
-- so far (Go): it returns the calls made after it and an outcome, which is a value, an error, or
-- a panic (a nil dereference, a failed type assertion). Calls are recorded with their arguments,
-- the metrics included; logging is not. What the outside answers is a parameter (Sdk.Service)
-- that may depend on all earlier calls; errors (Sdk.Errors), cryptography
-- (Certificate.Export.Crypto), the comparisons and the conditions of the runtime
-- (Certificate.Delta.Compare, Certificate.LateInit) and the namespaces of references
-- (Certificate.References.CrossNamespace) are parameters too. A Go map is a list of entries with
-- one entry for each key, and the order in which `range` visits it is a parameter
-- (GoMap.RangeOrder), about which only this is used: it visits each entry once.
--
-- Three parts of the code need more. Goroutines that call ManagerFor at the same time are a step
-- relation (Certificate.Factory.Callers): a step is one statement of one of them, and
-- sync.RWMutex enters by what it documents, that a writer excludes everyone, readers exclude
-- writers, and a Lock that waits for readers excludes new ones. The generated deep copies are about sharing, so that Memory has the types of the API
-- again, with an address for every pointer and slice, and copies that allocate addresses. The
-- process of main.go has calls of its own (Controller.Action), and its error is the status with
-- which it exits.
--
-- Files:
--   Base                    texts, lists and Boolean tests
--   Go, GoMap               outcomes, panics and calls; maps
--   Api                     apis/v1alpha1/certificate.go and types.go
--   Sdk                     the shapes of the SDK, the calls, and calls with their metrics
--   Tags.Sync               pkg/tags/sync.go: SyncTags, addTags, removeTags, ListTags
--   Tags.Ack                pkg/resource/certificate/tags.go: ordered maps, system and AWS tags
--   Certificate             manager.go's fields, setStatusDefaults
--   Certificate.Payload     the request payloads of sdk.go
--   Certificate.Find        sdkFind, its merge block by block in Certificate.Find.Merge
--   Certificate.Create      sdkCreate, sdkDelete
--   Certificate.Import      maybeImportCertificate, importCertificate (hooks.go)
--   Certificate.Export      exportCertificate, DecryptPrivateKey (hooks.go)
--   Certificate.Update      sdkUpdate
--   Certificate.Delta       delta.go and the comparison hooks
--   Certificate.Conditions  updateConditions, terminalAWSError, onError, onSuccess
--   Certificate.Manager     ReadOne, Create, Update, Delete, IsSynced, ARNFromName (manager.go)
--   Certificate.AwsTags     EnsureTags, FilterSystemTags, mirrorAWSTags (manager.go)
--   Certificate.LateInit    LateInitialize and its helpers (manager.go)
--   Certificate.References  references.go
--   Certificate.Identity    resource.go and identifiers.go
--   Certificate.Descriptor  descriptor.go
--   Certificate.Factory     manager_factory.go, for one caller at a time
--   Certificate.Factory.Callers  ManagerFor, for any number of callers at the same time
--   Memory                  pointers with addresses
--   Memory.Certificate      certificates, lists of them and the resource, with DeepCopy in
--                           apis/v1alpha1/zz_generated.deepcopy.go and resource.go
--   Memory.Types            every type of the API with its copy; the types are in the other modules
--                           below Memory, one or a few in each
--   Controller              cmd/controller/main.go
--   Tests                   concrete resources and services
-- Modules named Laws, and the modules below Tags.Sync, Tags.Ack, Certificate.Conditions,
-- Certificate.Factory.Callers and Controller, hold theorems. What the manager's methods promise
-- to the reconciler is in Certificate.Manager.Answers (Create and Update),
-- Certificate.Manager.Reading (ReadOne), Certificate.Manager.Deleting (Delete) and
-- Certificate.LateInit.Answers. What a read was answered is in Certificate.Find.Answers, where it
-- drifts from the specification in Certificate.Find.Drift, and what an update does then in
-- Certificate.Update.InStep. What a successful handler has done is in Certificate.Create.Done and
-- Certificate.Update.Done; the differences of two certificates, said without the code that compares
-- them, in Certificate.Delta.Difference; what late initialisation may add in
-- Certificate.LateInit.Filling; and which authorities may be
-- referred to in Certificate.References.State. Modules named Safety say when code does not panic. Go.Avoids and
-- Go.Safe have what they share: calls that a function does not make, and functions that do not
-- panic.
--
-- Bounds. No loop needs fuel: each is recursion on the list or the map it visits. Numbers are
-- timestamps, bytes, lengths and addresses, on which the code does no arithmetic that could
-- overflow; the index into the passphrase's alphabet is taken modulo its length.
--
-- Not modelled: logging and tracing; enumerations and registration, which are constants; the
-- errors of newResourceManager, which returns none; and goroutines that call the methods of one
-- manager at the same time.
pub mod Base
pub mod GoMap
pub mod Go
pub mod Api
pub mod Sdk
pub mod Tags
pub mod Certificate
pub mod Controller
mod Tests
pub mod Memory

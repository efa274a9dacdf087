-- ===== src/Lib.antt =====
-- Verification of localgcp, emulators of Google Cloud services for local development.
--
-- The program runs one service for each emulated product. A service is a gRPC or HTTP handler
-- (internal/<name>/service.go) over a store (internal/<name>/store.go) that keeps its state in Go
-- maps under one lock and saves it as one JSON file after a write. The handlers check the request,
-- call the store, and turn the text of its errors into status codes. A loop in the service of
-- Cloud Tasks polls the store for the tasks that are due, and one in the service of Pub/Sub for
-- the messages of the push subscriptions.
--
-- The files:
--   Base            shared types and lemmas: text, maps, machine integers, decimals, base64
--   SecretManager   internal/secretmanager/store.go: CreateSecret is create_secret, and so on
--     Data            the records of the store and of its file
--     Versions        a single version and the versions of one secret
--     Persistence     persist, load and NewStore
--     Calls           a history of calls
--     Service         internal/secretmanager/service.go: the gRPC handlers
--     Invariant, Pointers, Preservation, Access, Numbers, Destroyed, Finality: proofs
--   Kms             internal/kms/store.go; Data, Algorithms, Asymmetric (signatures
--                   and public keys); Cipher and Keys: proofs
--     Service         internal/kms/service.go: the handlers
--   CloudTasks      internal/cloudtasks/store.go; Data, Persistence, Schedule (new tasks, due
--                   tasks, backoff); Calls (a history of calls); Backoff, Dispatching,
--                   Attempts, Bounded, Limits and Retries: proofs
--     Service         internal/cloudtasks/service.go: the handlers and the dispatch of a task;
--                     Serving: proofs
--   PubSub          internal/pubsub/store.go; Data, Persistence, Messages (the messages of one
--                   subscription); Calls (a history of calls); Delivery, Leases,
--                   Publishing, Acknowledging, Keys, Histories and Orphans: proofs
--     Service         internal/pubsub/service.go: the handlers; Push (the push loop and the
--                     streaming pull) and Pushing: proofs
--   Dispatch        internal/dispatch/dispatcher.go; Attempts: proofs
--   Firestore       internal/firestore/store.go: the documents; Data, Persistence, Watch (the log
--                   of the changes, watchers, resume tokens); Calls (a history of calls, and the
--                   feed that it refines); Ring, Held, Refine, Resume, Tokens and Masks:
--                   proofs
--     Compare, Query  internal/firestore/query.go: the order of the values and the queries;
--                     Filters, Flips, Joins and Ordering: proofs
--   Gcs             internal/gcs/store.go; Data, Persistence; Listing: proofs
--     Service         internal/gcs/service.go: the handlers and the routes; Answers (with
--                     internal/gcs/errors.go), Uploads; Resumable: proofs
--   Orchestrator    internal/orchestrator/lazy.go: the container that starts on demand; Containers:
--                   proofs
--   Logging         internal/logging/store.go; Data, Filters; Entries: proofs; Service
--                   (internal/logging/service.go)
--   Each part has a module Examples (CloudTasks also Requests, PubSub also DeadLetters) with the
--   concrete stores that the theorems are applied to.
--
-- How the code is modelled:
--   * A method of a store is a function from the store and the arguments to the result and the
--     store after it. The lock of the store makes each method one step.
--   * `time.Now()` is an argument `now`, in nanoseconds; a time is a number of nanoseconds from
--     the zero time of Go, which is 0.
--   * Text is a list of bytes. A Go map is a list of entries with distinct keys; the order of the
--     list is one order in which `range` may visit the map, and the statements hold for each.
--   * An int32 or int64 is its pattern below 2 ^ 32 or 2 ^ 64 where it only counts up, and its
--     value, with the wrap-around written out, where it may be negative.
--   * A pointer that the code keeps from a lookup is the place that the lookup found (a key, or a
--     place in a slice); a write through it is `alter` or `write_at` at that place.
--   * `disk` is the value that the JSON file encodes, `none` if there is no readable file. Go's
--     JSON is not modelled. Base64 is.
--   * The random source, the key generators, the digests and the signatures of the key store are
--     parameters.
--   * A request of GCS has what `encoding/json`, `mime` and `multipart` read from its body as
--     fields. ServeMux gives the handlers clean paths only.
--   * What the HTTP server, the context and the clock do to a dispatch is an argument, and so are
--     the operations on floats and the JSON of protojson. Each method of the store of Firestore is
--     one step, with the event that it sends; a channel is the list of what waits in it.
--   * Fuel: the digits of n are written with n + 1 rounds; the loop of the backoff has as many
--     rounds as the task has attempts, which its own condition does not exceed; the loop of a
--     dispatch has two rounds more than it has retries, of which the last only ends it;
--     the wait for a container has the 60 rounds of its loop.
--
-- Not modelled: the JSON text and the file system under it, gRPC and HTTP, logging; the handlers of
-- Firestore and the services of Cloud Run, whose models are still to come; the Docker runtime; and
-- Vertex AI, the server, the credentials and the command line, which are mostly input and output.
pub mod Base
pub mod SecretManager
pub mod Kms
pub mod CloudTasks
pub mod PubSub
pub mod Logging
pub mod Firestore
pub mod Dispatch
pub mod Gcs
pub mod Orchestrator

-- ===== src/Lib.antt =====
-- A model of garlic, a Go library for HTTP services, with the theorems that make its core correct.
-- The parts and their files:
--
-- Errors models the package errors. Errors/Kind and Errors/Registry are errors/kind.go (Kind,
-- Register, GetByCode, LookupByCode, Get, StatusCode, CustomizeStatusCode, Is); Errors/Status is
-- errors/status.go; Errors/Primitive and Errors/Catalog are errors/common.go and the errors.go of
-- database, httpclient and validator. Errors/Store is the heap that errors share: detail maps,
-- context maps and the backing arrays of traces. Errors/ErrorT is errors/errors.go with the
-- options of hint.go, details.go, context.go, revtrace.go, stacktrace.go and headless.go;
-- Errors/Caller is findCaller of errors/revtrace.go; Errors/Chain is errors/utils.go; Errors/Dto
-- is errors/dto.go; Errors/Set is field.go, set.go and template.go of errors.
--
-- Rest models rest/response.go, rest/route.go and rest/unrouted.go: it takes errors apart with
-- Errors/Chain, builds the sanitized error with Errors/ErrorT and sends a Dto. Its writer is the
-- response writer of net/http: informational statuses go out at once, the first final one is sent
-- and later ones are ignored, a status without three digits panics, and a write fails after a
-- status that has no body.
--
-- HttpClient/Retry models the send loop of httpclient/request.go (doWithRetry, injectAuth), and
-- HttpClient/Retry/Default the policy of httpclient/retry.go. HttpClient/Diagnostic and
-- HttpClient/StatusKind are the bounded diagnostics and the status kinds of
-- httpclient/response.go. HttpClient/Assembly is the preparation of a request in
-- httpclient/request.go (applyBody, runBefore, injectTracing) and the description of a response.
-- HttpClient/Draft is the request that a caller puts together: the setters of
-- httpclient/request.go and the bodies of httpclient/body.go. HttpClient/Send is Send, execute and
-- handleResponse of httpclient/request.go with buildURL of httpclient/client.go: it takes a draft,
-- prepares it with HttpClient/Assembly and hands it to HttpClient/Retry. HttpClient/Peer and
-- HttpClient/DecodeError are parseErrorDTO, capturePeerString, safeMediaType and DecodeError of
-- httpclient/response.go: they build errors with Errors/ErrorT and Errors/Dto.
--
-- Worker models the pool of worker/pool.go and worker/task.go as a step relation: any number of
-- callers of Submit, and one state for each goroutine of spawn. A send on the channel, which has
-- no buffer, is one step together with the receive. WaitAll returns where the group is at zero.
--
-- Release models hack/check-go-release-age/main.go: Release/Pins is parseGoSum, Release/Allowlist
-- is loadAllowlist and matches, Release/Lookup is fetchInfo and Release/Audit is run,
-- fetchViolations and main. Release/Text has the functions of the package strings that it uses and
-- Release/Dates the parsing of dates.
--
-- Database/Transaction models database/transaction.go and Storer.Transaction of
-- database/storer.go, and Database/Operations the operations of database/database.go.
-- Database/Filters is database/filter.go.
--
-- Database/Columns is database/utils: the slices of texts and the bindings of a patch.
--
-- Validator models the package validator: the messages for wrong fields, ParseValidationErrors,
-- which builds its error with Errors/ErrorT, the built-in tests and the validator of the process.
--
-- Request models the parsers of path and query parameters of request/requests.go, and
-- Request/Forms the forms of request/parser.go.
--
-- Rest/Server models rest/server.go: the servers by name, and Listen as a step relation of its two
-- goroutines, the channel of errors between them and the context.
--
-- Tracing models tracing/tracing.go, request/tracing.go and middleware/tracing.go. The context of
-- a request is the list of the values that were stored in it; Tracing/Middleware also has
-- injectTracing of a client that serves a request, by HttpClient/Assembly.
--
-- Middleware models MetricsMonitor, Logging and ContentTypeJson of the package middleware over a
-- handler that is the calls it makes on the writer of Rest (Middleware/Laws; those of Must are in
-- Middleware/Must), with the calls of monitoring/monitoring.go that they make.
--
-- Crypto models crypto/crypto.go over primitives that are arguments, and Flatten models
-- utils/flatten.go over what reflection shows of a struct: Flatten/Loop is the loop and
-- Flatten/Keys the keys that it builds. Errors/Failure stands for the error that such code builds
-- or hands on.
--
-- State is passed explicitly. An operation of the errors package takes a store and returns a
-- result and a store, or nothing where it panics by a write to a nil map. Kinds are never changed
-- once they are built, so the pointer to a parent is the parent. A builder applies its options to
-- an error that it has just made, so the struct is a value; With on an error that is held
-- elsewhere is not modelled. The text of a trace line is an argument, and so is the spare capacity
-- that the Go runtime gives a grown slice. Errors of other packages are a text, with one or
-- several causes; those that bring their own code or their own DTO are not modelled. HTTP statuses
-- are natural numbers.
--
-- The send loop runs over a world that stands for the network, the clock, the context and the
-- token source; the policy is an interface, and every theorem about the loop holds for any policy.
-- The loop of the source has no bound of its own; here it takes fuel, one round more than
-- MaxRetries, a theorem shows that this is enough and that more changes nothing, and the bound on
-- the sends holds for any fuel. Durations are the 64 bits of an int64, with the wrap of the
-- product written out. The JSON encoder, base64, the parsing of HTTP dates and the exponential
-- wait are arguments, as are the parsers of URLs and of media types, the YAML parser and the
-- module proxy, and the database driver is one with the documented behaviour of a transactional
-- driver as hypothesis.
--
-- Not modelled: the JSON text of DTOs and of error responses, the deadline that a request sets on
-- its context, the middlewares for cross-origin requests and for the cancelling of contexts, the
-- packages logging and toolkit, which are glue to third-party packages and the standard library,
-- and the linters, which walk the typed syntax trees of the Go compiler; log encoders, the
-- instruments of metrics and printed reports.
pub mod Common
pub mod Errors
pub mod Rest
pub mod HttpClient
pub mod Database
pub mod Request
pub mod Worker
pub mod Release
pub mod Crypto
pub mod Tracing
pub mod Flatten
pub mod Validator
pub mod Middleware

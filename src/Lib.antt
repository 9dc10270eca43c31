-- ===== src/Lib.antt =====
-- A verification library of go-autorest, the HTTP client runtime of the Azure SDK for Go.
--
-- The program sends HTTP requests through senders that decorators wrap, prepares requests by
-- preparers, repeats attempts by retriable requests, and follows Azure's long-running operations
-- by polling. A `Future` of autorest/azure/async.go holds a tracker, which a first response
-- creates; `DoneWithContext` polls once, by a request that preparers prepare and a sender sends;
-- `WaitForCompletionRef` calls it in a loop. Failed responses become a `ServiceError`
-- (autorest/azure/azure.go) and errors of the runtime a `DetailedError` (autorest/error.go).
-- Responders (autorest/responder.go), also composed of decorators, check a response's status,
-- decode its body and close it. Parameters are checked before a request is made
-- (autorest/validation/validation.go). Requests are authorized by tokens that autorest/adal gets
-- and refreshes: a `ServicePrincipalToken` asks the token endpoint, with its secret or with a
-- refresh token, or the metadata service of a virtual machine, with retries; `EnsureFresh` is
-- called by many goroutines; the device flow polls the endpoint until a user has signed in. A
-- `BearerAuthorizer` (autorest/authorization.go) refreshes the token and puts it into a request.
-- Requests to the storage services are signed with a shared key
-- (autorest/authorization_storage.go) or a shared access signature. A `Client`
-- (autorest/client.go) prepares a request with its authorizer and its inspectors and sends it; a
-- sender of autorest/azure/rp.go registers a resource provider that is missing, and sends the
-- request again.
--
-- The files:
--   Prelude, Prelude/Tests    names that all modules share, Boolean tests, integers
--   Result                    results of functions that return an error or panic, with a state
--   Json, Http, Platform      what is decoded, sent and answered, and the Go library's functions,
--                             which are parameters; Http also has autorest/autorest.go's
--                             ResponseHasStatusCode
--   Errors                    autorest/error.go: NewError, NewErrorWithError, NewErrorWithResponse
--   ServiceErrors             autorest/azure/azure.go: ServiceError.UnmarshalJSON
--   Preparers                 autorest/preparer.go: CreatePreparer, DecoratePreparer, and in
--     Preparers/Outgoing      the decorators of the method, the headers and the body;
--                             autorest/utility.go: ensureValueString, setHeader
--     Preparers/Templates     WithBaseURL, WithCustomBaseURL, WithPath, WithPathParameters,
--                             WithEscapedPathParameters, by Preparers/Text's strings.Replace
--     Preparers/ClientIds     autorest/azure/azure.go: WithReturningClientID
--     Preparers/Queries       WithQueryParameters; autorest/utility.go: MapToValues
--   Retriable                 autorest/retriablerequest.go, autorest/retriablerequest_1.8.go: Prepare
--   Sender                    autorest/sender.go: DoRetryForAttempts, DoRetryForDuration, the delays;
--                             Sender/Status: doRetryForStatusCodesImpl
--   Senders                   autorest/sender.go: AfterDelay, DoErrorIfStatusCode,
--                             DoErrorUnlessStatusCode, DoPollForStatusCodes; autorest/autorest.go:
--                             GetLocation, GetRetryAfter, NewPollingRequestWithContext;
--                             autorest/preparer.go: WithMethod, WithBaseURL
--   Respond                   autorest/responder.go, whose definitions are in Respond/Body (the
--                             response and its body, read and closed), Respond/Decorators (the
--                             decorators) and Respond/Chain (DecorateResponder); Respond/Azure:
--                             autorest/azure/azure.go's WithErrorUnlessStatusCode
--   Registration              autorest/azure/rp.go: getProvider, getSubscription and the requests
--                             (Registration/Requests), register (Registration/Register) and
--                             DoRetryWithRegistration (Registration/Retry)
--   Clients                   autorest/client.go: Do, Send (Clients/Client);
--                             autorest/authorization.go, autorest/authorization_sas.go: the
--                             authorizers by keys, signatures, several tenants and a callback, with
--                             the parser of bearer challenges (Clients/Authorizers)
--   Async                     autorest/azure/async.go, whose definitions are in
--     Async/Tracker           pollingTrackerBase, hasFailed, hasSucceeded, hasTerminated
--     Async/Body              updateRawBody, updateErrorFromResponse, getProvisioningState
--     Async/State             initializeState, updatePollingState, pollForStatus after the send
--     Async/Headers           getURLFromAsyncOpHeader, getURLFromLocationHeader, initPollingMethod
--     Async/Verbs             updatePollingMethod and checkForErrors of the four trackers
--     Async/Create            createPollingTracker
--     Async/Future            DoneWithContext, GetPollingDelay, GetResult and the accessors
--     Async/Wait              WaitForCompletionRef
--   Validation                autorest/validation/validation.go, with Validation/Unique (unique
--                             items), Validation/Rules (the constraints of each kind of value) and
--                             Validation/Validate (the recursion)
--   Adal                      autorest/adal, whose definitions are in
--     Adal/Types              token.go: Token, WillExpireIn, ServicePrincipalToken and its secrets;
--                             config.go: OAuthConfig; the environment; durations
--     Adal/Secrets            getGrantType, the SetAuthenticationValues of each secret
--     Adal/Create             the constructors of service principal tokens, getMSIType
--     Adal/Tenants            config.go: NewOAuthConfig, NewMultiTenantOAuthConfig; token.go: the
--                             tokens of several tenants
--     Adal/Imds               retryForIMDS
--     Adal/Refresh            refreshInternal, parseExpiresOn, InvokeRefreshCallbacks,
--                             RefreshExchange, EnsureFreshWithContext by one goroutine
--     Adal/Goroutines         EnsureFreshWithContext by many, as a step relation
--     Adal/Device             devicetoken.go: the device flow
--   SharedKey/Canonical       autorest/authorization_storage.go: buildCanonicalizedResource,
--                             buildCanonicalizedHeader, buildCanonicalizedString, WithAuthorization;
--                             SharedKey/Sorting: sort.Strings and other functions of the library
--   Bearer/Authorize          autorest/authorization.go: BearerAuthorizer.WithAuthorization
-- The other files below these hold what is proved of them, or runs (Scenarios).
--   Dates                     autorest/date/unixtime.go: the binary form of UnixTime
--
-- How the code is read. A method that changes a tracker is a function from a tracker to a result
-- and a tracker; what was written before an error stays written, and a nil dereference, a failed
-- type assertion or an explicit panic is a panic of the model. The sender, the clock and the
-- context act on a world of any type. Formatted messages keep their format and arguments.
-- strings.EqualFold, url.Parse, json.Unmarshal, regexp.Compile, the order of float64 and the like
-- are parameters; the law of EqualFold that one theorem uses is a named hypothesis on ASCII texts.
-- JSON is decoded into a type of values, in which nil and null are one.
--
-- Loops. The loop of `WaitForCompletionRef` runs on fuel, since a service may answer that an
-- operation is in progress for ever; where the sender replies without an error a bounded number
-- of times, fuel above that bound and the client's retry attempts together is enough. The loop
-- over status codes runs on fuel, and two more than the attempts are enough where a 429 counts;
-- the loop of `DoRetryForDuration` runs on fuel as the clock is a parameter, and that of
-- `DoPollForStatusCodes`, which has no bound of its own, as long as the service asks for polls.
-- `DoRetryForAttempts` and `retryForIMDS` recur on the attempts left, and the loop of
-- `WaitForUserCompletionWithContext` on fuel, of which one more than the rounds that are left is
-- enough. The polls of `register` run on fuel, for which any number above the polling duration is
-- enough where the clock goes on in a delay. The floating-point product of the backoff is taken
-- as exact. The durations of autorest/adal wrap at 64 bits; those of the senders and of
-- azure/async.go do not overflow.
--
-- The goroutines that share a service principal token take steps in any order. Its sync.RWMutex is
-- the list of the readers and the writer: a reader enters while there is no writer and leaves with a
-- copy of the token; the next writer, one at a time, keeps new readers out and waits for those that
-- are in. A refresh is begun and ended by steps of their own, between which the others go on. Which
-- tokens the refreshes give, and the horizon up to which the clock runs, are parameters.
--
-- Not modelled: what DrainResponseBody reads between attempts, the marshalling of a future, tracing and logging, the transport and default
-- senders, multipart forms, the logging inspectors, the files of
-- autorest/adal, signing and certificates, the other forms of dates, and the environment tables.
mod Prelude
pub mod Json
pub mod Http
pub mod Errors
pub mod Platform
pub mod Result
pub mod ServiceErrors
pub mod Preparers
pub mod Async
pub mod Retriable
pub mod Sender
pub mod Validation
pub mod SharedKey
pub mod Bearer
pub mod Respond
pub mod Registration
pub mod Clients
pub mod Dates
pub mod Senders
pub mod Adal

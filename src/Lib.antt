-- ===== src/Lib.antt =====
-- Models of the backend of WeaveCarbon, with the theorems that make its
-- stateful parts correct.
--
-- The program is an Express server over PostgreSQL. These of its parts are
-- modelled here:
--
-- * Background work (Jobs). The table operational_jobs is written by the
--   statements of src/operations/jobRepository.js; a worker
--   (src/modules/reports/jobQueue.js) enqueues tasks, claims rows while it has
--   room, runs the service that a task asks for and completes or fails the row.
--   Several processes share the table.
--     Jobs/Table       the rows and every statement: enqueue, recoverStale,
--                      pruneFinished, claimNext, complete, fail, counts,
--                      findForCompany
--     Jobs/Backfill    backfillReports, backfillEvidence
--     Jobs/Task        the payload, _runTask, _taskKey, enqueueWithReceipt
--     Jobs/Worker      the worker's active jobs, _scheduleTick, _tick, _execute,
--                      _runTask, stop
--     Jobs/Steps       the histories of the table, as a step relation
--     Jobs/Claim, Jobs/Invariant, Jobs/Finished, Jobs/Attempts, Jobs/Ticks,
--     Jobs/Dispatch, Jobs/Drain    the proofs, by what they are about
-- * The simulation of shipments (Shipments), of
--   src/services/shipmentSimulationService.js: a business calendar, the dates
--   computed in it, and the status that follows from the dates and the clock.
--     Shipments/Calendar   rounding, business windows, allocateBusinessHours
--     Shipments/Status     resolveEffectiveShipmentStatus and the update of rows
--     Shipments/Rebuild    buildShipmentSimulationState and its test
--     Shipments/Grid, Shipments/Normalize, Shipments/Allocate,
--     Shipments/Course     the proofs
-- * Sessions of users (Sessions): the table refresh_tokens with the statements
--   of src/modules/auth/refreshTokenRepository.js and the rotation of
--   src/modules/auth/refreshSessionService.js.
--     Sessions/Tokens      the rows, the statements, store and rotate
--     Sessions/Invariant, Sessions/Revocation, Sessions/Rotation   the proofs
-- * The second factor (Mfa), of src/modules/auth/mfaService.js: revisions of the
--   factors of a user, recovery codes, challenges.
--     Mfa/Factors      the rows, the choice of the active factor
--     Mfa/Challenges   verifyChallenge, beginEnrollment, confirmEnrollment, disable
--     Mfa/Base32       base32Encode, base32Decode
--     Mfa/RoundTrip, Mfa/History, Mfa/Active, Mfa/Operations, Mfa/Confirmation,
--     Mfa/Recovery     the proofs
-- * The members of companies (Members), of
--   src/modules/organizations/companyMembersRepository.js and
--   companyMembersService.js.
--     Members/Team     the rows and statements
--     Members/Changes  createMember, resendInvite, updateMember, deleteMember,
--                      isCompanyAdmin, isCompanyMember
--     Members/Invariant, Members/Admins, Members/Tenants, Members/Access
--                      the proofs
-- * Subscriptions, of src/services/subscriptionService.js and its planRules.js,
--   helpers.js and vnpay.js: the snapshot of the plan of a company, which expires
--   and locks features, and the payment sessions that buy a plan.
--     Subscriptions/Plans     the rows, the rules, getSubscriptionSnapshot
--     Subscriptions/Upgrade   upgradeSubscription
--     Subscriptions/Payments  completeUpgrade, reconcilePendingPaymentSession,
--                             updatePaymentSessionMetadata
--     Subscriptions/Settled, Subscriptions/Moves, Subscriptions/Charges,
--     Subscriptions/Resolved, Subscriptions/Paid, Subscriptions/Offered
--                             the proofs
-- * The guards of a request (Guards), of src/middleware/auth.js,
--   tenantAccess.js and subscriptionAccess.js. They read the tables of Members
--   and Mfa and take the snapshot of Subscriptions.
--     Guards/Request   the token and the company that a request acts for
--     Guards/Access    permissions, the guards, authenticate
--     Guards/Routes    requireRole, optionalAuth, the guards of companies
--     Guards/Passage, Guards/Membership, Guards/Agreed   the proofs
-- * Signing in (Logins), of src/modules/auth/authSessionService.js and
--   sessionContextService.js, on the tables of Members, Mfa and Sessions.
--     Logins/Context   the company that a session shows
--     Logins/Flow      signIn, issueRefreshSession, signOut
--     Logins/Access    issueAccessSession
--     Logins/Verification   verifyEmail, resendVerification and acceptCompanyInvite
--                      of src/modules/auth/verificationService.js, with the
--                      statements of verificationRepository.js
--     Logins/Granted, Logins/Renewed, Logins/SignOut, Logins/Invited,
--     Logins/Confirmed the proofs
-- * The documents of products (Compliance), of
--   src/services/domesticComplianceService.js, src/utils/companyMarkets.js and
--   src/constants/targetMarkets.js.
--     Compliance/Markets    the markets of a company
--     Compliance/Documents  the rows, the required documents, placeholders
--     Compliance/Publish    validateProductsForDomesticPublish
--     Compliance/Links      linkDocumentToProducts, with its proof
--     Compliance/Required, Compliance/Placeholders   the proofs
-- * Batches of products (Batches), of src/modules/assessments/batchesService.js,
--   which asks Compliance before it publishes a batch.
--     Batches/Tables   the rows, createBatch, updateBatch, deleteBatch
--     Batches/Items    the items of a batch and its totals
--     Batches/Legs     the leg and the rows of a shipment
--     Batches/Publish  publishBatch
--     Batches/Products deleteProduct of src/modules/products/service.js, which writes
--                      the items and totals of batches; Batches/Swept its lemmas
--     Batches/Listing  listBatches, with its proof
--     Batches/Steps, Batches/History   the changes and histories of the tables
--     Batches/Tallied, Batches/Frozen, Batches/Published, Batches/Weights
--                      the proofs
-- * The cache with expiry (Cache), of src/utils/ttlCache.js.
--     Cache/Store     the operations, and calls of them one after the other
--     Cache/Matches   what was written last for a key, and what the map holds
--     Cache/Refined   the proof
--
-- How the state corresponds to the code. A table is the list of its rows, new
-- ones in front, and a statement is a function on that list made of
-- select_one, update_where, delete_where and count_where (Common/Tables), whose
-- tests are the WHERE clauses and whose row functions are the SET clauses. A
-- statement is one step: PostgreSQL runs it at once, and the relations of steps
-- order the statements of all processes in any way. An operation in a transaction
-- is one step as well: the histories of batches, of payments and of members put
-- whole transactions in any order, and leave aside what READ COMMITTED lets two
-- overlapping ones see of each other, as the operations on batches and deleteProduct
-- lock no row that they read. Of the operations without a transaction,
-- acceptCompanyInvite takes what others write between its statements as an argument,
-- and _tick awaits its claim while other events happen; signIn, issueRefreshSession,
-- signOut and verifyEmail run on tables that nobody else writes meanwhile. FOR UPDATE SKIP LOCKED is an
-- argument that tells which rows others hold.
--
-- Numbers. Times are milliseconds since the epoch and identifiers are numbers;
-- both are natural numbers. The offset of the local time of a simulation is not
-- negative (it is 7 hours by default). Where the source computes with hours on a
-- Date, the models divide and multiply by the milliseconds of an hour. Columns of
-- type NUMERIC are counted in their last decimal place, with the rounding and the
-- overflow of the column where the database computes the value; the other numbers
-- of a batch's shipment are exact, before any rounding.
--
-- Fuel. The loop of _tick runs on fuel, and more fuel than concurrency less
-- active jobs is enough. The loop of allocateBusinessHours runs on the number of
-- hours and one more, as each round takes an hour at least.
--
-- Parameters. The services that a task calls are a function from the call to an
-- outcome, and the cut of an error message to 2,000 characters is a function.
-- What the code takes from crypto, bcryptjs and jsonwebtoken is functions too:
-- the hash of a token, the expiry written in it, the making and verifying of
-- tokens, the comparison of passwords, the ciphers, and the codes and digests of
-- the second factor. The distance between two addresses, the match of a search
-- text, the sending of a mail, and the trimmed and lower-case forms of an address
-- are functions as well. Nothing is assumed of them but what a theorem names.
--
-- What is not modelled: HTTP, validation of requests and SQL without a state
-- machine; timers, metrics and logs; what the analytics keep of the events
-- handed to them; signupService's deletion of a user who has not confirmed the
-- address; the carbon calculation, which is on floating-point numbers;
-- documents, mail, the messages of the payment gateway and calls of other
-- services.
pub mod Batches
pub mod Cache
pub mod Common
pub mod Compliance
pub mod Guards
pub mod Jobs
pub mod Logins
pub mod Members
pub mod Mfa
pub mod Sessions
pub mod Shipments
pub mod Subscriptions

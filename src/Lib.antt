-- ===== src/Lib.antt =====
-- A verification library for the agent commerce lab: a worker that scans web sites (headers, TLS, DNS,
-- the accuracy of published figures), keeps the history of the scans, and an autonomous agent that buys
-- services under a spending policy. The definitions are translated from the TypeScript source; paths
-- are from the root of the repository.
--
-- The parts and their files:
--   Prelude: lists, options, texts by code points, integers as differences, tests on numbers.
--   Autonomous (src/autonomous): Types and Policy are types.ts and policy.ts. Ledger is the class of
--     ledger.ts, a record of the next id and the rows that every operation takes and returns. Payment,
--     Consumption and Machine are state-machine.ts: payWithRetries, consumeWithRetries and runInternal.
--     A call passes a session, which is the ledger with the nonces and notes of the call; an exception
--     is the value `threw`. Protocol is the specification: which row may follow a ledger.
--   GroundTruth (src/ground-truth.ts): validity windows, the loaders as filters of the table's rows.
--   ContentCheck (src/content-check.ts): Types and Score are the findings with their severity and the
--     score. Classify is classifyPages, with Wrong, Alarm and Right on what it finds. Extract is
--     extractClaimsFromText, whose loop over the matches runs on fuel. Fetch is the guarded redirect loop
--     and the links of a site, Run is runContentCheck.
--   Web: the platform as a record, the URL parser, the resolver and the requests.
--   Snapshot (src/snapshot.ts): Chain is fetchWithChain, Assemble and Scan are runSecuritySnapshot.
--     Content carries a wrong figure of a page to the verdict.
--   DnsCheck (src/dns-check.ts), TlsProbe (src/tls-probe.ts): the ClientHello, Parse is
--     parseServerHello with the encoder it is the inverse of, Probe is probeTls over the reads of a socket.
--   HeaderScoring (src/header-scoring.ts): the six headers, the total, the order of the issues.
--   Verdict (src/verdict.ts): the verdict of a snapshot from the header, TLS and content results.
--   History (src/history.ts): the comparison of two snapshots, its version gate and materiality, the
--     choice of the stored row to compare with, and the recording of a snapshot over the two tables.
--     Wrapper is runSnapshotWithHistory with the statements that may fail, Lists are the list reads and
--     Paging what their pages hold. Same is the comparison of a snapshot with itself.
--   Alerting (src/alerting.ts), Scheduled (src/scheduled.ts): the alert on a change, and the loop over the
--     monitored domains with its two stores. Report (src/report.ts): the digest.
--   Worker (src/index.ts): the paid routes, Reads and Review are the free routes over the stores.
--   SsrfGuard (src/ssrf-guard.ts): the private address ranges and the decision on a host name, with the
--     runtime's number reader and the two requests to the resolver as parameters.
--     Addresses and Dotted describe the private addresses apart from the tests of the guard.
--   Batch (src/batch.ts): the validation of a batch request, its price, and the pool of workers as a
--     step relation, one step for a worker that takes a domain, gives one up late or stores a result.
--
-- How they interact: the machine decides on the ledger it is given, and each row it adds is a step of
-- the protocol. The verdict takes the header score and the content score; the history compares
-- snapshots that hold both. A snapshot is assembled from the chain of redirects, the DNS and TLS probes,
-- the header score, the content check and the verdict; a scheduled scan records it in the history and
-- raises an alert on the change. The routes of the worker run these behind the rate limit and the payment.
--
-- Bounds: the depth guard of runInternal is four levels of recursion, and Machine/Depth shows that two
-- are enough. The payment loop and the service loop recur on the attempts that are left, which is the
-- loop's own bound. Amounts are whole cents and scores whole points, so natural numbers; a score stops
-- at 0 as in the source, and the difference of two scores is an integer. Times and dates are texts in
-- ISO form, ordered by their characters. Header values are lists of code points, and the flag `i` of a
-- regular expression is the case fold of the ASCII letters.
--
-- The redirect loops count their rounds down (four for a page, six for a snapshot). The loops of the
-- ServerHello parser have one round more than there are bytes. The loop over the matches of a pattern has
-- the rounds it is given, since an expression may match the empty text again and again. A body is cut
-- at 20000 characters, where the source cuts at 20000 UTF-16 units.
--
-- Not modelled: the network, the wallet and the socket (parameters, as are the regular expressions of the
-- fact patterns and of the page texts, htmlToText and the two normalizers), the database engine (a table
-- is the list of its rows), the routing and the payment of hono and x402 (whether a payment is verified
-- is a parameter), the live world of the agent, the console log, and time-outs, which are exceptions of a
-- request.
pub mod Prelude
pub mod Autonomous
pub mod GroundTruth
pub mod ContentCheck
pub mod Verdict
pub mod HeaderScoring
pub mod History
pub mod SsrfGuard
pub mod Batch
pub mod Web
pub mod DnsCheck
pub mod Snapshot
pub mod Alerting
pub mod Scheduled
pub mod Report
pub mod Worker
pub mod TlsProbe

-- ===== src/Lib.antt =====
-- Bright CLI: models of the program, and what is proved of them.
--
-- The program scans web applications through a cloud service. Its commands poll the service
-- (src/Scan), and its repeater executes in a private network the requests that the service sends
-- (src/RequestExecutor), after scripts of the user have changed them (src/Scripts). Wildcards for
-- host names (src/Utils/Helpers.ts) choose the scripts, the certificates, the proxy and Kerberos.
--
-- Files, and the code they model, paths from the root of the repository:
-- - Prelude, with Tests, Lists, Strings, Words, Maps: shared helpers; numbers are native, texts are lists of
--   code units, and maps keep the order of insertion.
-- - Utils/Backoff: `Backoff` of src/Utils/Backoff.ts. A task is the sequence of the results of its
--   attempts. Utils/Backoff/Requests is `createBackoff` with its use in src/Scan/BasePolling.ts.
-- - Utils/Wildcard: `wildcardToRegExp` and `regExpEscape` of src/Utils/Helpers.ts, and a matcher for
--   regular expressions of the form these build; Utils/Wildcard/Globs says what a wildcard means.
-- - Utils/TlsErrors: `isTlsCertError` of src/Utils/Helpers.ts.
-- - Utils/ShellArgument, Utils/Chunks, Utils/Pool: `escapeShellArgument`, `split` and `pool` of
--   src/Utils/Helpers.ts. The pool runs the ends of its calls, in any order; beside `poolPromises`
--   it keeps the calls that have not settled, which Utils/Pool/Promises relates to it.
-- - Utils/Cluster, Utils/Arguments: `getClusterUrls`, `parseHeaders`, `omit`, `selectEnumValue` and
--   `getExecArgs` of src/Utils/Helpers.ts.
-- - Utils/Proxy: src/Utils/DefaultProxyFactory.ts.
-- - Mcp, with Redaction, Processes and RepeaterTools: src/Mcp/DefaultRepeaterTools.ts; the children and
--   the timers are events. A child keeps the arguments it was spawned with.
-- - EntryPoint/Pages: `entrypoints` of src/EntryPoint/RestEntryPoints.ts, with one request for each step of
--   fuel; `limit` steps are enough, since each takes at least one off what remains.
-- - Commands: src/Commands/RunRepeater.ts, src/Commands/RunScan.ts and the handler of
--   src/Commands/PollingScanStatus.ts, over the polling of Scan/Polling.
-- - Archive/Validators, Archive/Parser: src/Archive/Validators and src/Archive/Parsers.
-- - Wizard/Readline: src/Wizard/Readline/ReadlinePlatform.ts, as the list of its steps; the calls of the
--   pool may end in any order.
-- - Utils/Traceroute, with Packet and Trace: src/Utils/Traceroute.ts. Packet makes the requests and
--   reads the answers, and Trace runs the events of the sockets, the timer and the lookups of names.
-- - Scan/Severity, Scan/Breakpoint, Scan/Polling: src/Scan/Severity.ts, src/Scan/Breakpoint.ts,
--   src/Scan/Breakpoints, src/Scan/DefaultBreakpointFactory.ts and src/Scan/BasePolling.ts.
-- - Scan/Config, Scan/Config/Locations: `prepareScanConfig` of src/Scan/RestScans.ts and what it
--   calls, on the types of src/Scan/Scans.ts. What the service says of a file is a parameter.
-- - Discovery, Discovery/Polling, EntryPoint: src/Discovery/DiscoveryPolling.ts and
--   src/EntryPoint/HostUpdateJobStatusPolling.ts, whose loop is one model on two types of status.
-- - Scripts: src/Scripts/VirtualScript.ts, src/Scripts/DefaultVirtualScripts.ts and `compileScripts`
--   of src/Repeater/DefaultRepeaterCommandHub.ts; Scripts/Store has its invariant.
-- - Config/Rotation: src/Config/SystemConfigManager.ts.
-- - Repeater/Server, Repeater/Server/Reconnection: the handlers of connection events of
--   src/Repeater/DefaultRepeaterServer.ts, as steps with the actions they take. The random part of a
--   delay comes with the event.
-- - Repeater/Listeners: `on`, `off`, the wrapper of handlers and `deploy` of
--   src/Repeater/DefaultRepeaterServer.ts.
-- - Repeater/Launcher: src/Repeater/ServerRepeaterLauncher.ts, over the emitter of the server, with
--   `sendRequest` and `compileScripts` of src/Repeater/DefaultRepeaterCommandHub.ts.
-- - RequestExecutor/Url, RequestExecutor/Certificates: `portFromURL` of src/Utils/Helpers.ts,
--   src/RequestExecutor/DefaultCertificatesCache.ts and
--   src/RequestExecutor/DefaultCertificatesResolver.ts.
-- - RequestExecutor/Options, RequestExecutor/Request: src/RequestExecutor/RequestExecutorOptions.ts
--   and src/RequestExecutor/Request.ts.
-- - RequestExecutor/Http, with Domains, RawPath, Curl (with Kinds and Fields), ResponseHeaders,
--   Truncation, Runtime, Execute and Attempts: src/RequestExecutor/HttpRequestExecutor.ts. Execute
--   is the path of a request through the scripts and the transfer, and Attempts the attempts with
--   certificates, on one request, of this executor and of that over WebSocket: files,
--   transfers and the scripts of responses, which a promise may delay, end as events in any order.
-- - RequestExecutor/WebSocket, with Stages and Ends: src/RequestExecutor/WsRequestExecutor.ts, over
--   the events of a client of the package ws.
-- Witnesses stand in the modules named Tests.
--
-- Bounds and fuel: the retry loop recurs on the attempts that are left, and a poll on the sequence of
-- the answers of the server, each with the time at which it comes. `to_fixed` has fuel for one digit
-- more than the value, which is never short.
--
-- Parameters: the compiler of node:vm (whether it takes a script), the parser of URLs, the encoders
-- of texts, the parser of MIME types, the transfers of libcurl, the functions that a user's script
-- exports, the client of the package ws, the checksum of the packets of a trace, the schemas of the
-- package ajv, the versions of semver, the readers of JSON and YAML, the file system of the parsers of
-- archives, the pages of the service, and the tests of the connection.
--
-- Not modelled: a line feed and percent signs on a command line of cmd.exe, a configuration file whose
-- date is not valid, what the sockets of a failed trace still receive, log texts, the
-- declarations of command-line options, most commands, which pass their arguments to one call, the
-- server of MCP and the options of sockets, which only pass values on,
-- the startup scripts, the loading of certificates of the system, and the calls of the
-- service that only send and receive.
pub mod Prelude
pub mod Utils
pub mod Scan
pub mod Discovery
pub mod EntryPoint
pub mod Scripts
pub mod Commands
pub mod Config
pub mod Mcp
pub mod Archive
pub mod Wizard
pub mod Repeater
pub mod RequestExecutor

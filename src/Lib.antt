-- ===== src/Lib.antt =====
-- tcl-script-runner runs TCL batch scripts on remote environments over their JSON-RPC interface.
--
-- The parts and the files that model them:
--   internal/config/config.go  Config (types, defaults), Config/Crud (FindByName, Add, Update,
--     Remove) and Config/Files (Load, Save, SetPath). `find_by_name` gives the environment with its
--     index; the methods that change the configuration return the error beside the new one.
--     Config/Crud/Lookup is the dictionary by name that Config/Crud is compared with.
--   internal/config/crypto.go  Config/Crypto (`encrypt`, `decrypt`, `new_gcm`). What the random
--     source gave is an argument; PBKDF2, AES and GCM are the record `Primitives`. Base64 and the
--     conversions between texts and bytes are written out in Prelude/Base64 and Prelude/Utf8.
--   internal/becs/types.go     Becs/Types and Becs/Results: the messages, decoded by the rules of
--     encoding/json that Json/Decode writes out. Json has the values and the text of a value.
--   internal/becs/apilog.go    Becs/Recorder (Record, Entries, Clear).
--   internal/becs/client.go    Becs/Redact (`redact`), Becs/Client (`call`), Becs/Sessions (Login,
--     Logout). An action of a client passes on its state, the recorder and the world, and what it
--     did stays done if it fails.
--   internal/becs/batch.go, internal/becs/file.go  Becs/Batch (BatchRun, BatchInfoGet, Poll,
--     BatchList) and Becs/File (FileRead).
--   internal/tunnel/tunnel.go  Tunnel, the interface as a record of operations; Tunnel/Contract has
--     what a client relies on, and Tunnel/Kinds the two implementations behind the interface.
--   internal/tunnel/ssh.go     Tunnel/Ssh (NewSSH, Connect, Disconnect, closeClients, authMethods,
--     Dialer). Connect is cut at its calls: each step is a function of what the call before it gave.
--     The handles that are open are numbers; Tunnel/Resources has how calls change their list.
--     Tunnel/Ssh/Forward has `forward` and `handleConn`.
--   internal/tunnel/wireguard.go  Tunnel/WireGuard, in the same way, with parseDNS and buildIPC.
--   internal/runner/job.go     Runner/Job (types, NewJob), Runner/Files (Save, LoadJob) and
--     Runner/Listing (ListJobs).
--   internal/runner/runner.go  Runner/Credentials (buildTunnel), Runner/Execute (executeRun,
--     fetchOutput, fail) and Runner/Jobs (RunJob). The steps of executeRun are functions of the
--     result of the call before them, and the deferred calls act on the pair of the run and the
--     state. Runner/Host has what a runner works with. Runner/Sharing has requests for jobs that
--     overlap, as steps on the busy flag.
--   internal/web/handlers.go   Web/Form (parseEnvForm, parseLabels, intField), Web/View (the
--     functions and the view models of the templates), Web/App (App, NewApp, render),
--     Web/Environments (the handlers of environments, maybeEncrypt, encryptTunnelCreds), Web/Jobs
--     (dashboard, listJobs, jobDetail, downloadRun, runJob) and Web/Monitor. A handler gives its
--     response beside the application and the system that it leaves. The handlers and the runner
--     share one configuration, the runner's.
--   internal/web/routes.go     Web/Routes: the table of patterns and the call of the handlers.
--   cmd/main.go                Web/Start, up to the call of ListenAndServe.
--   Os has the calls of os and path/filepath, and the replacement of a file that both Save methods
--     spell out; Outcome has the value-or-error results, with `hang` for a loop out of fuel.
--
-- Poll is the one loop without a bound in the code. `poll` takes fuel, one unit for each round;
-- Becs/Batch/Polling compares it with the rounds that the code goes through. Statements about a job
-- assume `IsTimely`: that with the fuel at hand every polling loop ends. Runner/Sharing assumes
-- nothing of the kind: there a run may be polled again without end.
--
-- Parameters: the network, the clock and the waiting (`Net`), the tunnels (`Tunnels`), the file
-- system (`Os`), YAML (`Yaml`), the ciphers (`Primitives`) and encoding/json at the type Job
-- (`Host`), the read of the jobs' directory, sort.Slice, json.Indent and the parsing of templates
-- (`Services`), x/crypto/ssh (`SshLibrary`), wireguard-go and net/netip (`WireGuardLibrary`). What
-- the random source gives a handler is an argument (`Draws`). Their documented
-- behaviour is in the records `IsLawful`, `IsFaithful`, `ReadsBack`, `Sorts` and `Tracks`; Tests/World,
-- Tests/Tunnels, Tests/Sorting and Os/Memory have small instances of all of them.
--
-- A text is a sequence of Unicode characters. Where the code makes a string of raw bytes (the content
-- of a file that was read, a plaintext that was decrypted), bytes that are not UTF-8 become U+FFFD
-- here at once, as encoding/json makes them when it writes the string.
--
-- Left out: slog's messages; the nil receiver of Recorder.Record, since the program's recorder is
-- never nil; the mutexes, each call being one step; changes of the configuration
-- while a job runs; file modes; HTTP headers and the closing of bodies; main's flags; the cleaning
-- of paths by net/http; the interleaving of a forward's goroutines with Disconnect. Not modelled:
-- the text of the HTML templates, of which only the data that they show is here.
pub mod Prelude
pub mod Outcome
pub mod Os
pub mod Json
pub mod Becs
pub mod Tunnel
pub mod Runner
pub mod Config
pub mod Web
pub mod Tests

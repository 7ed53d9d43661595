-- ===== src/Lib.antt =====
-- LEMAS (the module github.com/lemas-sandbox/lemas), a malware analysis sandbox: a sample runs in
-- isolation, monitors publish its telemetry, rules and a correlation engine turn events into hits
-- and alerts, extractors read configurations out of memory, and a report gives the verdict.
--
-- The parts and their files:
-- - Monitor/Events and Monitor/Correlation: pkg/monitor/events.go and pkg/monitor/correlation.go.
--   The engine's maps are functions, its channel of alerts a list with a capacity; `process_event`
--   is `ProcessEvent` under its lock, one step. State has the types, Nodes the process graph,
--   Injection, Persistence and Dispatch the checks and the cases. The format strings of alert
--   details are the constructors of `Detail`. An event's database id, which nothing reads, is left
--   out.
-- - Monitor/Dga: pkg/monitor/dga_detector.go, the run of consonants and the counters of failed
--   look-ups, without the scores in floating point.
-- - Extractor/Utils: pkg/extractor/utils/binary.go, the helpers of the family parsers, without
--   `ExtractURLs`. 32-bit sums wrap; a byte is a number below 256.
-- - Extractor/Procdump: pkg/extractor/procdump/reader.go, the reader of memory dumps. A file is
--   the list of its bytes; `Search` is left out.
-- - Rules/Sigma: pkg/rules/sigma_loader.go and pkg/rules/sigma.go (Builtin). Types
--   has the rules and the decoded rule file, Load what
--   `parseSigmaFile` makes of it, Compile the selectors, Condition the parser, Eval and Fields the
--   matching, Scope the index of `ExternalSigmaRules`, Sources the tables. A Go map is the list of
--   its entries, and the order in which `range` visits its keys is a parameter where it shows.
--   Formatting with %v, the YAML decoder and regular expressions are parameters.
-- - Rules/Yara: pkg/rules/yara_loader.go. Match has the matching of patterns and conditions, Parse
--   what is made of the lines of a file: Strings the sections of strings and metadata, Condition the
--   conditions, Blocks the rules; Scan the scans of pkg/rules/yara.go. Regular expressions, the
--   entropy and the hits of the PE parser are parameters.
-- - Rules/Engine: pkg/rules/engine.go, which passes scans and events on to the two engines.
-- - Report: the computations of `GenerateReport` in pkg/report/report.go and what it saves.
--   `report_data` is what the template shows; writing the two files is left out.
-- - Storage/Jobs: the tables of jobs, indicators and techniques of pkg/storage/sqlite.go, the
--   database being taken to answer; times lose the part below a second. Storage/Events: the table
--   of events and its tamper evidence, the keyed hash being a parameter.
-- - Orchestrator: pkg/orchestrator. `execute_job` is `executeJob` for a run whose outcome (process,
--   telemetry, timeout, exit code, memory findings) is given; a panic is an outcome. A
--   run says how far the goroutine that consumes the events has got when the report is made, since
--   nothing waits for it.
-- - Config: pkg/config/config.go. File system, YAML decoder and environment are parameters.
-- - Api/Auth: pkg/middleware/auth.go, a handler being a function from requests to responses.
-- - Common: tests, lists, texts as lists of bytes, bits, and integers with a sign.
--
-- Interaction: the orchestrator takes a job from the queue, collects hits, and calls the report,
-- which reads and saves the job in the store; the loaded configuration gates the rule engines and
-- carries the key of the middleware.
--
-- Bounds: numbers are natural, where Go's `int` does not overflow in practice. `extract_ipv4s` runs
-- on as much fuel as the text is long, each round moving on by a byte at least, and `parse` of a
-- dump on as much as the file is long, each round moving on by a header. The parser of conditions
-- runs on eight units to a token, since a token is read after at most six nested calls, the loop
-- over the lines of a YARA file on one unit to a line, and the one over the comments of a hex string
-- on as much as the text is long, each round dropping two bytes at least. All other loops are
-- structural.
--
-- Not modelled: the scan of scripts in pkg/rules/yara_script.go, the walk over the directories of
-- rules, the platform monitors, the process isolation, packet capture, the family parsers and the
-- REST routes. The orchestrator has the rule engine as a parameter.
pub mod Common
pub mod Monitor
pub mod Rules
pub mod Storage
pub mod Report
pub mod Orchestrator
pub mod Api
pub mod Config
pub mod Extractor

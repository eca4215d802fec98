-- ===== src/Lib.antt =====
-- The Aerospike Prometheus exporter: a program that asks an Aerospike server for its statistics by
-- info commands, makes metrics of the answers, and serves them to Prometheus or pushes them to
-- OpenTelemetry.
--
-- How the parts interact. A refresh asks the server for the first keys of all processors, lets
-- each processor name its second keys from the answers, asks again, and hands the answers to the
-- processors, which return metrics. The node and namespace processors note which histograms are
-- switched on in a state that all processors share, and the latency processor asks for those. The
-- executors take the metrics of a refresh.
--
-- Which file models which part (paths from the repository's root):
--   Base, and its children: the parts of Go that the program uses: panics, loops, slices, strings as
--     bytes, maps as association lists
--   Env: the globals of internal/pkg/config, and third-party code as parameters: globs, versions,
--     float64, and the order in which Go visits a map
--   Config: internal/pkg/config/config.go: Data the record, Lists the older and newer list keys,
--     Validate the defaults and checks, its child Usable what is accepted, Surroundings the labels
--     of clouds (internal/pkg/config/cloudinfo.go) and the name of the pod
--   Commons: internal/pkg/commons/utils.go: ParseStats, Convert (TryConvert), Base64, Secrets,
--     Certificates, Sanitize (SanitizeUTF8), Versions, and Ciphers (cipher suites)
--   Stats: internal/pkg/statprocessors: Metric (aerospike_stat.go), Filter (utils.go), Gauges
--     (internal/pkg/config/gauge_stats.go), Cache (the
--     maps of metric definitions), Shared (statsprocessor.go), and the processors Sets, Sindex, Xdr,
--     Users, Node, Latencies and Namespace (sp_*.go); Benchmarks is what the last three share
--   Latency: internal/pkg/statprocessors/latency_info_parser.go: Reader the buffered reader, Names,
--     Buckets, and Parser the two formats' loops
--   Export: internal/pkg/executors: Names (utils.go), Prometheus (prometheus_httplistener.go), Scrape
--     (prometheus.go), Otel (otel_metrics.go, otel_executor.go), and its child Ticks the loop
--   Server: internal/pkg/dataprovider/aero_server.go: Client the client library as a parameter, Policy
--     and Connect a new connection, Request and Users the requests with their retries; Protocol is
--     what the exporter may do with connections, and Sessions the states that it reaches
--   Refresher: internal/pkg/statprocessors/statsrefresh.go: Provider the interface DataProvider,
--     State what is kept, Passes the keys of the two requests, Processing the processors in turn
--   Host: Segments and Files (internal/pkg/dataprovider/host_sysinfo_provider.go and
--     host_sysinfo_utils.go), Processor (internal/pkg/statprocessors/sp_host_systeminfo.go)
--   Tests: a configuration and stand-ins for third-party code, and the theorems at concrete inputs
--
-- How state and operations correspond. A function keeps its name in snake case. A processor's
-- fields and loop variables are passed and returned. Code that can panic returns Go, with panic as
-- its other value; code that can also exit by log.Fatal returns Outcome; an error is none, or the
-- error's value. A map is a list of entries, nil maps that are written to are none or a missing
-- entry. Go visits a map in the order of Env.range, about which nothing is assumed.
--
-- Bounds. The loops of the latency parsers are on fuel, one more than the bytes of the input: every
-- turn that goes on reads at least one, and Latency.Parser.Runs relates the result to runs of
-- turns without a bound. Every other loop is by recursion on a list. Integers are natural numbers;
-- the shift that makes a bucket's label is cut as on 64 bits.
--
-- The client library answers a call by a function of all calls made before, which the model logs, so
-- that it may fail at any time and answer differently each time; nothing else is assumed of it. The
-- clock is a number that a refresh takes, in nanoseconds. Of the Prometheus client,
-- Export.Scrape.Served assumes what it documents: for which descriptions and labels' values it makes
-- a sample, and that it panics for all others.
--
-- Not modelled: serving HTTP and TLS, signals, logging, and the mock server, which stands in for
-- a server in tests. Files, procfs, HTTP calls and the functions of crypto/x509 are
-- parameters. Metric values are of an abstract type, so that nothing is said of rounding.
pub mod Base
pub mod Config
pub mod Env
pub mod Commons
pub mod Stats
pub mod Latency
pub mod Export
pub mod Server
pub mod Refresher
pub mod Host
pub mod Tests

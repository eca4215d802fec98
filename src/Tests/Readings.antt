-- ===== src/Tests/Readings.antt =====
-- Server answers, read.
use aerospike_prometheus_exp.Base.{
  ◌≡◌, refl, List, [], ◌∷◌, ◌++◌, map, none, some, bytes, lookup, init, arith,
}
use aerospike_prometheus_exp.Commons.ParseStats.{
  parse_stats, render, last_value, lookup-parse_stats,
}
use aerospike_prometheus_exp.Latency.Reader.{eof, read_until, read_until-append, read_until-Free}
use aerospike_prometheus_exp.Latency.Buckets.{
  power_label, powers, bucket_value, read_all_buckets-eq,
}
use aerospike_prometheus_exp.Latency.Buckets.Paired.{IsPaired, read_all_buckets-IsPaired}
use aerospike_prometheus_exp.Latency.Parser.{
  read_section, read_section_legacy, parse_latency_info, parse_latency_info_legacy,
}
use aerospike_prometheus_exp.Latency.Parser.Runs.{
  Runs, parse_latency_info-Runs, parse_latency_info_legacy-Runs,
}
use aerospike_prometheus_exp.Latency.Parser.Sections.{Line, Reading}
use aerospike_prometheus_exp.Tests.{env, lacks-Free}

abbrev line : Line
line = record {
  ns = bytes "test";
  op = bytes "read";
  unit = bytes "msec";
  total = bytes "100";
  values = bytes "10" ∷ bytes "5" ∷ bytes "1" ∷ [];
}

abbrev readings : List (Reading env 2)
readings = (line, 100, 10 ∷ 5 ∷ 1 ∷ []) ∷ []

parse_latency_info-Runs_example :
    Runs env 2
      (read_section env 2)
      (bytes "{test}-read:msec,100,10;batch:")
      []
      (parse_latency_info env 2 (bytes "{test}-read:msec,100,10;batch:"))
parse_latency_info-Runs_example =
    parse_latency_info-Runs env 2 (bytes "{test}-read:msec,100,10;batch:")

parse_latency_info_legacy-Runs_example :
    Runs env 2
      (read_section_legacy env 2)
      (bytes "{test}-read:22:51:04,ops/sec,>1ms;22:51:14,100,10;")
      []
      (parse_latency_info_legacy env 2 (bytes "{test}-read:22:51:04,ops/sec,>1ms;22:51:14,100,10;"))
parse_latency_info_legacy-Runs_example =
    parse_latency_info_legacy-Runs env 2
      (bytes "{test}-read:22:51:04,ops/sec,>1ms;22:51:14,100,10;")

read_until-append_example :
    read_until b':' (bytes "read" ++ b':' ∷ bytes "msec")
    ≡ record { text = bytes "read"; rest = bytes "msec"; err = none }
read_until-append_example =
    read_until-append b':' (bytes "read") (bytes "msec") (lacks-Free b':' (bytes "read") refl)

read_until-Free_example :
    read_until b';' (bytes "100,25")
    ≡ record { text = init (bytes "100,25"); rest = []; err = some eof }
read_until-Free_example =
    read_until-Free b';' b'1' b'0' (bytes "0,25") (lacks-Free b';' (bytes "100,25") refl)

lookup-parse_stats_example :
    lookup (bytes "b") (
      parse_stats
        (render b';'
          (bytes "a", bytes "1")
          ((bytes "b", bytes "2") ∷ (bytes "b", bytes "x=3") ∷ []))
        b';')
    ≡ last_value
        (bytes "b")
        none
        ((bytes "a", bytes "1") ∷ (bytes "b", bytes "2") ∷ (bytes "b", bytes "x=3") ∷ [])
lookup-parse_stats_example =
    lookup-parse_stats b';' (bytes "b") (bytes "a", bytes "1")
      ((bytes "b", bytes "2") ∷ (bytes "b", bytes "x=3") ∷ []) (λ e. absurd (omega arith))
      (
        lacks-Free b'=' (bytes "a") refl,
        lacks-Free b';' (bytes "a") refl,
        lacks-Free b';' (bytes "1") refl,
      )
      (
        (
          lacks-Free b'=' (bytes "b") refl,
          lacks-Free b';' (bytes "b") refl,
          lacks-Free b';' (bytes "2") refl,
        ),
        (
          (
            lacks-Free b'=' (bytes "b") refl,
            lacks-Free b';' (bytes "b") refl,
            lacks-Free b';' (bytes "x=3") refl,
          ),
          tt,
        ),
      )

read_all_buckets-IsPaired_example : IsPaired env (record {
  labels = bytes "+Inf" ∷ powers env 0 (10 ∷ []);
  values = 100 ∷ map (bucket_value env 100) (10 ∷ []);
})
read_all_buckets-IsPaired_example =
    read_all_buckets-IsPaired env power_label 1 (bytes "100" ∷ bytes "10" ∷ bytes "5" ∷ []) _ (
      read_all_buckets-eq env 1 (bytes "100") (bytes "10" ∷ bytes "5" ∷ []) 100 (10 ∷ 5 ∷ []) refl
        (refl, (refl, tt)))

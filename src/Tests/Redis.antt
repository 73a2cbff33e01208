-- ===== src/Tests/Redis.antt =====
-- Tests of the `INFO` parser and of the Redis collector.
use dr_metrix.Std.Trimming.{NoSpace}
use dr_metrix.Prelude.{◌≡◌, refl, Bool, true, false, List, [], ◌∷◌, ◌++◌, map, some, pos, list_beq}
use dr_metrix.Std.{
  Str, codes, is_whitespace, lines, trim, strip_prefix, find, slice_to, slice_from, len_utf8,
  parse_u32, parse_i64, split_once, split, str_eq, cut_at,
}
use dr_metrix.Core.Exec.{ok}
use dr_metrix.Core.Metrics.{Client, int, Series, memory_client, memory_client-IsLawful, series_eq}
use dr_metrix.Redis.Info.{
  RedisInfo, parse_info, default, parse_lines, parse_line, keyspace_line, record_line, assign_pair,
  assign, int_or_zero, db_entry, db_line, count_field, count_fields,
}
use dr_metrix.Redis.Info.Ranges.{InRange, parse_info-InRange}
use dr_metrix.Redis.Info.Safety.{parse_info_total}
use dr_metrix.Redis.Info.RoundTrip.{print_info, parse_info-print_info}
use dr_metrix.Redis.Fields.{RedisMetric, redis_metric_eq, arity, db_keys, db_expires}
use dr_metrix.Redis.Info.Reference.{reference, parse_info-reference}
use dr_metrix.Redis.Info.Reference.Lines.{classify}
use dr_metrix.Core.Collector.Loop.{waiting, collect_loop, replayed}
use dr_metrix.Redis.Collect.{text, failure, Poll, collect}
use dr_metrix.Redis.Collect.Task.{round_reading, task_replays}
use dr_metrix.Redis.Collect.Databases.{last_counts, database_series, databases_kept_apart}
use dr_metrix.Redis.Collect.Readings.{collected_reading, collect-text}
use dr_metrix.Tests.Fixtures.{print_f64, floats, parse-print_f64}

abbrev newline : Str
newline = b'\r' ∷ b'\n' ∷ []

abbrev sample : Str
sample =
    codes "# Clients"
    ++ (newline
        ++ (codes "connected_clients:12"
            ++ (newline
                ++ (codes "used_memory:oops"
                    ++ (newline ++ codes "db0:keys=3,expires=1,avg_ttl=0")))))

abbrev sample_info : RedisInfo Bool
sample_info = record (default floats) {
  connected_clients = pos 12;
  keyspace = (0, pos 3, pos 1) ∷ [];
}

parse_sample : parse_info floats sample ≡ some sample_info
unfolding parse_info parse_lines lines parse_line trim keyspace_line strip_prefix find slice_to
    len_utf8 slice_from record_line parse_u32 assign_pair split_once assign str_eq int_or_zero
    db_entry list_beq count_field count_fields db_line dr_metrix.Std.Lines.lines_from
    dr_metrix.Std.Lines.strip_cr dr_metrix.Std.Number.digits dr_metrix.Std.Number.magnitude
    parse_i64 cut_at is_whitespace split dr_metrix.Std.Text.trim_end dr_metrix.Std.Text.trim_start
parse_sample = refl

abbrev client : Client RedisMetric Bool
client = memory_client arity

abbrev nothing : client.State
nothing s = int (pos 0)

parse_info_total_example : (info : RedisInfo Bool) × (parse_info floats sample ≡ some info)
parse_info_total_example = parse_info_total floats sample

sample_info-InRange : InRange sample_info
sample_info-InRange = parse_info-InRange floats sample sample_info parse_sample

print_f64-NoSpace : (f : Bool) → NoSpace (print_f64 f)
unfolding is_whitespace
print_f64-NoSpace true = (refl, (refl, (refl, tt)))
print_f64-NoSpace false = (refl, tt)

parse_info-print_info_example :
    parse_info floats (print_info floats print_f64 sample_info) ≡ some sample_info
parse_info-print_info_example =
    parse_info-print_info floats print_f64 sample_info (parse-print_f64 false)
      (print_f64-NoSpace false) sample_info-InRange

databases_kept_apart_example :
    let done =
      collect {E = Unit {0}} floats client (record { size = 5; info = text sample }) nothing in
    (client.read done.1 (database_series db_keys 0) ≡ int (pos 3))
    × (client.read done.1 (database_series db_expires 0) ≡ int (pos 1))
unfolding last_counts
databases_kept_apart_example =
    databases_kept_apart Unit floats client (memory_client-IsLawful arity) 5 0 sample sample_info
      nothing parse_sample

collect-text_example :
    let done =
      collect {E = Unit {0}} floats client (record { size = 5; info = text sample }) nothing in
    (info : RedisInfo Bool) × (parse_info floats sample ≡ some info)
    × (done.0 ≡ ok tt)
    × ((m : RedisMetric) (ls : List Str)
        → client.read done.1 (record { metric = m; labels = ls })
          ≡ collected_reading 5 info m ls (int (pos 0)))
collect-text_example =
    collect-text Unit floats client (memory_client-IsLawful arity) 5 sample nothing

parse_info-reference_example :
    parse_info floats sample ≡ some (reference floats (map classify (lines sample)))
parse_info-reference_example = parse_info-reference floats sample

abbrev polls : List Poll
polls =
    record { size = 5; info = text sample }
    ∷ record { size = 4; info = failure (codes "down") }
    ∷ []

task_replays_example :
    let done =
      collect_loop (collect {E = Unit {0}} floats client) (λ interval. true) 15 polls nothing in
    (done.0 ≡ waiting)
    × ((k : Series RedisMetric)
        → client.read done.1 k ≡ replayed (round_reading floats) polls k (int (pos 0)))
task_replays_example =
    task_replays Unit floats client (memory_client-IsLawful arity) (λ interval. true) 15 polls
      nothing refl

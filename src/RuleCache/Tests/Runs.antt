-- ===== src/RuleCache/Tests/Runs.antt =====
-- Captures, checks and records on the repository of two files.
use sql_server_analyze.Common.{◌≡◌, inl, refl, true, false, [], ◌∷◌, none, some}
use sql_server_analyze.Text.{member}
use sql_server_analyze.RuleCache.Texts.{In, sorted_set}
use sql_server_analyze.RuleCache.Graph.Scanning.{IsDict}
use sql_server_analyze.RuleCache.Record.{graph_of, paths_of}
use sql_server_analyze.RuleCache.Validate.Record.{
  contents_are_valid, record_is_valid, validate_record_shape,
}
use sql_server_analyze.RuleCache.Compare.{Plan, Snapshot, compare_records}
use sql_server_analyze.RuleCache.Compare.Partition.{IsSplit, compare_records-IsSplit}
use sql_server_analyze.RuleCache.Compare.Reuse.{SharedKey}
use sql_server_analyze.RuleCache.Compare.Same.{IsHit}
use sql_server_analyze.RuleCache.Capture.{capture_once, capture_snapshot, finalize_record}
use sql_server_analyze.RuleCache.Capture.Valid.{finalize_record-contents_are_valid}
use sql_server_analyze.RuleCache.Recording.{
  CacheFile, header_written, read_record, check_cache, Surroundings, Outcome, recorded_plan,
  record_cache,
}
use sql_server_analyze.RuleCache.Recording.Hit.{check_cache-IsHit}
use sql_server_analyze.RuleCache.Recording.Written.{IsRecorded, record_cache-IsRecorded}
use sql_server_analyze.RuleCache.Recording.Reuse.{check_cache-SharedKey}
use sql_server_analyze.RuleCache.Tests.{
  a_path, two_found, two_found-IsDiscovery, toy_hash, toy_hash-is_digest,
}

abbrev taken : Snapshot
taken = capture_snapshot toy_hash two_found two_found

taken-complete : taken.complete ≡ true
unfolding capture_snapshot capture_once sorted_set
taken-complete = refl

valid_contents : contents_are_valid toy_hash (finalize_record toy_hash two_found).body ≡ true
unfolding contents_are_valid finalize_record member sorted_set
valid_contents = refl

finalize_record-contents_are_valid_example :
    record_is_valid toy_hash (finalize_record toy_hash two_found)
    ≡ contents_are_valid toy_hash (finalize_record toy_hash two_found).body
finalize_record-contents_are_valid_example =
    finalize_record-contents_are_valid toy_hash two_found toy_hash-is_digest two_found-IsDiscovery

check_cache-IsHit_example :
    (plan : Plan) × (check_cache toy_hash two_found two_found true
        (CacheFile.json_record header_written taken.captured)
      ≡ inl plan)
    × IsHit plan
check_cache-IsHit_example =
    check_cache-IsHit toy_hash two_found two_found toy_hash-is_digest two_found-IsDiscovery
      taken-complete valid_contents

taken-IsDict : IsDict (graph_of taken.captured.body.sources)
unfolding capture_snapshot capture_once finalize_record sorted_set member
taken-IsDict = (refl, (refl, tt))

compare_records-IsSplit_example :
    IsSplit
      (paths_of taken.captured.body.sources)
      (compare_records toy_hash (some taken.captured.body) taken none)
compare_records-IsSplit_example =
    compare_records-IsSplit toy_hash (some taken.captured.body) taken none taken-IsDict

abbrev hit_plan : Plan
hit_plan = compare_records toy_hash (some taken.captured.body) taken none

hit_plan-reuse : In a_path hit_plan.reuse
unfolding compare_records capture_snapshot capture_once finalize_record sorted_set member
hit_plan-reuse = refl

checked_plan :
    check_cache toy_hash two_found two_found true
      (CacheFile.json_record header_written taken.captured)
    ≡ inl hit_plan
unfolding check_cache read_record compare_records capture_snapshot capture_once finalize_record
    sorted_set member validate_record_shape
checked_plan = refl

check_cache-SharedKey_example : SharedKey taken.captured.body taken.captured.body a_path
check_cache-SharedKey_example =
    check_cache-SharedKey toy_hash two_found two_found toy_hash-is_digest two_found-IsDiscovery
      valid_contents taken-IsDict header_written taken.captured hit_plan checked_plan a_path
      hit_plan-reuse

abbrev free_lock : Surroundings
free_lock = record {
  destination_allowed = true;
  attempts =
      record { created = false; late = false } ∷ record { created = true; late = false } ∷ [];
  write_succeeds = true;
}

written_record :
    (record_cache toy_hash two_found two_found two_found two_found free_lock).written
    ≡ some taken.captured
unfolding record_cache capture_snapshot capture_once finalize_record sorted_set
written_record = refl

record_cache-IsRecorded_example :
    IsRecorded toy_hash two_found two_found two_found two_found free_lock taken.captured
    × ((record_cache toy_hash two_found two_found two_found two_found free_lock).outcome
        ≡ Outcome.planned true (recorded_plan toy_hash taken))
record_cache-IsRecorded_example =
    record_cache-IsRecorded toy_hash two_found two_found two_found two_found free_lock
      taken.captured written_record

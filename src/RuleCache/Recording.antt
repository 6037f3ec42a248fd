-- ===== src/RuleCache/Recording.antt =====
-- `_read_record`, `check_cache`, `_ExclusiveLock` and `record_cache`.
pub mod Written
pub mod Hit
pub mod Reuse
use sql_server_analyze.Common.{
  ℕ, zero, suc, ◌+◌, ◌-◌, ◌*◌, ◌/◌, ◌%◌, ◌^◌, ◌≤◌, ◌<◌, min, max, String, ◌≡◌, ◌≢◌, ◌↔◌, ◌⊎◌, inl,
  inr, refl, sym, ap, ◌∙◌, subst, ◌&&◌, ◌||◌, not, Bool, true, false, List, [], ◌∷◌, ◌++◌, map,
  reverse, append-nil, append_assoc, Option, none, some, arith, ◌==◌, ltb, leb, if◌then◌else◌,
  Bool-cases, &&_left, &&_right, ==→eq, ==_refl, pos→nonzero, nonzero→pos, ltb→lt, lt→ltb, leb→le,
  le→leb, length, length-append, get_elem?, take, drop, is_empty, any, all, select, All, Some,
  All-append, Some-append, Some-reverse, All-reverse, ⊎-map, ⊎-map_left, ⊎-comm, ⊎-assoc, ⊎-unassoc,
  ⊎-rotate,
}
use sql_server_analyze.Text.{Text, codes, text_eq}
use sql_server_analyze.RuleCache.Texts.{sorted_set}
use sql_server_analyze.RuleCache.Record.{Body, CacheRecord, Hashed}
use sql_server_analyze.RuleCache.Validate.Record.{Header, validate_record_shape}
use sql_server_analyze.RuleCache.Compare.{Plan, Snapshot, compare_records}
use sql_server_analyze.RuleCache.Capture.{Discovered, capture_snapshot}

-- What stands at the path of a record.
pub data CacheFile : Type 0 where
  absent unreadable : CacheFile
  json_record : Header → CacheRecord → CacheFile

abbrev pub header_written : Header
header_written = record {
  schema_version = 1;
  contract = codes "foundation-rule-context-cache/v1";
  generator_name = codes "foundation-rule-context-cache";
  generator_version = codes "1.0.0";
  normalization_policy = codes "foundation-utf8-crlf-lf/v1";
}

-- `record if valid else None`
abbrev pub if_valid : Option Text → Body → Option Body
if_valid none body = some body
if_valid (some reason) body = none

-- What can end a call without a plan.
pub data Failure : Type 0 where
  cache_error os_error : Failure

-- A turn of the loop of `_ExclusiveLock.__enter__`: the file was created, and if not, the deadline has passed.
pub record Attempt : Type 0 where
  pub created : Bool
  pub late : Bool

pub data LockOutcome : Type 0 where
  acquired unavailable waiting : LockOutcome

-- `_ExclusiveLock.__enter__`, for the turns so far.
unfoldable pub enter_lock : List Attempt → LockOutcome
enter_lock [] = LockOutcome.waiting
enter_lock (a ∷ attempts) =
    let rest = enter_lock attempts in
    if a.created then LockOutcome.acquired else if a.late then LockOutcome.unavailable else rest

-- What a run of `record_cache` meets: the destination passed the test of Git, the turns for the lock,
-- and the file was written.
pub record Surroundings : Type 0 where
  pub destination_allowed : Bool
  pub attempts : List Attempt
  pub write_succeeds : Bool

pub data Outcome : Type 0 where
  planned : (recorded : Bool) → Plan → Outcome
  failed : Failure → Outcome
  still_waiting : Outcome

-- How a run ends: its outcome, and the record it wrote.
pub record Run : Type 0 where
  pub outcome : Outcome
  pub written : Option CacheRecord

abbrev pub ended : Outcome → Option CacheRecord → Run
ended outcome written = record { outcome = outcome; written = written }

abbrev pub with_reasons : Plan → List Text → Plan
with_reasons p reasons = record {
  status = p.status;
  reason_codes = reasons;
  record_key = p.record_key;
  planned = p.planned;
  reanalyze = p.reanalyze;
  reuse = p.reuse;
  analysis_keys = p.analysis_keys;
  fingerprint_source_count = p.fingerprint_source_count;
  analysis_full_read_count = p.analysis_full_read_count;
}

module _ (sha256_json : Hashed → Text) where
  -- `_read_record`: the record, if it is valid, and the reason.
  unfoldable pub read_record : CacheFile → Option Body × Option Text
  unfolding validate_record_shape
  read_record CacheFile.absent = (none, some (codes "CACHE_RECORD_NOT_FOUND"))
  read_record CacheFile.unreadable = (none, some (codes "CACHE_RECORD_CORRUPT"))
  read_record (CacheFile.json_record h r) =
      let reason = validate_record_shape sha256_json h r in (if_valid reason r.body, reason)

  -- `check_cache`, for what the two discoveries of its capture find.
  unfoldable pub check_cache :
      Discovered → Discovered → (destination_allowed : Bool) → CacheFile → Plan ⊎ Failure
  unfolding capture_snapshot read_record compare_records
  check_cache first second destination_allowed file =
      let snapshot = capture_snapshot sha256_json first second in
      let (previous, read_reason) = read_record file in
      if not destination_allowed
      then inr Failure.cache_error
      else inl (compare_records sha256_json previous snapshot read_reason)

  abbrev pub not_written : Option Text
  not_written = some (codes "CACHE_RECORD_NOT_WRITTEN")

  abbrev pub unstable_of : Snapshot → Snapshot
  unstable_of current = record {
    captured = current.captured;
    complete = false;
    reason_codes = codes "SOURCE_CHANGED_DURING_DISCOVERY" ∷ [];
  }

  -- The payload of a record that was written.
  abbrev pub recorded_plan : Snapshot → Plan
  recorded_plan current =
      let payload = compare_records sha256_json (some current.captured.body) current none in
      with_reasons payload
        (sorted_set (payload.reason_codes ++ (codes "CACHE_RECORD_WRITTEN" ∷ [])))

  -- Under the lock, which is released on every path.
  unfoldable pub record_locked : Snapshot → Snapshot → (write_succeeds : Bool) → Run
  unfolding compare_records
  record_locked initial current write_succeeds =
      if not current.complete
        || not (text_eq current.captured.record_digest initial.captured.record_digest)
      then ended
          (Outcome.planned false
            (compare_records sha256_json none (unstable_of current) not_written))
          none
      else if write_succeeds
      then ended (Outcome.planned true (recorded_plan current)) (some current.captured)
      else ended (Outcome.failed Failure.os_error) none

  abbrev pub record_behind_lock : LockOutcome → Snapshot → Snapshot → (write_succeeds : Bool) → Run
  record_behind_lock LockOutcome.acquired initial current write_succeeds =
      record_locked initial current write_succeeds
  record_behind_lock LockOutcome.unavailable initial current write_succeeds =
      ended (Outcome.failed Failure.cache_error) none
  record_behind_lock LockOutcome.waiting initial current write_succeeds =
      ended Outcome.still_waiting none

  -- `record_cache`, for what the discoveries of its two captures find.
  unfoldable pub record_cache :
      (initial_first initial_second current_first current_second : Discovered) → Surroundings → Run
  unfolding capture_snapshot compare_records enter_lock record_locked
  record_cache initial_first initial_second current_first current_second around =
      let initial = capture_snapshot sha256_json initial_first initial_second in
      let current = capture_snapshot sha256_json current_first current_second in
      if not initial.complete
      then ended (Outcome.planned false (compare_records sha256_json none initial not_written)) none
      else if not around.destination_allowed
      then ended (Outcome.failed Failure.cache_error) none
      else record_behind_lock (enter_lock around.attempts) initial current around.write_succeeds

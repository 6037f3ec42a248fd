-- ===== src/RuleCache/Recording/Hit.antt =====
-- What was recorded is found again by the next check.
use sql_server_analyze.Common.{◌≡◌, inl, inr, refl, sym, subst, true, none, some, Bool-cases}
use sql_server_analyze.Text.{Text, text_eq}
use sql_server_analyze.RuleCache.Record.{CacheRecord, Hashed}
use sql_server_analyze.RuleCache.Validate.{is_digest}
use sql_server_analyze.RuleCache.Validate.Record.{contents_are_valid, validate_record_shape}
use sql_server_analyze.RuleCache.Compare.{Plan, compare_records}
use sql_server_analyze.RuleCache.Compare.Same.{IsHit, compare_records-IsHit}
use sql_server_analyze.RuleCache.Capture.{
  Discovered, capture_once, capture_snapshot, finalize_record,
}
use sql_server_analyze.RuleCache.Capture.Valid.{IsDiscovery, finalize_record-contents_are_valid}
use sql_server_analyze.RuleCache.Recording.{CacheFile, header_written, read_record, check_cache}

-- A complete capture is that of its second discovery.
pub capture_snapshot-captured :
    (sha256_json : Hashed → Text) (first second : Discovered)
    → (capture_snapshot sha256_json first second).complete ≡ true
    → (capture_snapshot sha256_json first second).captured ≡ finalize_record sha256_json second
unfolding capture_snapshot capture_once
capture_snapshot-captured sha256_json first second c =
    elim (Bool-cases (capture_once sha256_json first).complete) [
      | inr t ↦ cc (rw t at c)
      | inl t ↦
          elim (Bool-cases (
            text_eq (capture_once sha256_json first).captured.record_digest
              (capture_once sha256_json second).captured.record_digest)) [
                | inr u ↦ cc (rw (t, u) at c)
                | inl u ↦ rw (t, u) refl
              ]
    ]

-- The record that a capture has made is read back.
read_record-finalize_record :
    (sha256_json : Hashed → Text) (d : Discovered)
    → ((h : Hashed) → is_digest (sha256_json h) ≡ true)
    → IsDiscovery d
    → contents_are_valid sha256_json (finalize_record sha256_json d).body ≡ true
    → read_record sha256_json (CacheFile.json_record header_written (finalize_record sha256_json d))
      ≡ (some (finalize_record sha256_json d).body, none)
unfolding read_record validate_record_shape
read_record-finalize_record sha256_json d digests i contents =
    rw (finalize_record-contents_are_valid sha256_json d digests i, contents) refl

-- What a complete capture recorded is found again by a check that captures the same state: the
-- check answers with a hit, and has nothing read again. The hash gives digests, the sets of the
-- graph are listed in order, only located sources have dependencies, and the contents that the
-- capture recorded pass the tests on the contents.
pub check_cache-IsHit :
    (sha256_json : Hashed → Text) (first second : Discovered)
    → ((h : Hashed) → is_digest (sha256_json h) ≡ true)
    → IsDiscovery second
    → (capture_snapshot sha256_json first second).complete ≡ true
    → contents_are_valid sha256_json (finalize_record sha256_json second).body ≡ true
    → (plan : Plan) × (check_cache sha256_json first second true (
          CacheFile.json_record header_written (capture_snapshot sha256_json first second).captured)
        ≡ inl plan)
      × IsHit plan
unfolding check_cache
check_cache-IsHit sha256_json first second digests i c contents =
    let s = capture_snapshot sha256_json first second in
    let same = capture_snapshot-captured sha256_json first second c in
    let back = read_record-finalize_record sha256_json second digests i contents in
    let read : read_record sha256_json (CacheFile.json_record header_written s.captured)
        ≡ (some s.captured.body, none) =
      subst
        (λ (r : CacheRecord).
          read_record sha256_json (CacheFile.json_record header_written r) ≡ (some r.body, none))
        (sym same) back in
    (
      compare_records sha256_json (some s.captured.body) s none,
      λ j. inl (compare_records sha256_json (read j).0 s (read j).1),
      compare_records-IsHit sha256_json s none c,
    )

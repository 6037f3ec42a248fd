-- ===== src/RuleCache/Recording/Written.antt =====
-- When a record is written.
use sql_server_analyze.Common.{
  ◌≡◌, inl, inr, refl, sym, ◌||◌, not, Bool, true, some, arith, Bool-cases,
}
use sql_server_analyze.Text.{Text, text_eq, text_eq→eq}
use sql_server_analyze.RuleCache.Record.{CacheRecord, Hashed}
use sql_server_analyze.RuleCache.Compare.{Snapshot}
use sql_server_analyze.RuleCache.Capture.{Discovered, capture_snapshot}
use sql_server_analyze.RuleCache.Recording.{
  LockOutcome, enter_lock, Surroundings, Outcome, recorded_plan, record_locked, record_behind_lock,
  record_cache,
}

module _ (sha256_json : Hashed → Text) where
  -- What stands behind a record that was written.
  pub record IsRecorded (first second third fourth : Discovered) (around : Surroundings)
      (r : CacheRecord) : Type 0 where
    pub initial_complete : (capture_snapshot sha256_json first second).complete ≡ true
    pub current_complete : (capture_snapshot sha256_json third fourth).complete ≡ true
    pub locked : enter_lock around.attempts ≡ LockOutcome.acquired
    pub is_current : r ≡ (capture_snapshot sha256_json third fourth).captured
    pub stable :
        (capture_snapshot sha256_json third fourth).captured.record_digest
        ≡ (capture_snapshot sha256_json first second).captured.record_digest

  locked-written :
      (initial current : Snapshot) (ok : Bool) (r : CacheRecord)
      → (record_locked sha256_json initial current ok).written ≡ some r
      → (current.complete ≡ true)
        × (r ≡ current.captured)
        × (current.captured.record_digest ≡ initial.captured.record_digest)
        × ((record_locked sha256_json initial current ok).outcome
            ≡ Outcome.planned true (recorded_plan sha256_json current))
  unfolding record_locked
  locked-written initial current ok r h =
      elim (Bool-cases (
        not current.complete
        || not (text_eq current.captured.record_digest initial.captured.record_digest))) [
          | inl t ↦ cc (rw t at h)
          | inr t ↦ elim (Bool-cases ok) [
            | inr u ↦ cc (rw (t, u) at h)
            | inl u ↦
                let same : current.captured ≡ r = some-eq current.captured r (rw (t, u) at h) in
                (ground (arith, t), sym same, text_eq→eq _ _ (ground (arith, t)), rw (t, u) refl)
          ]
        ]
    where
      some-eq : (a b : CacheRecord) → some a ≡ some b → a ≡ b
      some-eq a b h = cc

  behind-written :
      (lock : LockOutcome) (initial current : Snapshot) (ok : Bool) (r : CacheRecord)
      → (record_behind_lock sha256_json lock initial current ok).written ≡ some r
      → (lock ≡ LockOutcome.acquired)
        × ((record_locked sha256_json initial current ok).written ≡ some r)
  behind-written LockOutcome.acquired initial current ok r h = (refl, h)
  behind-written LockOutcome.unavailable initial current ok r h = cc
  behind-written LockOutcome.waiting initial current ok r h = cc

  -- A record is written only under the lock, and only where both captures were complete and
  -- gave the same digest; what is written is the record of the capture under the lock. The run
  -- then ends with a plan that is marked as recorded.
  pub record_cache-IsRecorded :
      (first second third fourth : Discovered) (around : Surroundings) (r : CacheRecord)
      → (record_cache sha256_json first second third fourth around).written ≡ some r
      → IsRecorded first second third fourth around r
        × ((record_cache sha256_json first second third fourth around).outcome
            ≡ Outcome.planned true
                (recorded_plan sha256_json (capture_snapshot sha256_json third fourth)))
  unfolding record_cache
  record_cache-IsRecorded first second third fourth around r h =
      let initial = capture_snapshot sha256_json first second in
      let current = capture_snapshot sha256_json third fourth in
      elim (Bool-cases initial.complete) [
        | inr t ↦ cc (rw t at h)
        | inl t ↦ elim (Bool-cases around.destination_allowed) [
          | inr u ↦ cc (rw (t, u) at h)
          | inl u ↦
              let (lock, inner) =
                behind-written (enter_lock around.attempts) initial current around.write_succeeds r
                  (rw (t, u) at h) in
              let (complete, same, stable, outcome) =
                locked-written initial current around.write_succeeds r inner in
              (
                record {
                  initial_complete = t;
                  current_complete = complete;
                  locked = lock;
                  is_current = same;
                  stable = stable;
                },
                rw (t, u, lock) outcome,
              )
        ]
      ]

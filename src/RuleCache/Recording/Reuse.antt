-- ===== src/RuleCache/Recording/Reuse.antt =====
-- What a check says to reuse has the same key in the record that was read.
use sql_server_analyze.Common.{
  ◌≡◌, ◌⊎◌, inl, inr, refl, sym, ◌∙◌, subst, true, Option, none, some, Bool-cases,
}
use sql_server_analyze.Text.{Text}
use sql_server_analyze.RuleCache.Texts.{In}
use sql_server_analyze.RuleCache.Graph.Scanning.{IsDict}
use sql_server_analyze.RuleCache.Record.{CacheRecord, Hashed, graph_of}
use sql_server_analyze.RuleCache.Record.Fingerprints.{IsKeyed}
use sql_server_analyze.RuleCache.Validate.{is_digest}
use sql_server_analyze.RuleCache.Validate.Record.{Header, contents_are_valid, validate_record_shape}
use sql_server_analyze.RuleCache.Validate.Keyed.{record_is_valid-IsKeyed, validated}
use sql_server_analyze.RuleCache.Compare.{Plan, compare_records}
use sql_server_analyze.RuleCache.Compare.Reuse.{
  SharedKey, compare_records-SharedKey, nothing_reused,
}
use sql_server_analyze.RuleCache.Capture.{Discovered, capture_snapshot, finalize_record}
use sql_server_analyze.RuleCache.Capture.Valid.{IsDiscovery, finalize_record-contents_are_valid}
use sql_server_analyze.RuleCache.Recording.{CacheFile, if_valid, Failure, check_cache}
use sql_server_analyze.RuleCache.Recording.Hit.{capture_snapshot-captured}

module _ (sha256_json : Hashed → Text) (first second : Discovered)
    (digests : (h : Hashed) → is_digest (sha256_json h) ≡ true) (discovery : IsDiscovery second)
    (contents : contents_are_valid sha256_json (finalize_record sha256_json second).body
      ≡ true) where
  captured-IsKeyed :
      (capture_snapshot sha256_json first second).complete ≡ true
      → IsKeyed sha256_json (capture_snapshot sha256_json first second).captured.body
  captured-IsKeyed c =
      subst (λ (r : CacheRecord). IsKeyed sha256_json r.body)
        (sym (capture_snapshot-captured sha256_json first second c))
        (record_is_valid-IsKeyed sha256_json (finalize_record sha256_json second)
          (finalize_record-contents_are_valid sha256_json second digests discovery ∙ contents))

  -- Whatever stands in the file of the cache, a check never says to reuse an analysis under
  -- another key: each path in the `reuse` list of its plan is a source of the record in the
  -- file and of the captured one, with one analysis key. The hash gives digests, no source of
  -- the capture stands twice, the sets of its graph are listed in order, only located sources
  -- have dependencies, and the contents of the captured record pass the tests on the contents.
  pub check_cache-SharedKey :
      IsDict (graph_of (capture_snapshot sha256_json first second).captured.body.sources)
      → (h : Header) (r : CacheRecord) (plan : Plan)
      → check_cache sha256_json first second true (CacheFile.json_record h r) ≡ inl plan
      → (path : Text) → In path plan.reuse
      → SharedKey r.body (capture_snapshot sha256_json first second).captured.body path
  unfolding check_cache
  check_cache-SharedKey dict h r plan e path i =
      let s = capture_snapshot sha256_json first second in
      let reason = validate_record_shape sha256_json h r in
      let same : compare_records sha256_json (if_valid reason r.body) s reason ≡ plan =
        inl-eq _ plan e in
      let listed : In path (compare_records sha256_json (if_valid reason r.body) s reason).reuse =
        rw (← same) at i in
      elim (Bool-cases s.complete) [
        | inr t ↦
            absurd
              (nothing_reused sha256_json (if_valid reason r.body) s reason path (inr t) listed)
        | inl t ↦ on_reason reason refl t listed
      ]
    where
      inl-eq : (a b : Plan) → ◌≡◌ {A = Plan ⊎ Failure} (inl a) (inl b) → a ≡ b
      inl-eq a b h = cc

      on_reason :
          (reason : Option Text)
          → validate_record_shape sha256_json h r ≡ reason
          → (capture_snapshot sha256_json first second).complete ≡ true
          → In path
              (compare_records sha256_json
                (if_valid reason r.body)
                (capture_snapshot sha256_json first second)
                reason).reuse
          → SharedKey r.body (capture_snapshot sha256_json first second).captured.body path
      on_reason (some x) v t k = absurd (
          nothing_reused sha256_json none (capture_snapshot sha256_json first second) (some x) path
            (inl refl) k)
      on_reason none v t k =
          compare_records-SharedKey sha256_json r.body (capture_snapshot sha256_json first second)
            none dict (record_is_valid-IsKeyed sha256_json r (validated sha256_json h r v))
            (captured-IsKeyed t) path k

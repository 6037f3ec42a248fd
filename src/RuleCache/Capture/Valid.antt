-- ===== src/RuleCache/Capture/Valid.antt =====
-- The record of a capture is read as valid, as far as its hashes go.
use sql_server_analyze.Common.{
  ◌≡◌, inl, inr, refl, sym, ap, ◌∙◌, ◌&&◌, ◌||◌, not, Bool, true, false, List, [], ◌∷◌, map, arith,
  if◌then◌else◌, Bool-cases,
}
use sql_server_analyze.Text.{Text, text_eq, text_eq→eq, text_eq_refl, member}
use sql_server_analyze.RuleCache.Texts.{sorted_set, text_eq_flip}
use sql_server_analyze.RuleCache.Graph.{Graph, targets}
use sql_server_analyze.RuleCache.Record.{Source, Hashed, of_body, of_cwd, graph_of}
use sql_server_analyze.RuleCache.Validate.{is_digest, record_digest_is_valid, scope_id_is_valid}
use sql_server_analyze.RuleCache.Validate.Record.{
  keys_are_valid, contents_are_valid, record_is_valid,
}
use sql_server_analyze.RuleCache.Capture.{
  Location, Discovered, insert_location, sorted_locations, fingerprinted, unkeyed, keyed_body,
  finalize_record,
}
use sql_server_analyze.RuleCache.Capture.Keys.{keyed_body-keys_are_valid}

abbrev pub located : List (Text × Location) → List Text
located items = map (λ (x : Text × Location). x.0) items

-- The graph of a discovery: its sets are listed in order, and only located sources have one.
pub record IsDiscovery (d : Discovered) : Type 0 where
  pub ordered : (q : Text) → sorted_set (targets d.graph q) ≡ targets d.graph q
  pub outside : (q : Text) → member q (located d.locations) ≡ false → targets d.graph q ≡ []

targets-fingerprinted :
    (f : Location → Source) (g : Graph) (q : Text) (items : List (Text × Location))
    → targets (graph_of (fingerprinted f g items)) q
      ≡ (if member q (located items) then sorted_set (targets g q) else [])
unfolding fingerprinted targets member
targets-fingerprinted f g q [] = refl
targets-fingerprinted f g q ((p, l) ∷ items) = elim (Bool-cases (text_eq p q)) [
  | inl t ↦ let same : p ≡ q = text_eq→eq p q t in rw (same, text_eq_refl q) refl
  | inr t ↦ rw (t, text_eq_flip p q t) (targets-fingerprinted f g q items)
]

member-insert_location :
    (q p : Text) (l : Location) (items : List (Text × Location))
    → member q (located (insert_location (p, l) items)) ≡ (text_eq q p || member q (located items))
unfolding member insert_location
member-insert_location q p l [] = refl
member-insert_location q p l ((r, m) ∷ items) = ground (arith, member-insert_location q p l items)

member-sorted_locations :
    (q : Text) (items : List (Text × Location))
    → member q (located (sorted_locations items)) ≡ member q (located items)
unfolding sorted_locations member
member-sorted_locations q [] = refl
member-sorted_locations q ((p, l) ∷ items) =
    member-insert_location q p l (sorted_locations items)
    ∙ ap (λ (b : Bool). text_eq q p || b) (member-sorted_locations q items)

targets-unkeyed :
    (sha256_json : Hashed → Text) (d : Discovered)
    → IsDiscovery d
    → targets (graph_of (unkeyed sha256_json d).sources) ≡ targets d.graph
targets-unkeyed sha256_json d i = λ j q. at q j
  where
    at : (q : Text) → targets (graph_of (unkeyed sha256_json d).sources) q ≡ targets d.graph q
    at q =
        targets-fingerprinted d.fingerprint_source d.graph q (sorted_locations d.locations)
        ∙ elim (Bool-cases (member q (located d.locations))) [
          | inl t ↦ rw (member-sorted_locations q d.locations, t) (i.ordered q)
          | inr t ↦ rw (member-sorted_locations q d.locations, t) (sym (i.outside q t))
        ]

finalize_record-scope_id_is_valid :
    (sha256_json : Hashed → Text) (d : Discovered)
    → ((h : Hashed) → is_digest (sha256_json h) ≡ true)
    → scope_id_is_valid sha256_json (finalize_record sha256_json d).body.scope ≡ true
unfolding finalize_record scope_id_is_valid
finalize_record-scope_id_is_valid sha256_json d digests =
    both (digests (of_cwd d.cwd_relative)) (text_eq_refl (sha256_json (of_cwd d.cwd_relative)))
  where
    both : {x y : Bool} → x ≡ true → y ≡ true → (x && y) ≡ true
    both e f = rw (e, f) refl

finalize_record-keys_are_valid :
    (sha256_json : Hashed → Text) (d : Discovered)
    → ((h : Hashed) → is_digest (sha256_json h) ≡ true)
    → IsDiscovery d
    → keys_are_valid sha256_json (finalize_record sha256_json d).body ≡ true
unfolding finalize_record
finalize_record-keys_are_valid sha256_json d digests i =
    keyed_body-keys_are_valid sha256_json (unkeyed sha256_json d) d.graph digests
      (targets-unkeyed sha256_json d i)

finalize_record-record_digest_is_valid :
    (sha256_json : Hashed → Text) (d : Discovered)
    → ((h : Hashed) → is_digest (sha256_json h) ≡ true)
    → record_digest_is_valid sha256_json (finalize_record sha256_json d) ≡ true
unfolding finalize_record record_digest_is_valid
finalize_record-record_digest_is_valid sha256_json d digests =
    checked (digests (of_body (keyed_body sha256_json (unkeyed sha256_json d) d.graph))) (
      text_eq_refl (sha256_json (of_body (keyed_body sha256_json (unkeyed sha256_json d) d.graph))))
  where
    checked : {x y : Bool} → x ≡ true → y ≡ true → (if not x then false else y) ≡ true
    checked e f = rw (e, f) refl

last_three : (a b c d : Bool) → b ≡ true → c ≡ true → d ≡ true → (a && b && c && d) ≡ a
last_three true b c d e f g = rw (e, f, g) refl
last_three false b c d e f g = refl

-- A record that a capture has just made fails the validation of a reader only for its contents:
-- the scope id, every analysis key and the digest of the record are the ones that the reader
-- computes. The hash gives digests, the sets of the graph are listed in order, and only located
-- sources have dependencies.
pub finalize_record-contents_are_valid :
    (sha256_json : Hashed → Text) (d : Discovered)
    → ((h : Hashed) → is_digest (sha256_json h) ≡ true)
    → IsDiscovery d
    → record_is_valid sha256_json (finalize_record sha256_json d)
      ≡ contents_are_valid sha256_json (finalize_record sha256_json d).body
unfolding record_is_valid
finalize_record-contents_are_valid sha256_json d digests i =
    let r = finalize_record sha256_json d in
    last_three (contents_are_valid sha256_json r.body) (scope_id_is_valid sha256_json r.body.scope)
      (keys_are_valid sha256_json r.body) (record_digest_is_valid sha256_json r)
      (finalize_record-scope_id_is_valid sha256_json d digests)
      (finalize_record-keys_are_valid sha256_json d digests i)
      (finalize_record-record_digest_is_valid sha256_json d digests)

-- ===== src/RuleCache/Fingerprint/Valid.antt =====
-- The state that Git's answers give is one that a reader of the record accepts.
use sql_server_analyze.Common.{
  ◌≡◌, sym, ◌∙◌, inl, inr, refl, ◌&&◌, not, Bool, true, false, List, [], ◌∷◌, ◌++◌, Option, none,
  some, arith, any, ◌⊎◌, ◌==◌, Bool-cases, &&_left, &&_right, is_empty, all,
}
use sql_server_analyze.Text.{Text, codes, text_eq, text_eq_refl, member, starts_with}
use sql_server_analyze.RuleCache.Texts.{
  In, In-cases, not-In-nil, text_leb, insert_text, texts_eq, sorted_set,
}
use sql_server_analyze.RuleCache.Record.{GitFingerprint}
use sql_server_analyze.RuleCache.Validate.{global_prefix, git_is_valid, is_git_object}
use sql_server_analyze.RuleCache.Discovery.Ascending.{
  is_ascending, insert_text-ascending, sorted_set-ascending,
}
use sql_server_analyze.RuleCache.Fingerprint.{
  GitAnswers, status_states, states_of, states_or, index_blob, lines_of, git_fingerprint,
}
use sql_server_analyze.RuleCache.Fingerprint.States.{
  shows_untracked, shows_staged, shows_unstaged, is_tracked, HasObjectNames, head-is_git_object,
  index_blob-tracked, AreStates, sorted_states-AreStates,
}

abbrev local_states : List Text
local_states = codes "TRACKED_CLEAN" ∷ codes "STAGED" ∷ codes "UNSTAGED" ∷ codes "UNTRACKED" ∷ []

abbrev all_known : List Text → Bool
all_known states = all (λ state. member state local_states) states

all_known-append :
    (xs ys : List Text) → all_known xs ≡ true → all_known ys ≡ true → all_known (xs ++ ys) ≡ true
all_known-append [] ys h k = k
all_known-append (x ∷ xs) ys h k =
    rw (&&_left (member x local_states) (all_known xs) h)
      (all_known-append xs ys (&&_right (member x local_states) (all_known xs) h) k)

status_states-known : (line : Text) → all_known (status_states line) ≡ true
unfolding member
status_states-known [] = refl
status_states-known (x ∷ []) = refl
status_states-known (x ∷ y ∷ line) = elim (Bool-cases ((x == b'?') && (y == b'?'))) [
  | inl t ↦ rw t refl
  | inr t ↦ rw t (elim (Bool-cases (x == 32)) [
    | inl u ↦ rw u (elim (Bool-cases (y == 32)) [ inl v ↦ rw v refl | inr v ↦ rw v refl ])
    | inr u ↦ rw u (elim (Bool-cases (y == 32)) [ inl v ↦ rw v refl | inr v ↦ rw v refl ])
  ])
]

states_of-known : (lines : List Text) → all_known (states_of lines) ≡ true
unfolding states_of
states_of-known [] = refl
states_of-known (line ∷ lines) =
    all_known-append (status_states line) (states_of lines) (status_states-known line)
      (states_of-known lines)

states_or-known :
    (states : List Text) (blob : Option Text)
    → all_known states ≡ true
    → (all_known (states_or states blob) ≡ true) × (is_empty (states_or states blob) ≡ false)
unfolding member
states_or-known [] none h = (refl, refl)
states_or-known [] (some b) h = elim (Bool-cases (is_empty b)) [
  | inl t ↦ rw t (refl, refl)
  | inr t ↦ rw t (refl, refl)
]
states_or-known (s ∷ states) blob h = (h, refl)

all_known-insert :
    (t : Text) (ts : List Text)
    → member t local_states ≡ true
    → all_known ts ≡ true
    → all_known (insert_text t ts) ≡ true
unfolding insert_text
all_known-insert t [] h k = rw h refl
all_known-insert t (s ∷ ts) h k = elim (Bool-cases (text_eq t s)) [
  | inl e ↦ rw e k
  | inr e ↦ elim (Bool-cases (text_leb t s)) [
    | inl l ↦ rw (e, l, h) k
    | inr l ↦
        rw (e, l, &&_left (member s local_states) (all_known ts) k)
          (all_known-insert t ts h (&&_right (member s local_states) (all_known ts) k))
  ]
]

all_known-sorted : (ts : List Text) → all_known ts ≡ true → all_known (sorted_set ts) ≡ true
unfolding sorted_set
all_known-sorted [] h = refl
all_known-sorted (t ∷ ts) h =
    all_known-insert t (sorted_set ts) (&&_left (member t local_states) (all_known ts) h)
      (all_known-sorted ts (&&_right (member t local_states) (all_known ts) h))

sorted_ascending : (ts : List Text) → is_ascending (sorted_set ts) ≡ true
unfolding sorted_set
sorted_ascending [] = refl
sorted_ascending (t ∷ ts) = insert_text-ascending t (sorted_set ts) (sorted_ascending ts)

sorted_nonempty : (ts : List Text) → is_empty ts ≡ false → is_empty (sorted_set ts) ≡ false
unfolding sorted_set insert_text
sorted_nonempty [] h = cc
sorted_nonempty (t ∷ ts) h = inserted t (sorted_set ts)
  where
    inserted : (t : Text) (ts : List Text) → is_empty (insert_text t ts) ≡ false
    inserted t [] = refl
    inserted t (s ∷ ts) = ground arith

texts_eq_same : (ts : List Text) → texts_eq ts ts ≡ true
texts_eq_same [] = refl
texts_eq_same (t ∷ ts) = rw (text_eq_refl t) (texts_eq_same ts)

-- The states that a reader knows.
abbrev reader_states : List Text
reader_states =
    codes "TRACKED_CLEAN"
    ∷ codes "STAGED"
    ∷ codes "UNSTAGED"
    ∷ codes "UNTRACKED"
    ∷ codes "EXTERNAL_GLOBAL"
    ∷ []

known_to_reader :
    (t : Text)
    → In t local_states
    → (member t reader_states ≡ true) × (text_eq (codes "EXTERNAL_GLOBAL") t ≡ false)
unfolding member
known_to_reader t h =
    elim (In-cases t (codes "TRACKED_CLEAN")
      (codes "STAGED" ∷ codes "UNSTAGED" ∷ codes "UNTRACKED" ∷ []) h) [
        | inl e ↦ rw e (refl, refl)
        | inr h2 ↦
            elim (In-cases t (codes "STAGED") (codes "UNSTAGED" ∷ codes "UNTRACKED" ∷ []) h2) [
              | inl e ↦ rw e (refl, refl)
              | inr h3 ↦ elim (In-cases t (codes "UNSTAGED") (codes "UNTRACKED" ∷ []) h3) [
                | inl e ↦ rw e (refl, refl)
                | inr h4 ↦ elim (In-cases t (codes "UNTRACKED") ([]) h4) [
                  | inl e ↦ rw e (refl, refl)
                  | inr h5 ↦ absurd (not-In-nil t h5)
                ]
              ]
            ]
      ]

all_read :
    (ts : List Text)
    → all_known ts ≡ true
    → (all (λ state. member state reader_states) ts ≡ true)
      × (member (codes "EXTERNAL_GLOBAL") ts ≡ false)
unfolding member
all_read [] h = (refl, refl)
all_read (t ∷ ts) h =
    let (a, b) = known_to_reader t (&&_left (member t local_states) (all_known ts) h) in
    let (c, d) = all_read ts (&&_right (member t local_states) (all_known ts) h) in (rw a c, rw b d)

abbrev global_git : GitFingerprint
global_git = record {
  head_blob_id = none;
  index_blob_id = none;
  working_tree_state = codes "EXTERNAL_GLOBAL" ∷ [];
}

global_is_valid :
    (git_is_valid global_git ≡ true)
    × (member (codes "EXTERNAL_GLOBAL") (codes "EXTERNAL_GLOBAL" ∷ []) ≡ true)
unfolding git_is_valid member sorted_set is_git_object
global_is_valid = (refl, refl)

five :
    {a b c d e : Bool}
    → a ≡ true
    → b ≡ true
    → c ≡ false
    → d ≡ true
    → e ≡ true
    → (a && b && not c && d && e) ≡ true
five e f g h i = rw (e, f, g, h, i) refl

-- What a fingerprint says of the answers of Git on a path.
pub record IsFingerprintOf (answers : GitAnswers) (path : Text) (g : GitFingerprint) : Type 0 where
  pub valid : git_is_valid g ≡ true
  pub external :
      member (codes "EXTERNAL_GLOBAL") g.working_tree_state ≡ starts_with global_prefix path
  pub states :
      (starts_with global_prefix path ≡ true)
      ⊎ AreStates g.working_tree_state
          (any shows_untracked (lines_of answers.status))
          (any shows_staged (lines_of answers.status))
          (any shows_unstaged (lines_of answers.status))
          (is_tracked (lines_of answers.stage))

-- Where the answers of Git have names of 40 or 64 lower-case hexadecimal digits in the places of
-- object names (that of HEAD may also be missing or empty), the fingerprint passes the tests of a
-- reader of the record, and it is external exactly where the path is a global one. On any other
-- path it is staged, or unstaged, exactly where a line of the status shows so; untracked where a
-- line shows so, or no line shows a change and the path does not stand in the index at stage 0;
-- and clean where no line shows a change and the path stands there.
pub git_fingerprint-IsFingerprintOf :
    (answers : GitAnswers) (path : Text)
    → HasObjectNames answers
    → IsFingerprintOf answers path (git_fingerprint answers path)
unfolding git_is_valid git_fingerprint
git_fingerprint-IsFingerprintOf answers path names =
    elim (Bool-cases (starts_with global_prefix path)) [
      | inl t ↦ rw t (record {
        valid = global_is_valid.0;
        external = global_is_valid.1 ∙ sym t;
        states = inl t;
      })
      | inr t ↦
          let stage = lines_of answers.stage in
          let blob = index_blob stage in
          let states = states_of (lines_of answers.status) in
          let (known, present) =
            states_or-known states blob (states_of-known (lines_of answers.status)) in
          let chosen = states_or states blob in
          let (listed, inside) = all_read (sorted_set chosen) (all_known-sorted chosen known) in
          rw t (record {
            valid =
                five (head-is_git_object answers.head_blob names.head)
                  (index_blob-tracked stage names.stage).1 (sorted_nonempty chosen present)
                  (rw (sorted_set-ascending (sorted_set chosen) (sorted_ascending chosen))
                    (texts_eq_same (sorted_set chosen)))
                  listed;
            external = inside ∙ sym t;
            states = inr (sorted_states-AreStates (lines_of answers.status) stage names.stage);
          })
    ]

-- ===== src/RuleCache/Fingerprint/States.antt =====
-- The states of `_git_fingerprint`, read off the lines that Git answers.
use sql_server_analyze.Common.{
  ◌≡◌, ◌⊎◌, inl, inr, refl, ◌∙◌, ◌&&◌, ◌||◌, not, Bool, true, false, List, [], ◌∷◌, ◌++◌, Option,
  none, some, arith, ◌==◌, leb, Bool-cases, length, is_empty, any, all, All,
}
use sql_server_analyze.Text.{Text, codes, text_eq, member}
use sql_server_analyze.Reader.Pidfd.{unicode_words}
use sql_server_analyze.RuleCache.Texts.{member-append, sorted_set, member-sorted_set}
use sql_server_analyze.RuleCache.Validate.{is_git_object}
use sql_server_analyze.RuleCache.Fingerprint.{
  GitAnswers, status_states, states_of, states_or, not_blank, or_else, staged_blob, index_blob,
  lines_of,
}

-- `?? path`
abbrev pub shows_untracked : Text → Bool
shows_untracked (x ∷ y ∷ line) = (x == b'?') && (y == b'?')
shows_untracked _ = false

-- The first letter is that of a change in the index.
abbrev pub shows_staged : Text → Bool
shows_staged (x ∷ y ∷ line) = not ((x == b'?') && (y == b'?')) && not (x == 32)
shows_staged _ = false

-- The second letter is that of a change in the working tree.
abbrev pub shows_unstaged : Text → Bool
shows_unstaged (x ∷ y ∷ line) = not ((x == b'?') && (y == b'?')) && not (y == 32)
shows_unstaged _ = false

abbrev pub shows_change : Text → Bool
shows_change line = shows_untracked line || shows_staged line || shows_unstaged line

-- `mode blob 0`: the path is in the index, and not in conflict.
abbrev pub is_stage_zero : List Text → Bool
is_stage_zero (mode ∷ blob ∷ number ∷ fields) = text_eq number (codes "0")
is_stage_zero _ = false

abbrev pub is_tracked : List Text → Bool
is_tracked = any (λ line. is_stage_zero (unicode_words line))

-- The name of an object: 40 or 64 of the digits 0 to 9 and a to f.
pub record IsObjectName (t : Text) : Type 0 where
  pub size : (length t ≡ 40) ⊎ (length t ≡ 64)
  pub digits : all (λ c. (leb b'0' c && leb c b'9') || (leb b'a' c && leb c b'f')) t ≡ true

abbrev pub IsHeadName : Option Text → Type 0
IsHeadName none = Unit
IsHeadName (some t) = (t ≡ []) ⊎ IsObjectName t

abbrev pub IsStageLine : List Text → Type 0
IsStageLine (mode ∷ blob ∷ number ∷ fields) = IsObjectName blob
IsStageLine _ = Unit

-- What Git answers has names of objects in their places: the output of `rev-parse` is one, or empty, and so is
-- the second word of each line of `ls-files --stage` with three words or more.
pub record HasObjectNames (answers : GitAnswers) : Type 0 where
  pub head : IsHeadName answers.head_blob
  pub stage : All (λ line. IsStageLine (unicode_words line)) (lines_of answers.stage)

IsObjectName-is_git_object : (t : Text) → IsObjectName t → is_git_object (some t) ≡ true
unfolding is_git_object
IsObjectName-is_git_object t h = ground (arith, h.size, h.digits)

IsObjectName-nonempty : (t : Text) → IsObjectName t → is_empty t ≡ false
IsObjectName-nonempty [] h = ground (arith, h.size)
IsObjectName-nonempty (c ∷ t) h = refl

pub head-is_git_object :
    (head : Option Text) → IsHeadName head → is_git_object (not_blank head) ≡ true
unfolding is_git_object
head-is_git_object none h = refl
head-is_git_object (some []) h = refl
head-is_git_object (some (c ∷ t)) (inl e) = cc
head-is_git_object (some (c ∷ t)) (inr h) = IsObjectName-is_git_object (c ∷ t) h

abbrev is_full : Option Text → Bool
is_full none = false
is_full (some t) = not (is_empty t)

-- A name is found in the index exactly where a line of stage 0 stands, and it is that of an object.
pub index_blob-tracked :
    (lines : List Text)
    → All (λ line. IsStageLine (unicode_words line)) lines
    → (is_full (index_blob lines) ≡ is_tracked lines) × (is_git_object (index_blob lines) ≡ true)
unfolding index_blob is_git_object
index_blob-tracked [] h = (refl, refl)
index_blob-tracked (line ∷ lines) (h, hs) =
    first (unicode_words line) (index_blob-tracked lines hs) h
  where
    Found : Option Text → Bool → Type 0
    Found blob tracked = (is_full blob ≡ tracked) × (is_git_object blob ≡ true)

    first :
        (words : List Text)
        → Found (index_blob lines) (is_tracked lines)
        → IsStageLine words
        → Found
            (or_else (staged_blob words) (index_blob lines))
            (is_stage_zero words || is_tracked lines)
    first [] rest h = rest
    first (a ∷ []) rest h = rest
    first (a ∷ b ∷ []) rest h = rest
    first (a ∷ b ∷ number ∷ fields) rest h = elim (Bool-cases (text_eq number (codes "0"))) [
      | inl z ↦ rw (z, IsObjectName-nonempty b h) (refl, IsObjectName-is_git_object b h)
      | inr z ↦ rw z rest
    ]

-- What one line adds.
record Adds (states : List Text) (untracked staged unstaged : Bool) : Type 0 where
  untracked_listed : member (codes "UNTRACKED") states ≡ untracked
  staged_listed : member (codes "STAGED") states ≡ staged
  unstaged_listed : member (codes "UNSTAGED") states ≡ unstaged
  clean_unlisted : member (codes "TRACKED_CLEAN") states ≡ false
  nothing : is_empty states ≡ not (untracked || staged || unstaged)

status_states-Adds :
    (line : Text)
    → Adds (status_states line) (shows_untracked line) (shows_staged line) (shows_unstaged line)
unfolding member
status_states-Adds [] = ground arith
status_states-Adds (x ∷ []) = ground arith
status_states-Adds (x ∷ y ∷ line) = elim (Bool-cases ((x == b'?') && (y == b'?'))) [
  | inl t ↦ rw t (ground arith)
  | inr t ↦ elim (Bool-cases (x == 32)) [
    | inl u ↦ elim (Bool-cases (y == 32)) [
      | inl v ↦ rw (t, u, v) (ground arith)
      | inr v ↦ rw (t, u, v) (ground arith)
    ]
    | inr u ↦ elim (Bool-cases (y == 32)) [
      | inl v ↦ rw (t, u, v) (ground arith)
      | inr v ↦ rw (t, u, v) (ground arith)
    ]
  ]
]

is_empty-append : (xs ys : List Text) → is_empty (xs ++ ys) ≡ (is_empty xs && is_empty ys)
is_empty-append [] ys = refl
is_empty-append (x ∷ xs) ys = refl

Adds-append :
    (xs ys : List Text) (a b c d e f : Bool)
    → Adds xs a b c
    → Adds ys d e f
    → Adds (xs ++ ys) (a || d) (b || e) (c || f)
Adds-append xs ys a b c d e f p q = record {
  untracked_listed =
      member-append (codes "UNTRACKED") xs ys ∙ rw (p.untracked_listed, q.untracked_listed) refl;
  staged_listed = member-append (codes "STAGED") xs ys ∙ rw (p.staged_listed, q.staged_listed) refl;
  unstaged_listed =
      member-append (codes "UNSTAGED") xs ys ∙ rw (p.unstaged_listed, q.unstaged_listed) refl;
  clean_unlisted =
      member-append (codes "TRACKED_CLEAN") xs ys ∙ rw (p.clean_unlisted, q.clean_unlisted) refl;
  nothing = is_empty-append xs ys ∙ rw (p.nothing, q.nothing) (ground arith);
}

states_of-Adds :
    (lines : List Text)
    → Adds
        (states_of lines)
        (any shows_untracked lines)
        (any shows_staged lines)
        (any shows_unstaged lines)
unfolding states_of member
states_of-Adds [] = ground arith
states_of-Adds (line ∷ lines) =
    Adds-append (status_states line) (states_of lines) _ _ _ _ _ _ (status_states-Adds line)
      (states_of-Adds lines)

abbrev pub AreStates : (states : List Text) (untracked staged unstaged tracked : Bool) → Type 0
AreStates states untracked staged unstaged tracked =
    let changed = untracked || staged || unstaged in
    (member (codes "STAGED") states ≡ staged)
    × (member (codes "UNSTAGED") states ≡ unstaged)
    × (member (codes "UNTRACKED") states ≡ (untracked || (not changed && not tracked)))
    × (member (codes "TRACKED_CLEAN") states ≡ (not changed && tracked))

states_or-AreStates :
    (states : List Text) (blob : Option Text) (a b c : Bool)
    → Adds states a b c
    → AreStates (states_or states blob) a b c (is_full blob)
unfolding member
states_or-AreStates [] none a b c h =
    ground (arith, h.nothing, h.untracked_listed, h.staged_listed, h.unstaged_listed)
states_or-AreStates [] (some []) a b c h =
    ground (arith, h.nothing, h.untracked_listed, h.staged_listed, h.unstaged_listed)
states_or-AreStates [] (some (x ∷ t)) a b c h =
    ground (arith, h.nothing, h.untracked_listed, h.staged_listed, h.unstaged_listed)
states_or-AreStates (s ∷ states) blob a b c h =
    rw (h.untracked_listed, h.staged_listed, h.unstaged_listed, h.clean_unlisted)
      (changed a b c (is_full blob) h.nothing)
  where
    changed :
        (a b c t : Bool)
        → false ≡ not (a || b || c)
        → (b ≡ b)
          × (c ≡ c)
          × (a ≡ (a || (not (a || b || c) && not t)))
          × (false ≡ (not (a || b || c) && t))
    changed a b c t e = rw (← e) (ground arith)

-- The states of a path, as they are listed.
pub sorted_states-AreStates :
    (status stage : List Text)
    → All (λ line. IsStageLine (unicode_words line)) stage
    → AreStates
        (sorted_set (states_or (states_of status) (index_blob stage)))
        (any shows_untracked status)
        (any shows_staged status)
        (any shows_unstaged status)
        (is_tracked stage)
sorted_states-AreStates status stage h =
    let chosen = states_or (states_of status) (index_blob stage) in
    let (a, b, c, d) =
      states_or-AreStates (states_of status) (index_blob stage) _ _ _ (states_of-Adds status) in
    let tracked = (index_blob-tracked stage h).0 in
    (
      member-sorted_set (codes "STAGED") chosen ∙ a,
      member-sorted_set (codes "UNSTAGED") chosen ∙ b,
      rw (← tracked) (member-sorted_set (codes "UNTRACKED") chosen ∙ c),
      rw (← tracked) (member-sorted_set (codes "TRACKED_CLEAN") chosen ∙ d),
    )

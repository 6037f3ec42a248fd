-- ===== src/Reader/Issues.antt =====
-- `_add_issue` and `_state_for_failure` of Code/Tools/Linux_Cgroup_Reader.py.
use sql_server_analyze.Common.{
  ◌≡◌, ◌⊎◌, inl, inr, refl, ◌&&◌, ◌||◌, Bool, true, false, List, [], ◌∷◌, ◌++◌, Option, arith,
  if◌then◌else◌, Bool-cases, any,
}
use sql_server_analyze.Text.{
  option_text_eq, option_text_eq_refl, Text, codes, text_eq, text_eq_refl, member,
}

-- An issue; the ordinal is there only for a source.
pub record Issue : Type 0 where
  pub scope : Text
  pub reason_code : Text
  pub source_ordinal : Option Text

abbrev pub issue_eq : Issue → Issue → Bool
issue_eq i j =
    text_eq i.scope j.scope
    && text_eq i.reason_code j.reason_code
    && option_text_eq i.source_ordinal j.source_ordinal

-- `if issue not in issues: issues.append(issue)`
unfoldable pub add_issue : List Issue → Issue → List Issue
add_issue issues issue = if any (issue_eq issue) issues then issues else issues ++ issue ∷ []

abbrev pub same_states : List Text
same_states =
    codes "MISSING"
    ∷ codes "PERMISSION_DENIED"
    ∷ codes "READ_ERROR"
    ∷ codes "CONTEXT_UNBOUND"
    ∷ codes "LIMIT_REACHED"
    ∷ codes "DEADLINE_REACHED"
    ∷ []

abbrev pub unbound_codes : List Text
unbound_codes =
    codes "SYMLINK_REJECTED"
    ∷ codes "CROSS_MOUNT_REJECTED"
    ∷ codes "FILESYSTEM_MISMATCH"
    ∷ codes "MOUNT_CHANGED"
    ∷ codes "DIRECTORY_CHANGED"
    ∷ codes "NAMESPACE_MISMATCH"
    ∷ codes "PIDFD_PROCFS_MISMATCH"
    ∷ codes "PID_EXITED"
    ∷ codes "STARTTIME_CHANGED"
    ∷ []

unfoldable pub state_for_failure : Text → Bool → Text
unfolding member
state_for_failure failure context =
    if member failure same_states
    then failure
    else if text_eq failure (codes "RESOURCE_MISSING")
    then codes "MISSING"
    else if member failure unbound_codes
    then codes "CONTEXT_UNBOUND"
    else if context
    then codes "CONTEXT_UNBOUND"
    else codes "READ_ERROR"

-- No two issues of the list are equal.
abbrev pub NoRepeats : List Issue → Type 0
NoRepeats [] = Unit
NoRepeats (i ∷ is) = (any (λ j. issue_eq j i) is ≡ false) × NoRepeats is

issue_eq_refl : (i : Issue) → issue_eq i i ≡ true
issue_eq_refl i =
    rw (text_eq_refl i.scope, text_eq_refl i.reason_code) (option_text_eq_refl i.source_ordinal)

any-append : (p : Issue → Bool) (xs ys : List Issue) → any p (xs ++ ys) ≡ (any p xs || any p ys)
any-append p [] ys = refl
any-append p (x ∷ xs) ys = ground (arith, any-append p xs ys)

NoRepeats-append :
    (is : List Issue) (i : Issue)
    → any (issue_eq i) is ≡ false
    → NoRepeats is
    → NoRepeats (is ++ i ∷ [])
NoRepeats-append [] i h n = (refl, tt)
NoRepeats-append (j ∷ is) i h (fresh, n) = (
  rw (any-append (λ k. issue_eq k j) is (i ∷ [])) (ground arith),
  NoRepeats-append is i (ground arith) n,
)

-- An issue is added once: the list keeps its order and has no repeats, and holds what it held and
-- the issue.
pub record IsAdded (issues : List Issue) (issue : Issue) (result : List Issue) : Type 0 where
  pub no_repeats : NoRepeats result
  pub held : any (issue_eq issue) result ≡ true
  pub extended :
      (result ≡ issues) ⊎ ((result ≡ issues ++ issue ∷ []) × (any (issue_eq issue) issues ≡ false))

-- Adding an issue to a list without repeats keeps it so; the issue is in the result, which is the
-- list itself or the list with the issue, if it was not there, at its end.
pub add_issue-IsAdded :
    (issues : List Issue) (issue : Issue)
    → NoRepeats issues
    → IsAdded issues issue (add_issue issues issue)
unfolding add_issue
add_issue-IsAdded issues issue n = elim (Bool-cases (any (issue_eq issue) issues)) [
  | inl t ↦ rw t (record { no_repeats = n; held = t; extended = inl refl })
  | inr t ↦ rw t (record {
    no_repeats = NoRepeats-append issues issue t n;
    held = rw (any-append (issue_eq issue) issues (issue ∷ []), issue_eq_refl issue) (ground arith);
    extended = inr (refl, t);
  })
]

fallback :
    (missing unbound context : Bool)
    → member
        (if missing
          then codes "MISSING"
          else if unbound
          then codes "CONTEXT_UNBOUND"
          else if context
          then codes "CONTEXT_UNBOUND"
          else codes "READ_ERROR")
        same_states
      ≡ true
unfolding member
fallback true unbound context = refl
fallback false true context = refl
fallback false false true = refl
fallback false false false = refl

-- A failure of any code, known or not, is reported as one of six states.
pub state_for_failure-member :
    (failure : Text) (context : Bool)
    → member (state_for_failure failure context) same_states ≡ true
unfolding state_for_failure
state_for_failure-member failure context = elim (Bool-cases (member failure same_states)) [
  | inl t ↦ rw t t
  | inr t ↦
      rw t (
        fallback (text_eq failure (codes "RESOURCE_MISSING")) (member failure unbound_codes)
          context)
]

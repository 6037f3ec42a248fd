-- ===== src/Native/Reading/Bounds.antt =====
-- `read_bounded` always returns, within the limits of the file and of the budget.
use sql_server_analyze.Common.{
  ℕ, zero, suc, ◌+◌, ◌-◌, ◌≤◌, ◌<◌, min, ◌≡◌, ◌≢◌, inl, inr, refl, sym, ◌||◌, List, [], ◌∷◌, ◌++◌,
  append-nil, append_assoc, Option, none, some, arith, ◌==◌, ltb, leb, Bool-cases, length,
  length-append,
}
use sql_server_analyze.Native.Errno.{ReadCode, errno_code-is_error}
use sql_server_analyze.Native.Budget.{
  ReadBudget, remaining_bytes, admission_state, IsValid, account-some, admission_state-refuses,
}
use sql_server_analyze.Native.Reading.{
  Bytes, SourceKind, file_limit, is_procfs, ReadOutcome, chunk, os_error, not_bytes, Round,
  ReadObservation, failed, join_chunks, RoundResult, returned, raised, next, errno_reason,
  after_account, after_read, admitted, by_admission, round, ReadResult, observed, read_loop,
  read_bounded,
}

-- What an observation tells: the count and the bytes agree, only a completed read has bytes, and
-- every other one has its state as the reason.
pub record IsConsistent (kind : SourceKind) (o : ReadObservation) : Type 0 where
  pub within : o.byte_count ≤ file_limit kind
  pub completed :
      o.read_state ≡ ReadCode.available
      → (bytes : Bytes) × (o.raw_value ≡ some bytes)
        × (length bytes ≡ o.byte_count)
        × (o.byte_count < file_limit kind)
  pub refused :
      o.read_state ≢ ReadCode.available → (o.raw_value ≡ none) × (o.reason_code ≡ some o.read_state)

-- A read that started with the budget `b` and left `b'`.
pub record IsBoundedRead (kind : SourceKind) (b : ReadBudget) (o : ReadObservation)
    (b' : ReadBudget) : Type 0 where
  pub consistent : IsConsistent kind o
  pub valid : IsValid b'
  pub accounted : b'.bytes_read ≡ b.bytes_read + o.byte_count
  pub same_limit : b'.byte_limit ≡ b.byte_limit
  pub same_deadline : b'.deadline ≡ b.deadline

failed-IsConsistent :
    (kind : SourceKind) (code : ReadCode) (count : ℕ) (errno : Option ℕ)
    → code ≢ ReadCode.available
    → count ≤ file_limit kind
    → IsConsistent kind (failed code count errno)
failed-IsConsistent kind code count errno n h = record {
  within = h;
  completed = λ e. absurd (n e);
  refused = λ _. (refl, refl);
}

-- The loop's variables in the middle of a read that started with the budget `b₀`.
record IsReading (kind : SourceKind) (b₀ b : ReadBudget) (count : ℕ) (chunks : List Bytes)
    : Type 0 where
  valid : IsValid b
  accounted : b.bytes_read ≡ b₀.bytes_read + count
  same_limit : b.byte_limit ≡ b₀.byte_limit
  same_deadline : b.deadline ≡ b₀.deadline
  below : count < file_limit kind
  collected : length (join_chunks chunks) ≡ count

join_chunks-append :
    (cs : List Bytes) (c : Bytes) → join_chunks (cs ++ c ∷ []) ≡ join_chunks cs ++ c
unfolding join_chunks
join_chunks-append [] c = append-nil c
join_chunks-append (d ∷ cs) c =
    rw (join_chunks-append cs c) (sym (append_assoc d (join_chunks cs) c))

module _ (kind : SourceKind) (b₀ : ReadBudget) where
  -- A round returns within the bounds, or goes on with more bytes.
  abbrev Good : ℕ → RoundResult → Type 0
  Good count (returned o b') = IsBoundedRead kind b₀ o b'
  Good count raised = ⊥
  Good count (next b' count' chunks') = IsReading kind b₀ b' count' chunks' × (count < count')

  module _ (b : ReadBudget) (count : ℕ) (chunks : List Bytes)
      (s : IsReading kind b₀ b count chunks) where
    stops :
        (code : ReadCode) (errno : Option ℕ)
        → code ≢ ReadCode.available
        → Good count (returned (failed code count errno) b)
    stops code errno n = record {
      consistent = failed-IsConsistent kind code count errno n (omega (arith, s.below));
      valid = s.valid;
      accounted = s.accounted;
      same_limit = s.same_limit;
      same_deadline = s.same_deadline;
    }

    abbrev grown : Bytes → ReadBudget
    grown c = record b { bytes_read = b.bytes_read + length c }

    account-Good :
        (c : Bytes)
        → 0 < length c
        → length c ≤ file_limit kind - count
        → length c ≤ remaining_bytes b
        → Good count (after_account kind (some (grown c)) (count + length c) (chunks ++ c ∷ []))
    unfolding after_account remaining_bytes
    account-Good c pos fits room =
        let v : IsValid (grown c) = record {
          within = omega (arith, s.valid.within);
          allowed = s.valid.allowed;
        } in
        elim (Bool-cases
          ((count + length c == file_limit kind) || (remaining_bytes (grown c) == 0))) [
            | inl t ↦ rw t (record {
              consistent =
                  failed-IsConsistent kind ReadCode.limit_reached (count + length c) none (λ e. cc)
                    (omega (arith, s.below));
              valid = v;
              accounted = omega (arith, s.accounted);
              same_limit = s.same_limit;
              same_deadline = s.same_deadline;
            })
            | inr t ↦ rw t (
              record {
                valid = v;
                accounted = omega (arith, s.accounted);
                same_limit = s.same_limit;
                same_deadline = s.same_deadline;
                below = ground (arith, s.below);
                collected =
                    rw (join_chunks-append chunks c, length-append (join_chunks chunks) c)
                      (omega (arith, s.collected));
              },
              omega arith,
            )
          ]

    errno-refuses : (errno : Option ℕ) → errno_reason kind errno ≢ ReadCode.available
    errno-refuses none e = cc
    errno-refuses (some n) e = (errno_code-is_error n (is_procfs kind)).0 e

    completes : Good count (
        returned
          (record {
            read_state = ReadCode.available;
            byte_count = count;
            raw_value = some (join_chunks chunks);
            reason_code = none;
            native_errno = none;
          })
          b)
    completes = record {
      consistent = record {
        within = omega (arith, s.below);
        completed = λ _. (join_chunks chunks, refl, s.collected, s.below);
        refused = λ n. absurd (n refl);
      };
      valid = s.valid;
      accounted = s.accounted;
      same_limit = s.same_limit;
      same_deadline = s.same_deadline;
    }

    read-Good :
        (amount : ℕ) (out : ReadOutcome)
        → amount ≤ file_limit kind - count
        → amount ≤ remaining_bytes b
        → Good count (after_read kind amount out b count chunks)
    unfolding after_read
    read-Good amount (os_error errno) h k =
        stops (errno_reason kind errno) errno (errno-refuses errno)
    read-Good amount not_bytes h k = stops ReadCode.read_error none (λ e. cc)
    read-Good amount (chunk []) h k = elim (Bool-cases (ltb amount 0)) [
      | inl t ↦ absurd (ground arith)
      | inr t ↦ rw t completes
    ]
    read-Good amount (chunk (x ∷ c)) h k = elim (Bool-cases (ltb amount (length (x ∷ c)))) [
      | inl t ↦ rw t (stops ReadCode.read_error none (λ e. cc))
      | inr t ↦
          let le : length (x ∷ c) ≤ amount = ground arith in
          rw (t, account-some b (length (x ∷ c)) (omega arith))
            (account-Good (x ∷ c) (omega arith) (omega arith) (omega arith))
    ]

    admitted-Good : (r : Round) → Good count (admitted kind r b count chunks)
    unfolding admitted
    admitted-Good r =
        let amount = min (file_limit kind - count) (remaining_bytes b) in
        elim (Bool-cases (leb b.deadline r.first_clock)) [
          | inl t ↦ rw t (stops ReadCode.deadline_reached none (λ e. cc))
          | inr t ↦ elim (Bool-cases (amount == 0)) [
            | inl z ↦ rw (t, z) (stops ReadCode.limit_reached none (λ e. cc))
            | inr z ↦ elim (Bool-cases (leb b.deadline r.second_clock)) [
              | inl u ↦ rw (t, z, u) (stops ReadCode.deadline_reached none (λ e. cc))
              | inr u ↦
                  rw (t, z, u) (read-Good amount (r.reader amount) (omega arith) (omega arith))
            ]
          ]
        ]

    admission-refuses :
        (now : ℕ) (code : ReadCode) → admission_state b now ≡ some code → code ≢ ReadCode.available
    admission-refuses now code e = admission_state-refuses b now code e

    round-Good : (r : Round) → Good count (round kind r b count chunks)
    unfolding round
    round-Good r = go (admission_state b r.admission_clock) refl
      where
        go :
            (a : Option ReadCode)
            → admission_state b r.admission_clock ≡ a
            → Good count (by_admission kind a r b count chunks)
        go none e = admitted-Good r
        go (some code) e = stops code none (admission-refuses r.admission_clock code e)

module _ (kind : SourceKind) (rounds : ℕ → Round) (b₀ : ReadBudget) where
  -- The loop ends in an observation within the bounds.
  Ends : ReadResult → Type 0
  Ends r =
      (o : ReadObservation) × (b' : ReadBudget) × (r ≡ observed o b') × IsBoundedRead kind b₀ o b'

  loop-Ends :
      (fuel k : ℕ) (b : ReadBudget) (count : ℕ) (chunks : List Bytes)
      → IsReading kind b₀ b count chunks
      → file_limit kind - count < fuel
      → Ends (read_loop kind rounds fuel k b count chunks)
  unfolding read_loop Ends
  loop-Ends zero k b count chunks s h = elim h [ ]
  loop-Ends (suc fuel) k b count chunks s h =
      go (round kind (rounds k) b count chunks) refl
        (round-Good kind b₀ b count chunks s (rounds k)) (loop-Ends fuel (suc k))
    where
      go :
          (r : RoundResult)
          → round kind (rounds k) b count chunks ≡ r
          → Good kind b₀ count (round kind (rounds k) b count chunks)
          → ((b' : ReadBudget) (count' : ℕ) (chunks' : List Bytes)
              → IsReading kind b₀ b' count' chunks'
              → file_limit kind - count' < fuel
              → Ends (read_loop kind rounds fuel (suc k) b' count' chunks'))
          → Ends (read_loop kind rounds (suc fuel) k b count chunks)
      go (returned o b') e g ih = (o, b', rw (e, read_loop) refl, rw e at g)
      go raised e g ih = absurd (rw e at g)
      go (next b' count' chunks') e g ih =
          let good : IsReading kind b₀ b' count' chunks' × (count < count') = rw e at g in
          let (o, b'', same, bounded) =
            ih b' count' chunks' good.0 (omega (arith, good.0.below, s.below)) in
          (o, b'', rw (e, read_loop) same, bounded)

file_limit-pos : (kind : SourceKind) → 0 < file_limit kind
file_limit-pos SourceKind.resource = omega arith
file_limit-pos SourceKind.procfs = omega arith

-- From a valid budget a bounded read always returns an observation: it never raises, and never
-- loops on. The observation is consistent, the budget stays valid, and has accounted for exactly
-- the bytes that were counted, whatever the reader and the clocks do.
pub read_bounded_total :
    (kind : SourceKind) (rounds : ℕ → Round) (b : ReadBudget)
    → IsValid b
    → (o : ReadObservation) × (b' : ReadBudget) × (read_bounded kind rounds b ≡ observed o b')
      × IsBoundedRead kind b o b'
unfolding read_bounded Ends
read_bounded_total kind rounds b v =
    loop-Ends kind rounds b (suc (file_limit kind)) 0 b 0 []
      (record {
        valid = v;
        accounted = omega arith;
        same_limit = refl;
        same_deadline = refl;
        below = file_limit-pos kind;
        collected = unfold join_chunks in refl;
      })
      (omega arith)

-- ===== src/Native/Reading/Contents.antt =====
-- The bytes of a completed read are those that the reader gave.
use sql_server_analyze.Common.{
  ℕ, zero, suc, ◌+◌, ◌-◌, min, ◌≡◌, ◌≢◌, inl, inr, refl, sym, ap, ◌∙◌, ◌||◌, List, [], ◌∷◌, ◌++◌,
  append-nil, append_assoc, Option, none, some, arith, ◌==◌, ltb, leb, Bool-cases, length,
}
use sql_server_analyze.Native.Errno.{ReadCode, errno_code-is_error}
use sql_server_analyze.Native.Budget.{
  ReadBudget, remaining_bytes, admission_state, account, admission_state-refuses,
}
use sql_server_analyze.Native.Reading.{
  Bytes, SourceKind, file_limit, is_procfs, ReadOutcome, chunk, os_error, not_bytes, Round,
  ReadObservation, failed, join_chunks, RoundResult, returned, raised, next, errno_reason,
  after_account, after_read, admitted, by_admission, round, observed, invariant_failure, read_loop,
  read_bounded,
}

-- From round `k` on, the reader gives these chunks, one in a round, and then the end of the file.
pub data Gives (rounds : ℕ → Round) : ℕ → List Bytes → Type 0 where
  gives_end : {k : ℕ} (amount : ℕ) → (rounds k).reader amount ≡ chunk [] → Gives rounds k []
  gives_chunk :
      {k : ℕ} {c : Bytes} {cs : List Bytes} (amount : ℕ)
      → (rounds k).reader amount ≡ chunk c
      → Gives rounds (suc k) cs
      → Gives rounds k (c ∷ cs)

module _ (kind : SourceKind) (r : Round) (chunks : List Bytes) where
  -- A completed read has met the end of the file, and a round that goes on has one more chunk.
  abbrev Faithful : RoundResult → Type 0
  Faithful (returned o b) =
      o.read_state ≡ ReadCode.available
      → ((amount : ℕ) × (r.reader amount ≡ chunk [])) × (o.raw_value ≡ some (join_chunks chunks))
  Faithful raised = Unit
  Faithful (next b count chunks') =
      (amount : ℕ) × (c : Bytes) × (r.reader amount ≡ chunk c) × (chunks' ≡ chunks ++ c ∷ [])

  refuses :
      (code : ReadCode) (count : ℕ) (errno : Option ℕ) (b : ReadBudget)
      → code ≢ ReadCode.available
      → Faithful (returned (failed code count errno) b)
  refuses code count errno b n = λ e. absurd (n e)

  account-Faithful :
      (amount : ℕ) (c : Bytes) (m : Option ReadBudget) (count : ℕ)
      → r.reader amount ≡ chunk c
      → Faithful (after_account kind m count (chunks ++ c ∷ []))
  unfolding after_account
  account-Faithful amount c none count e = tt
  account-Faithful amount c (some b) count e =
      elim (Bool-cases ((count == file_limit kind) || (remaining_bytes b == 0))) [
        | inl t ↦ rw t (refuses ReadCode.limit_reached count none b (λ f. cc))
        | inr t ↦ rw t (amount, c, e, refl)
      ]

  errno-refuses : (errno : Option ℕ) → errno_reason kind errno ≢ ReadCode.available
  errno-refuses none e = cc
  errno-refuses (some n) e = (errno_code-is_error n (is_procfs kind)).0 e

  read-Faithful :
      (amount : ℕ) (out : ReadOutcome) (b : ReadBudget) (count : ℕ)
      → r.reader amount ≡ out
      → Faithful (after_read kind amount out b count chunks)
  unfolding after_read
  read-Faithful amount (os_error errno) b count e =
      refuses (errno_reason kind errno) count errno b (errno-refuses errno)
  read-Faithful amount not_bytes b count e = refuses ReadCode.read_error count none b (λ f. cc)
  read-Faithful amount (chunk []) b count e = elim (Bool-cases (ltb amount 0)) [
    | inl t ↦ absurd (ground arith)
    | inr t ↦ rw t (λ _. ((amount, e), refl))
  ]
  read-Faithful amount (chunk (x ∷ c)) b count e = elim (Bool-cases (ltb amount (length (x ∷ c)))) [
    | inl t ↦ rw t (refuses ReadCode.read_error count none b (λ f. cc))
    | inr t ↦
        rw t
          (account-Faithful amount (x ∷ c) (account b (length (x ∷ c))) (count + length (x ∷ c)) e)
  ]

  admitted-Faithful : (b : ReadBudget) (count : ℕ) → Faithful (admitted kind r b count chunks)
  unfolding admitted
  admitted-Faithful b count =
      let amount = min (file_limit kind - count) (remaining_bytes b) in
      elim (Bool-cases (leb b.deadline r.first_clock)) [
        | inl t ↦ rw t (refuses ReadCode.deadline_reached count none b (λ f. cc))
        | inr t ↦ elim (Bool-cases (amount == 0)) [
          | inl z ↦ rw (t, z) (refuses ReadCode.limit_reached count none b (λ f. cc))
          | inr z ↦ elim (Bool-cases (leb b.deadline r.second_clock)) [
            | inl u ↦ rw (t, z, u) (refuses ReadCode.deadline_reached count none b (λ f. cc))
            | inr u ↦ rw (t, z, u) (read-Faithful amount (r.reader amount) b count refl)
          ]
        ]
      ]

  round-Faithful : (b : ReadBudget) (count : ℕ) → Faithful (round kind r b count chunks)
  unfolding round
  round-Faithful b count = go (admission_state b r.admission_clock) refl
    where
      go :
          (a : Option ReadCode)
          → admission_state b r.admission_clock ≡ a
          → Faithful (by_admission kind a r b count chunks)
      go none e = admitted-Faithful b count
      go (some code) e =
          refuses code count none b (admission_state-refuses b r.admission_clock code e)

-- What the chunks read so far and those still to come make.
abbrev Completes : (ℕ → Round) → ℕ → List Bytes → ReadObservation → Type 0
Completes rounds k chunks o =
    (cs : List Bytes) × Gives rounds k cs × (o.raw_value ≡ some (join_chunks (chunks ++ cs)))

loop-Completes :
    (kind : SourceKind) (rounds : ℕ → Round) (fuel k : ℕ) (b : ReadBudget) (count : ℕ)
    (chunks : List Bytes) (o : ReadObservation) (b' : ReadBudget)
    → read_loop kind rounds fuel k b count chunks ≡ observed o b'
    → o.read_state ≡ ReadCode.available
    → Completes rounds k chunks o
unfolding read_loop
loop-Completes kind rounds zero k b count chunks o b' e a = cc
loop-Completes kind rounds (suc fuel) k b count chunks o b' e a =
    go (round kind (rounds k) b count chunks) (round-Faithful kind (rounds k) chunks b count) e
      (λ b₁ count' chunks'. loop-Completes kind rounds fuel (suc k) b₁ count' chunks' o b')
  where
    go :
        (res : RoundResult)
        → Faithful kind (rounds k) chunks res
        → elim res [
          | returned o b' ↦ observed o b'
          | raised ↦ invariant_failure
          | next b' count' chunks' ↦ read_loop kind rounds fuel (suc k) b' count' chunks'
        ]
          ≡ observed o b'
        → ((b₁ : ReadBudget) (count' : ℕ) (chunks' : List Bytes)
            → read_loop kind rounds fuel (suc k) b₁ count' chunks' ≡ observed o b'
            → o.read_state ≡ ReadCode.available
            → Completes rounds (suc k) chunks' o)
        → Completes rounds k chunks o
    go (returned o₁ b₁) f e ih =
        let same : o₁ ≡ o = cc in
        let ((amount, ends), raw) = f (ap (λ (x : ReadObservation). x.read_state) same ∙ a) in
        (
          [],
          gives_end amount ends,
          ap (λ (x : ReadObservation). x.raw_value) (sym same)
              ∙ raw
              ∙ ap (λ (cs : List Bytes). some (join_chunks cs)) (sym (append-nil chunks)),
        )
    go raised f e ih = cc
    go (next b₁ count' chunks') (amount, c, given, grown) e ih =
        let (cs, more, raw) = ih b₁ count' chunks' e a in
        (
          c ∷ cs,
          gives_chunk amount given more,
          raw
              ∙ ap (λ (ds : List Bytes). some (join_chunks ds))
                  (ap (λ (ds : List Bytes). ds ++ cs) grown ∙ append_assoc chunks (c ∷ []) cs),
        )

-- A completed read holds, in order, the chunks that the reader gave in the rounds from the first
-- one on, up to a round in which the reader gave the end of the file.
pub read_bounded-Completes :
    (kind : SourceKind) (rounds : ℕ → Round) (b : ReadBudget) (o : ReadObservation)
    (b' : ReadBudget)
    → read_bounded kind rounds b ≡ observed o b'
    → o.read_state ≡ ReadCode.available
    → (cs : List Bytes) × Gives rounds 0 cs × (o.raw_value ≡ some (join_chunks cs))
unfolding read_bounded
read_bounded-Completes kind rounds b o b' e a =
    loop-Completes kind rounds (suc (file_limit kind)) 0 b 0 [] o b' e a

-- ===== src/Native/Reading.antt =====
-- `read_bounded` of Code/Tools/Linux_Cgroup_Native.py. The reader and the two clocks are
-- parameters: what they give in each round of the loop.
pub mod Bounds
pub mod Contents
use sql_server_analyze.Common.{
  ℕ, zero, suc, ◌+◌, ◌-◌, ◌*◌, ◌/◌, ◌%◌, ◌^◌, ◌≤◌, ◌<◌, min, max, String, ◌≡◌, ◌≢◌, ◌↔◌, ◌⊎◌, inl,
  inr, refl, sym, ap, ◌∙◌, subst, ◌&&◌, ◌||◌, not, Bool, true, false, List, [], ◌∷◌, ◌++◌, map,
  reverse, append-nil, append_assoc, Option, none, some, arith, ◌==◌, ltb, leb, if◌then◌else◌,
  Bool-cases, &&_left, &&_right, ==→eq, ==_refl, pos→nonzero, nonzero→pos, ltb→lt, lt→ltb, leb→le,
  le→leb, length, length-append, get_elem?, take, drop, is_empty, any, all, select, All, Some,
  All-append, Some-append, Some-reverse, All-reverse, ⊎-map, ⊎-map_left, ⊎-comm, ⊎-assoc, ⊎-unassoc,
  ⊎-rotate,
}
use sql_server_analyze.Native.Errno.{ReadCode, errno_code}
use sql_server_analyze.Native.Budget.{ReadBudget, remaining_bytes, admission_state, account}

abbrev pub Bytes : Type 0
Bytes = List ℕ

pub data SourceKind : Type 0 where
  resource procfs : SourceKind

-- `RESOURCE_READ_LIMIT` and `PROCFS_READ_LIMIT`
abbrev pub file_limit : SourceKind → ℕ
file_limit SourceKind.resource = 64 * 1024
file_limit SourceKind.procfs = 512 * 1024

abbrev pub is_procfs : SourceKind → Bool
is_procfs SourceKind.resource = false
is_procfs SourceKind.procfs = true

-- What `reader(fd, amount)` gives: bytes, `OSError` with its number if it has one, or no bytes.
pub data ReadOutcome : Type 0 where
  chunk : Bytes → ReadOutcome
  os_error : Option ℕ → ReadOutcome
  not_bytes : ReadOutcome

-- What a round of the loop meets: the clock of the budget, the clock of the call twice, the reader.
pub record Round : Type 0 where
  pub admission_clock : ℕ
  pub first_clock : ℕ
  pub second_clock : ℕ
  pub reader : ℕ → ReadOutcome

-- `ReadObservation`; the source writes the two numbers in decimal.
pub record ReadObservation : Type 0 where
  pub read_state : ReadCode
  pub byte_count : ℕ
  pub raw_value : Option Bytes
  pub reason_code : Option ReadCode
  pub native_errno : Option ℕ

abbrev pub failed : ReadCode → ℕ → Option ℕ → ReadObservation
failed code count errno = record {
  read_state = code;
  byte_count = count;
  raw_value = none;
  reason_code = some code;
  native_errno = errno;
}

-- `b"".join(chunks)`
pub join_chunks : List Bytes → Bytes
join_chunks [] = []
join_chunks (c ∷ cs) = c ++ join_chunks cs

-- A round returns, raises `BYTE_BUDGET_INVARIANT`, or goes on with new values of the variables.
pub data RoundResult : Type 0 where
  returned : ReadObservation → ReadBudget → RoundResult
  raised : RoundResult
  next : ReadBudget → ℕ → List Bytes → RoundResult

abbrev errno_reason : SourceKind → Option ℕ → ReadCode
errno_reason kind none = ReadCode.read_error
errno_reason kind (some errno) = errno_code errno (is_procfs kind)

-- Behind `budget.account`.
pub after_account : SourceKind → Option ReadBudget → ℕ → List Bytes → RoundResult
after_account kind none count chunks = raised
after_account kind (some b) count chunks =
    if (count == file_limit kind) || (remaining_bytes b == 0)
    then returned (failed ReadCode.limit_reached count none) b
    else next b count chunks

-- Behind the call of the reader.
pub after_read : SourceKind → ℕ → ReadOutcome → ReadBudget → ℕ → List Bytes → RoundResult
unfolding join_chunks after_account
after_read kind amount (os_error errno) b count chunks =
    returned (failed (errno_reason kind errno) count errno) b
after_read kind amount not_bytes b count chunks = returned (failed ReadCode.read_error count none) b
after_read kind amount (chunk c) b count chunks =
    if ltb amount (length c)
    then returned (failed ReadCode.read_error count none) b
    else if is_empty c
    then returned
        (record {
          read_state = ReadCode.available;
          byte_count = count;
          raw_value = some (join_chunks chunks);
          reason_code = none;
          native_errno = none;
        })
        b
    else after_account kind (account b (length c)) (count + length c) (chunks ++ c ∷ [])

-- The reads that the budget admits: behind `budget.admission_state()`.
pub admitted : SourceKind → Round → ReadBudget → ℕ → List Bytes → RoundResult
unfolding after_read
admitted kind r b count chunks =
    let amount = min (file_limit kind - count) (remaining_bytes b) in
    if leb b.deadline r.first_clock
    then returned (failed ReadCode.deadline_reached count none) b
    else if amount == 0
    then returned (failed ReadCode.limit_reached count none) b
    else if leb b.deadline r.second_clock
    then returned (failed ReadCode.deadline_reached count none) b
    else after_read kind amount (r.reader amount) b count chunks

abbrev by_admission :
    SourceKind → Option ReadCode → Round → ReadBudget → ℕ → List Bytes → RoundResult
by_admission kind (some code) r b count chunks = returned (failed code count none) b
by_admission kind none r b count chunks = admitted kind r b count chunks

-- One round of `while True`.
pub round : SourceKind → Round → ReadBudget → ℕ → List Bytes → RoundResult
unfolding admitted
round kind r b count chunks =
    by_admission kind (admission_state b r.admission_clock) r b count chunks

pub data ReadResult : Type 0 where
  observed : ReadObservation → ReadBudget → ReadResult
  invariant_failure : ReadResult
  out_of_fuel : ReadResult

-- The loop, with fuel; round `k` meets `rounds k`.
pub read_loop : SourceKind → (ℕ → Round) → ℕ → ℕ → ReadBudget → ℕ → List Bytes → ReadResult
unfolding round
read_loop kind rounds zero k b count chunks = out_of_fuel
read_loop kind rounds (suc fuel) k b count chunks = elim (round kind (rounds k) b count chunks) [
  | returned o b' ↦ observed o b'
  | raised ↦ invariant_failure
  | next b' count' chunks' ↦ read_loop kind rounds fuel (suc k) b' count' chunks'
]

-- `read_bounded`; a round that goes on has read a byte, so the fuel covers the whole limit.
unfoldable pub read_bounded : SourceKind → (ℕ → Round) → ReadBudget → ReadResult
unfolding read_loop
read_bounded kind rounds b = read_loop kind rounds (suc (file_limit kind)) 0 b 0 []

-- ===== src/Native/Budget.antt =====
-- `ReadBudget` of Code/Tools/Linux_Cgroup_Native.py: bytes and a deadline shared by all reads. The
-- clock is a parameter; its readings are numbers.
use sql_server_analyze.Common.{
  ℕ, ◌+◌, ◌-◌, ◌*◌, ◌≤◌, ◌≡◌, ◌≢◌, ◌||◌, Option, none, some, arith, ◌==◌, ltb, leb, if◌then◌else◌,
}
use sql_server_analyze.Native.Errno.{ReadCode}

-- `TOTAL_READ_LIMIT`
abbrev pub total_read_limit : ℕ
total_read_limit = 8 * 1024 * 1024

pub record ReadBudget : Type 0 where
  pub byte_limit : ℕ
  pub deadline : ℕ
  pub bytes_read : ℕ

-- `ReadBudget(byte_limit, deadline_seconds)` at the clock reading `now`; `none` is `ValueError`. The
-- largest `deadline_seconds` is a parameter, in the ticks of the clock.
pub new_budget : (most_ticks : ℕ) → ℕ → ℕ → (now : ℕ) → Option ReadBudget
new_budget most_ticks byte_limit ticks now =
    if ltb total_read_limit byte_limit || ltb most_ticks ticks
    then none
    else some (record { byte_limit = byte_limit; deadline = now + ticks; bytes_read = 0 })

-- `remaining_bytes`
unfoldable pub remaining_bytes : ReadBudget → ℕ
remaining_bytes b = b.byte_limit - b.bytes_read

-- `admission_state`, at the clock reading `now`.
unfoldable pub admission_state : ReadBudget → ℕ → Option ReadCode
unfolding remaining_bytes
admission_state b now =
    if leb b.deadline now
    then some ReadCode.deadline_reached
    else if remaining_bytes b == 0
    then some ReadCode.limit_reached
    else none

-- `account`; `none` is the failure `BYTE_BUDGET_INVARIANT`.
unfoldable pub account : ReadBudget → ℕ → Option ReadBudget
unfolding remaining_bytes
account b count =
    if ltb (remaining_bytes b) count
    then none
    else some (record b { bytes_read = b.bytes_read + count })

-- No more than the limit has been read, and the limit is allowed.
pub record IsValid (b : ReadBudget) : Type 0 where
  pub within : b.bytes_read ≤ b.byte_limit
  pub allowed : b.byte_limit ≤ total_read_limit

pub new_budget-IsValid :
    (most_ticks byte_limit ticks now : ℕ) (b : ReadBudget)
    → new_budget most_ticks byte_limit ticks now ≡ some b
    → IsValid b
unfolding new_budget
new_budget-IsValid most_ticks byte_limit ticks now b e = ground arith

pub account-IsValid :
    (b : ReadBudget) (count : ℕ) (b' : ReadBudget)
    → IsValid b
    → account b count ≡ some b'
    → IsValid b'
unfolding account
account-IsValid b count b' v e = ground arith

-- Accounting fails only beyond the limit.
pub account-some :
    (b : ReadBudget) (count : ℕ)
    → count ≤ remaining_bytes b
    → account b count ≡ some (record b { bytes_read = b.bytes_read + count })
unfolding account
account-some b count h = ground arith

-- What the budget reports is a limit or a deadline.
pub admission_state-refuses :
    (b : ReadBudget) (now : ℕ) (code : ReadCode)
    → admission_state b now ≡ some code
    → code ≢ ReadCode.available
unfolding admission_state
admission_state-refuses b now code e = ground arith

-- ===== src/Native/Tests.antt =====
-- The bounded read and the descriptor on concrete runs, and instances of the theorems.
use sql_server_analyze.Common.{
  List, ℕ, ◌≤◌, ◌≡◌, refl, false, [], ◌∷◌, none, some, arith, ◌==◌, if◌then◌else◌,
}
use sql_server_analyze.Native.Errno.{ReadCode}
use sql_server_analyze.Native.Budget.{ReadBudget, remaining_bytes, admission_state, account}
use sql_server_analyze.Native.Reading.Contents.{Gives, read_bounded-Completes}
use sql_server_analyze.Native.Reading.{
  Bytes, join_chunks, SourceKind, chunk, Round, ReadObservation, observed, read_bounded,
}
use sql_server_analyze.Native.Reading.Bounds.{IsBoundedRead, read_bounded_total}
use sql_server_analyze.Native.OwnedFd.{
  read_fd, close, detach, exit, run, count_releases, run-releases_once,
}

abbrev budget : ReadBudget
budget = record { byte_limit = 1000; deadline = 50; bytes_read = 0 }

-- The file gives two bytes, then its end.
abbrev two_bytes : ℕ → Round
two_bytes k = record {
  admission_clock = k;
  first_clock = k;
  second_clock = k;
  reader = λ amount. chunk (if k == 0 then 49 ∷ 10 ∷ [] else []);
}

two_bytes_read :
    read_bounded SourceKind.resource two_bytes budget
    ≡ observed
        (record {
          read_state = ReadCode.available;
          byte_count = 2;
          raw_value = some (49 ∷ 10 ∷ []);
          reason_code = none;
          native_errno = none;
        })
        (record { byte_limit = 1000; deadline = 50; bytes_read = 2 })
unfolding read_bounded remaining_bytes admission_state account
two_bytes_read = refl

read_bounded_total_example :
    (o : ReadObservation) × (b' : ReadBudget) × (read_bounded SourceKind.resource two_bytes budget
      ≡ observed o b')
    × IsBoundedRead SourceKind.resource budget o b'
read_bounded_total_example =
    read_bounded_total SourceKind.resource two_bytes budget
      (record { within = omega arith; allowed = omega arith })

run-releases_once_example :
    count_releases (run (read_fd ∷ close ∷ detach ∷ exit ∷ []) (record { fd = 3; closed = false }))
    ≤ 1
run-releases_once_example =
    run-releases_once (read_fd ∷ close ∷ detach ∷ exit ∷ []) (record { fd = 3; closed = false })

abbrev two_bytes_observed : ReadObservation
two_bytes_observed = record {
  read_state = ReadCode.available;
  byte_count = 2;
  raw_value = some (49 ∷ 10 ∷ []);
  reason_code = none;
  native_errno = none;
}

read_bounded-Completes_example :
    (cs : List Bytes) × Gives two_bytes 0 cs
    × (two_bytes_observed.raw_value ≡ some (join_chunks cs))
read_bounded-Completes_example =
    read_bounded-Completes SourceKind.resource two_bytes budget two_bytes_observed
      (record { byte_limit = 1000; deadline = 50; bytes_read = 2 }) two_bytes_read refl

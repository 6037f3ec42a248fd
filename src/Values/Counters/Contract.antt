-- ===== src/Values/Counters/Contract.antt =====
-- The contract of `_parse_keyed_counters`.
use sql_server_analyze.Common.{
  ◌≡◌, ◌↔◌, inl, inr, refl, ap, false, List, [], Option, none, some, Bool-cases,
}
use sql_server_analyze.Codes.{ParseState, ReasonCode}
use sql_server_analyze.Text.{Text, contains, split}
use sql_server_analyze.Values.Input.{
  input_problem, IsBounded, input_problem-none, input_problem-IsBounded, input_problem-ne-valid,
}
use sql_server_analyze.Values.Counters.{
  Counter, CountersResult, Units, LoopResult, collected, stopped, parse_lines, finish, checked,
  parse_keyed_counters,
}
use sql_server_analyze.Values.Counters.Entries.{
  Entries, DistinctFrom, parse_lines-Entries, Entries-parse_lines,
}

-- The text is short, without NUL, and its lines are blank or make the counters, with distinct keys.
pub record IsCounterFile (units : Units) (raw : Text) (cs : List Counter) : Type 0 where
  pub bounded : IsBounded raw
  pub no_nul : contains 0 raw ≡ false
  pub entries : Entries units (split 10 raw) cs
  pub distinct : DistinctFrom [] cs

abbrev pub counters_result : Text → Text → List Counter → CountersResult
counters_result key raw cs = finish key raw (collected cs)

state : CountersResult → ParseState
state r = r.parse_state

finish-collected :
    (key raw : Text) (v : LoopResult) (cs : List Counter)
    → finish key raw v ≡ counters_result key raw cs
    → v ≡ collected cs
finish-collected key raw (stopped r) cs e = cc
finish-collected key raw (collected ds) cs e = cc

checked-IsCounterFile :
    (key raw : Text) (units : Units) (cs : List Counter) (q : Option (ParseState × ReasonCode))
    → input_problem raw ≡ q
    → checked key raw units q ≡ counters_result key raw cs
    → IsCounterFile units raw cs
checked-IsCounterFile key raw units cs (some (p, r)) q e =
    absurd (input_problem-ne-valid raw p r q (ap (λ (x : CountersResult). x.parse_state) e))
checked-IsCounterFile key raw units cs none q e = elim (Bool-cases (contains 0 raw)) [
  | inl n ↦ cc (ap (λ (x : CountersResult). x.parse_state) (rw n at e))
  | inr n ↦
      let ends = finish-collected key raw (parse_lines units [] (split 10 raw)) cs (rw n at e) in
      let (es, d) = parse_lines-Entries units (split 10 raw) [] cs ends in
      record { bounded = input_problem-IsBounded raw q; no_nul = n; entries = es; distinct = d }
]

-- The counters `cs` are the result exactly when the lines of the text make them: in order, one for
-- each line that is not blank, and no key twice; the text can be encoded, is short, and has no NUL.
pub parse_keyed_counters_iff :
    (key raw : Text) (units : Units) (cs : List Counter)
    → (parse_keyed_counters key raw units ≡ counters_result key raw cs) ↔ IsCounterFile units raw cs
unfolding parse_keyed_counters
parse_keyed_counters_iff key raw units cs = (
  (λ e. checked-IsCounterFile key raw units cs (input_problem raw) refl e),
  (λ f.
      rw
        (
          input_problem-none raw f.bounded,
          f.no_nul,
          Entries-parse_lines units [] f.entries f.distinct,
        )
        refl),
)

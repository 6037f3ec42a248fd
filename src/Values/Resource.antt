-- ===== src/Values/Resource.antt =====
-- `parse_resource_value` of Code/Tools/Linux_Cgroup_Values.py: memory scalars and `cpu.max`.
pub mod Memory
pub mod Cpu
pub mod States
use sql_server_analyze.Common.{
  ℕ, zero, suc, ◌+◌, ◌-◌, ◌*◌, ◌/◌, ◌%◌, ◌^◌, ◌≤◌, ◌<◌, min, max, String, ◌≡◌, ◌≢◌, ◌↔◌, ◌⊎◌, inl,
  inr, refl, sym, ap, ◌∙◌, subst, ◌&&◌, ◌||◌, not, Bool, true, false, List, [], ◌∷◌, ◌++◌, map,
  reverse, append-nil, append_assoc, Option, none, some, arith, ◌==◌, ltb, leb, if◌then◌else◌,
  Bool-cases, &&_left, &&_right, ==→eq, ==_refl, ltb→lt, lt→ltb, leb→le, le→leb, length,
  length-append, get_elem?, take, drop, is_empty, any, all, select, All, Some, All-append,
  Some-append, Some-reverse, All-reverse, ⊎-map, ⊎-map_left, ⊎-comm, ⊎-assoc, ⊎-unassoc, ⊎-rotate,
}
use sql_server_analyze.Codes.{ParseState, ReasonCode}
use sql_server_analyze.Text.{Text, codes, text_eq, member, strip, split_runs, is_outer_space}
use sql_server_analyze.U64.{U64Result, number, failed, parse_u64, to_decimal}
use sql_server_analyze.Gcd.{gcd}
use sql_server_analyze.Values.Input.{input_problem}

-- `value_kind`
pub data ValueKind : Type 0 where
  nothing unlimited finite : ValueKind

-- The dictionary that `_result` builds.
pub record ResourceResult : Type 0 where
  pub source_key : Text
  pub raw_value : Text
  pub parse_state : ParseState
  pub reason_code : ReasonCode
  pub value_kind : ValueKind
  pub value : Option Text
  pub quota_us : Option Text
  pub period_us : Option Text
  pub ratio_numerator : Option Text
  pub ratio_denominator : Option Text

-- A call that returns, or raises `ValueError`.
pub data Call {ℓ} (A : Type ℓ) : Type ℓ where
  returns : A → Call A
  value_error : Call A

-- `_MEMORY_KEYS`
abbrev pub memory_keys : List Text
memory_keys =
    codes "memory.max" ∷ codes "memory.high" ∷ codes "memory.swap.max" ∷ codes "memory.current" ∷ []

-- `_UNLIMITED_MEMORY_KEYS`
abbrev pub unlimited_memory_keys : List Text
unlimited_memory_keys = codes "memory.max" ∷ codes "memory.high" ∷ codes "memory.swap.max" ∷ []

abbrev pub cpu_max : Text
cpu_max = codes "cpu.max"

abbrev pub max_token : Text
max_token = codes "max"

-- `_result` with its defaults.
abbrev pub result : Text → Text → ParseState → ReasonCode → ResourceResult
result key raw state reason = record {
  source_key = key;
  raw_value = raw;
  parse_state = state;
  reason_code = reason;
  value_kind = ValueKind.nothing;
  value = none;
  quota_us = none;
  period_us = none;
  ratio_numerator = none;
  ratio_denominator = none;
}

-- `_invalid`
abbrev pub invalid : Text → Text → ReasonCode → ResourceResult
invalid key raw reason = result key raw ParseState.invalid_value reason

abbrev pub unlimited_result : Text → Text → ResourceResult
unlimited_result key raw = record (result key raw ParseState.valid ReasonCode.unlimited) {
  value_kind = ValueKind.unlimited;
}

abbrev pub finite_result : Text → Text → ResourceResult
finite_result key raw = record (result key raw ParseState.valid ReasonCode.finite_value) {
  value_kind = ValueKind.finite;
}

-- What `_parse_u64` makes of a memory value.
abbrev pub memory_number : Text → Text → U64Result → ResourceResult
memory_number key raw (number n) = record (finite_result key raw) { value = some (to_decimal n) }
memory_number key raw (failed reason) = invalid key raw reason

-- The branch of the memory keys; `text` is the stripped value.
pub parse_memory : Text → Text → Text → ResourceResult
parse_memory key raw text =
    if text_eq text max_token && member key unlimited_memory_keys
    then unlimited_result key raw
    else memory_number key raw (parse_u64 text)

abbrev pub cpu_ratio : Text → ℕ → ℕ → ResourceResult
cpu_ratio raw quota period = record (finite_result cpu_max raw) {
  quota_us = some (to_decimal quota);
  period_us = some (to_decimal period);
  ratio_numerator = some (to_decimal (quota / gcd quota period));
  ratio_denominator = some (to_decimal (period / gcd quota period));
}

-- The quota, when it is not `max` and the period is known.
abbrev pub cpu_quota : Text → ℕ → U64Result → ResourceResult
cpu_quota raw period (failed reason) = invalid cpu_max raw reason
cpu_quota raw period (number quota) =
    if quota == 0 then invalid cpu_max raw ReasonCode.out_of_range else cpu_ratio raw quota period

abbrev pub cpu_period : Text → Text → U64Result → ResourceResult
cpu_period raw quota_token (failed reason) = invalid cpu_max raw reason
cpu_period raw quota_token (number period) =
    if period == 0
    then invalid cpu_max raw ReasonCode.out_of_range
    else if text_eq quota_token max_token
    then record (unlimited_result cpu_max raw) { period_us = some (to_decimal period) }
    else cpu_quota raw period (parse_u64 quota_token)

-- `_ASCII_TOKEN_SEPARATOR.split(text) if text else []`
pub tokens_of : Text → List Text
tokens_of text = if is_empty text then [] else split_runs is_outer_space text

abbrev pub cpu_tokens : Text → List Text → ResourceResult
cpu_tokens raw (quota_token ∷ period_token ∷ []) =
    cpu_period raw quota_token (parse_u64 period_token)
cpu_tokens raw _ = invalid cpu_max raw ReasonCode.invalid_format

-- The branch of `cpu.max`.
pub parse_cpu : Text → Text → ResourceResult
parse_cpu raw text = cpu_tokens raw (tokens_of text)

abbrev checked : Text → Text → Option (ParseState × ReasonCode) → ResourceResult
checked key raw (some (state, reason)) = result key raw state reason
checked key raw none =
    if member key memory_keys
    then parse_memory key raw (strip is_outer_space raw)
    else parse_cpu raw (strip is_outer_space raw)

unfoldable pub parse_resource_value : Text → Text → Call ResourceResult
unfolding parse_memory parse_cpu tokens_of
parse_resource_value key raw =
    if not (member key memory_keys) && not (text_eq key cpu_max)
    then value_error
    else returns (checked key raw (input_problem raw))

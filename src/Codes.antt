-- ===== src/Codes.antt =====
-- The fixed result codes of the cgroup parsers, one constructor for each string literal of
-- Code/Tools/Linux_Cgroup_Values.py and Code/Tools/Linux_Cgroup_Metadata.py.

-- `parse_state`
pub data ParseState : Type 0 where
  valid invalid_value limit_reached empty_observation unsupported_layout type_unverified :
      ParseState
  missing_membership deleted_record : ParseState

-- `reason_code`
pub data ReasonCode : Type 0 where
  non_utf8_text input_too_large invalid_token out_of_range : ReasonCode
  unlimited finite_value invalid_format invalid_range empty_observation : ReasonCode
  duplicate_key counters_parsed : ReasonCode
  supported_domain unsupported_layout type_unverified : ReasonCode
  malformed_record invalid_path invalid_id invalid_escape : ReasonCode
  duplicate_v2_record hybrid_layout v1_only v2_membership_missing : ReasonCode
  membership_deleted v2_membership_parsed : ReasonCode
  duplicate_mount_id mountinfo_parsed no_cgroup2_mounts : ReasonCode

-- ===== src/Native/Errno.antt =====
-- `_errno_code` of Code/Tools/Linux_Cgroup_Native.py, with the error numbers of Linux.
use sql_server_analyze.Common.{
  ℕ, ◌≢◌, ◌||◌, not, Bool, false, List, [], ◌∷◌, arith, ◌==◌, if◌then◌else◌,
}

-- The codes that a read can report, one constructor for each string.
pub data ReadCode : Type 0 where
  available limit_reached deadline_reached read_error permission_denied missing : ReadCode
  context_unbound symlink_rejected cross_mount_rejected unsupported_abi : ReadCode

abbrev is_one_of : ℕ → List ℕ → Bool
is_one_of n [] = false
is_one_of n (m ∷ ms) = (n == m) || is_one_of n ms

-- EACCES 13, EPERM 1, ENOENT 2, ELOOP 40, EXDEV 18, EAGAIN 11, ENOSYS 38, EINVAL 22, E2BIG 7.
unfoldable pub errno_code : ℕ → Bool → ReadCode
errno_code errno context =
    if is_one_of errno (13 ∷ 1 ∷ [])
    then ReadCode.permission_denied
    else if errno == 2
    then (if not context then ReadCode.missing else ReadCode.context_unbound)
    else if errno == 40
    then ReadCode.symlink_rejected
    else if errno == 18
    then ReadCode.cross_mount_rejected
    else if errno == 11
    then ReadCode.context_unbound
    else if is_one_of errno (38 ∷ 22 ∷ 7 ∷ [])
    then ReadCode.unsupported_abi
    else if context
    then ReadCode.context_unbound
    else ReadCode.read_error

-- No error number stands for a completed read, or for a limit or a deadline that was reached.
pub errno_code-is_error :
    (errno : ℕ) (context : Bool)
    → (errno_code errno context ≢ ReadCode.available)
      × (errno_code errno context ≢ ReadCode.limit_reached)
      × (errno_code errno context ≢ ReadCode.deadline_reached)
unfolding errno_code
errno_code-is_error errno context = ground arith

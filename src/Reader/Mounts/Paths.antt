-- ===== src/Reader/Mounts/Paths.antt =====
-- The components of an accepted path, and the relative path that is opened.
use sql_server_analyze.Common.{◌≡◌, false, List, ◌∷◌, All}
use sql_server_analyze.Text.{Text, contains, member}
use sql_server_analyze.Text.Laws.{join}
use sql_server_analyze.Reader.Mounts.{unsafe_parts}

-- The components spell the path, and none of them is empty, `.` or `..`.
pub record IsSafePath (path : Text) (parts : List Text) : Type 0 where
  pub spelled : path ≡ b'/' ∷ join b'/' parts
  pub safe : All (λ part. member part unsafe_parts ≡ false) parts
  pub no_nul : contains 0 path ≡ false

-- ===== src/RuleCache/Fingerprint/Tests.antt =====
-- Fingerprints of a small file, and an instance of the theorem.
use sql_server_analyze.Common.{◌≡◌, inl, inr, refl, [], ◌∷◌, none, some}
use sql_server_analyze.Text.{Text, codes}
use sql_server_analyze.RuleCache.Fingerprint.{
  Encoding, logical_content, GitAnswers, git_fingerprint,
}
use sql_server_analyze.RuleCache.Fingerprint.Valid.{
  IsFingerprintOf, git_fingerprint-IsFingerprintOf,
}
use sql_server_analyze.RuleCache.Fingerprint.States.{HasObjectNames}
use sql_server_analyze.Reader.Pidfd.{split_lines, unicode_words}

abbrev plain : Encoding
plain = record {
  decode = λ bytes. some bytes;
  encode = λ text. text;
  sha256_bytes = λ bytes. bytes;
}

carriage_returns :
    logical_content plain (codes "a\r\nb") ≡ (codes "UTF8_CRLF_LF_NORMALIZED", codes "a\nb")
unfolding logical_content
carriage_returns = refl

abbrev changed_twice : GitAnswers
changed_twice = record { head_blob = none; stage = none; status = some (codes "MM b.md\n") }

staged_and_unstaged :
    (git_fingerprint changed_twice (codes "b.md")).working_tree_state
    ≡ codes "STAGED" ∷ codes "UNSTAGED" ∷ []
unfolding git_fingerprint
staged_and_unstaged = refl

-- The name of an object, of 40 digits.
abbrev object_name : Text
object_name = codes "0123456789abcdef0123456789abcdef01234567"

-- A file that was changed, staged and changed again.
abbrev in_index : GitAnswers
in_index = record {
  head_blob = some object_name;
  stage = some (codes "100644 0123456789abcdef0123456789abcdef01234567 0\tb.md\n");
  status = some (codes "MM b.md\n");
}

in_index_names : HasObjectNames in_index
unfolding split_lines unicode_words
in_index_names = record {
  head = inr (record { size = inl refl; digits = refl });
  stage = (record { size = inl refl; digits = refl }, tt);
}

git_fingerprint-IsFingerprintOf_example :
    IsFingerprintOf in_index (codes "b.md") (git_fingerprint in_index (codes "b.md"))
git_fingerprint-IsFingerprintOf_example =
    git_fingerprint-IsFingerprintOf in_index (codes "b.md") in_index_names

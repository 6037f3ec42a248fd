-- ===== src/RuleCache/Chain/Tests.antt =====
-- The chain of a small repository, and an instance of the theorem.
use sql_server_analyze.Common.{ℕ, ◌≡◌, refl, ◌||◌, true, false, [], ◌∷◌, map, is_empty}
use sql_server_analyze.Text.{codes, text_eq}
use sql_server_analyze.RuleCache.Capture.{Location}
use sql_server_analyze.RuleCache.Chain.{
  ChainFiles, ChainOptions, append_global, append_directory, append_directories, instruction_chain,
}
use sql_server_analyze.RuleCache.Chain.Numbered.{IsApplicable, instruction_chain-IsApplicable}

-- One file at the root and one below it.
abbrev two_instructions : ChainFiles
two_instructions = record {
  global_nonempty = λ name. false;
  inside = λ path. true;
  exists = λ path. true;
  nonempty =
      λ path. text_eq path (codes "AGENTS.md") || text_eq path (codes "a/AGENTS.override.md");
  size = λ path. 10;
}

abbrev below_a : ℕ → ChainOptions
below_a limit = record {
  include_global = true;
  codex_home_known = true;
  fallback_filenames = [];
  project_doc_max_bytes = limit;
  parts = codes "a" ∷ [];
}

chain_found :
    map (λ (l : Location). l.canonical_path) (instruction_chain two_instructions (below_a 22)).chain
    ≡ codes "AGENTS.md" ∷ codes "a/AGENTS.override.md" ∷ []
unfolding instruction_chain append_global append_directories append_directory
chain_found = refl

too_large :
    (instruction_chain two_instructions (below_a 21)).reasons
    ≡ codes "DISCOVERY_SIZE_LIMIT_EXCEEDED" ∷ []
unfolding instruction_chain append_global append_directories append_directory
too_large = refl

no_reasons : is_empty (instruction_chain two_instructions (below_a 22)).reasons ≡ true
unfolding instruction_chain append_global append_directories append_directory
no_reasons = refl

instruction_chain-IsApplicable_example :
    IsApplicable two_instructions
      (below_a 22)
      (instruction_chain two_instructions (below_a 22)).chain
instruction_chain-IsApplicable_example =
    instruction_chain-IsApplicable two_instructions (below_a 22) refl no_reasons

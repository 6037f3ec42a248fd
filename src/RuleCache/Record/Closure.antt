-- ===== src/RuleCache/Record/Closure.antt =====
-- The search for dependencies sees only the dependencies of each source.
use sql_server_analyze.Common.{suc, ◌+◌, ◌≡◌, refl, sym, ◌∙◌, subst, List, [], some, length, all}
use sql_server_analyze.Text.{Text}
use sql_server_analyze.RuleCache.Graph.{Graph, targets, edges, search_loop, transitive_dependencies}
use sql_server_analyze.RuleCache.Texts.{In, member-sorted_set}
use sql_server_analyze.RuleCache.Graph.Reaching.{Reach}
use sql_server_analyze.RuleCache.Graph.Transitive.{
  search_returns, loop_agrees, transitive_dependencies-Reach,
}
use sql_server_analyze.RuleCache.Record.{closure_of}

pub closure_of-targets :
    (path : Text) (g h : Graph) → targets g ≡ targets h → closure_of path g ≡ closure_of path h
unfolding closure_of transitive_dependencies
closure_of-targets path g h same =
    let (a, ea) = search_returns g path in
    let (b, eb) = search_returns h path in
    let eb' =
      subst
        (λ (d : Text → List Text).
          search_loop d (suc (length (targets h path) + edges h)) (d path) [] ≡ some b)
        (sym same) eb in
    let agree =
      loop_agrees (targets g) (suc (length (targets g path) + edges g))
        (suc (length (targets h path) + edges h)) (targets g path) [] a b ea eb' in
    rw (ea, eb, agree) refl

pub In-closure_of :
    (path : Text) (g : Graph) (q : Text) → In q (closure_of path g) → Reach (targets g) path q
unfolding closure_of
In-closure_of path g q h =
    let (r, e, all) = transitive_dependencies-Reach path g in
    ((all q).0 (sym (member-sorted_set q r) ∙ (rw e at h))).0

-- ===== src/RuleCache/Graph/Reaching.antt =====
-- The sources that a source depends on, directly or through others.
use sql_server_analyze.Common.{◌≡◌, inl, inr, refl, List, [], ◌∷◌, map, arith, Bool-cases}
use sql_server_analyze.Text.{Text, text_eq, text_eq→eq, text_eq_refl, member}
use sql_server_analyze.RuleCache.Texts.{In}
use sql_server_analyze.RuleCache.Graph.{Graph, targets}

-- `v` is a dependency of `u`.
abbrev pub Edge : (Text → List Text) → Text → Text → Type 0
Edge deps u v = In v (deps u)

-- The walks of at least one step.
pub data Reach (deps : Text → List Text) (u : Text) : Text → Type 0 where
  direct : {v : Text} → Edge deps u v → Reach deps u v
  further : {v w : Text} → Reach deps u v → Edge deps v w → Reach deps u w

pub Reach-cons :
    {deps : Text → List Text} {u v w : Text} → Edge deps u v → Reach deps v w → Reach deps u w
Reach-cons e (direct f) = further (direct e) f
Reach-cons e (further r f) = further (Reach-cons e r) f

-- What has a dependency is a source.
pub key_of_edge :
    (g : Graph) (u v : Text) → Edge (targets g) u v → In u (map (λ (x : Text × List Text). x.0) g)
unfolding targets member
key_of_edge [] u v e = cc
key_of_edge ((k, ds) ∷ g) u v e = elim (Bool-cases (text_eq k u)) [
  | inl t ↦ let same : k ≡ u = text_eq→eq k u t in rw (same, text_eq_refl u) refl
  | inr t ↦ let found = key_of_edge g u v (rw t at e) in ground arith
]

-- ===== src/Reader/Mounts/Selection.antt =====
-- `_select_cgroup2_mount` in terms of the mounts themselves.
use sql_server_analyze.Common.{
  ℕ, ◌<◌, ◌≡◌, ◌≢◌, ◌↔◌, inl, inr, refl, sym, ap, ◌∙◌, subst, true, List, [], ◌∷◌, ◌++◌, Option,
  none, some, arith, if◌then◌else◌, Bool-cases, length, All,
}
use sql_server_analyze.Codes.{ParseState}
use sql_server_analyze.Text.{Text}
use sql_server_analyze.Metadata.Mountinfo.{Mount, MountinfoResult}
use sql_server_analyze.Reader.Mounts.{
  Candidate, path_components, candidate, appended, candidates, among, is_valid,
  select_cgroup2_mount,
}
use sql_server_analyze.Reader.Mounts.Deepest.{
  IsOnly, IsOnly-cons, IsOnly-map, deepest-IsOnly, IsOnly-deepest, IsRootOf, candidate-IsRootOf,
  IsRootOf-candidate,
}

nil-ne-append {ℓ} : {A : Type ℓ} (xs ys : List A) (x : A) → [] ≢ xs ++ x ∷ ys
nil-ne-append [] ys x = λ e. cc
nil-ne-append (z ∷ xs) ys x = λ e. cc

module _ (parts : List Text) (P : Candidate → Type 0) where
  -- What the mount contributes, if anything, satisfies `P`.
  abbrev Contributes : Mount → Type 0
  Contributes m = (c : Candidate) → candidate parts m ≡ some c → P c

  Contributes-All : (ms : List Mount) → All P (candidates parts ms) → All Contributes ms
  unfolding candidates
  Contributes-All [] _ = tt
  Contributes-All (m ∷ ms) h = go (candidate parts m) refl h (Contributes-All ms)
    where
      go :
          (found : Option Candidate)
          → candidate parts m ≡ found
          → All P (appended found (candidates parts ms))
          → (All P (candidates parts ms) → All Contributes ms)
          → Contributes m × All Contributes ms
      go none e h ih = (λ c f. cc, ih h)
      go (some c) e (p, h) ih = (λ c' f. subst P (cc) p, ih h)

  All-Contributes : (ms : List Mount) → All Contributes ms → All P (candidates parts ms)
  unfolding candidates
  All-Contributes [] _ = tt
  All-Contributes (m ∷ ms) (h, hs) = go (candidate parts m) refl (All-Contributes ms hs)
    where
      go :
          (found : Option Candidate)
          → candidate parts m ≡ found
          → All P (candidates parts ms)
          → All P (appended found (candidates parts ms))
      go none e rest = rest
      go (some c) e rest = (h c e, rest)

  -- The one candidate comes from one mount.
  mount_of :
      (x : Candidate) (ms : List Mount)
      → IsOnly P x (candidates parts ms)
      → (m : Mount) × (candidate parts m ≡ some x) × IsOnly Contributes m ms
  unfolding candidates
  mount_of x [] o = absurd (nil-ne-append o.before o.after x o.whole)
  mount_of x (m ∷ ms) o = go (candidate parts m) refl o (mount_of x ms)
    where
      go :
          (found : Option Candidate)
          → candidate parts m ≡ found
          → IsOnly P x (appended found (candidates parts ms))
          → (IsOnly P x (candidates parts ms)
              → (m' : Mount) × (candidate parts m' ≡ some x) × IsOnly Contributes m' ms)
          → (m' : Mount) × (candidate parts m' ≡ some x) × IsOnly Contributes m' (m ∷ ms)
      go none e o ih = let (m', f, o') = ih o in (m', f, IsOnly-cons m (λ c g. cc) o')
      go (some c) e o ih = at_head o.before o.whole o.others_before o.others_after
        where
          at_head :
              (before : List Candidate)
              → c ∷ candidates parts ms ≡ before ++ x ∷ o.after
              → All P before
              → All P o.after
              → (m' : Mount) × (candidate parts m' ≡ some x) × IsOnly Contributes m' (m ∷ ms)
          at_head [] w hb ha =
              let same : c ≡ x = cc in
              let rest : o.after ≡ candidates parts ms = cc in
              (
                m,
                e ∙ ap some same,
                record {
                  before = [];
                  after = ms;
                  whole = refl;
                  others_before = tt;
                  others_after = Contributes-All ms (subst (All P) rest ha);
                },
              )
          at_head (b ∷ bs) w (hb, hbs) ha =
              let same : b ≡ c = cc in
              let (m', f, o') = ih (record {
                before = bs;
                after = o.after;
                whole = cc;
                others_before = hbs;
                others_after = ha;
              }) in
              (m', f, IsOnly-cons m (λ c' g. subst P (cc) hb) o')

  IsOnly-candidate :
      (x : Candidate) (m : Mount) (before after : List Mount)
      → candidate parts m ≡ some x
      → All Contributes before
      → All Contributes after
      → IsOnly P x (candidates parts (before ++ m ∷ after))
  unfolding candidates
  IsOnly-candidate x m [] after e _ h = rw e (record {
    before = [];
    after = candidates parts after;
    whole = refl;
    others_before = tt;
    others_after = All-Contributes after h;
  })
  IsOnly-candidate x m (b ∷ before) after e (hb, hbs) h =
      go (candidate parts b) refl (IsOnly-candidate x m before after e hbs h)
    where
      go :
          (found : Option Candidate)
          → candidate parts b ≡ found
          → IsOnly P x (candidates parts (before ++ m ∷ after))
          → IsOnly P x (appended found (candidates parts (before ++ m ∷ after)))
      go none f o = o
      go (some c) f o = IsOnly-cons c (hb c f) o

-- A root of another mount that holds the path is shorter.
abbrev pub IsShallower : List Text → ℕ → Mount → Type 0
IsShallower parts d m = (root : List Text) → IsRootOf parts root m → length root < d

-- The mount is one of the list, its root holds the path, and no other mount of the list has a root
-- that holds the path and is as long.
pub record IsDeepestMount (info : MountinfoResult) (path : Text) (m : Mount) : Type 0 where
  pub valid : info.parse_state ≡ ParseState.valid
  pub parts : List Text
  pub path_spelled : path_components path ≡ some parts
  pub mounts : List Mount
  pub listed : info.mounts ≡ some mounts
  pub root : List Text
  pub its_root : IsRootOf parts root m
  pub only : IsOnly (IsShallower parts (length root)) m mounts

Contributes-IsShallower :
    (parts : List Text) (d : ℕ) (m : Mount)
    → Contributes parts (λ c. c.0 < d) m
    → IsShallower parts d m
Contributes-IsShallower parts d m h root r = h (length root, m) (IsRootOf-candidate parts root m r)

IsShallower-Contributes :
    (parts : List Text) (d : ℕ) (m : Mount)
    → IsShallower parts d m
    → Contributes parts (λ c. c.0 < d) m
IsShallower-Contributes parts d m h c e =
    let (same, root, r, depth) = candidate-IsRootOf parts m c e in omega (arith, h root r)

among-IsDeepestMount :
    (info : MountinfoResult) (path : Text) (m : Mount) (mounts : Option (List Mount))
    (parts : Option (List Text))
    → info.parse_state ≡ ParseState.valid
    → info.mounts ≡ mounts
    → path_components path ≡ parts
    → among mounts parts ≡ some m
    → IsDeepestMount info path m
among-IsDeepestMount info path m none parts v l p e = cc
among-IsDeepestMount info path m (some ms) none v l p e = cc
among-IsDeepestMount info path m (some ms) (some parts) v l p e =
    let (d, o) = deepest-IsOnly (candidates parts ms) m e in
    let (m', c, o') = mount_of parts (λ x. x.0 < d) (d, m) ms o in
    let (same, root, r, depth) = candidate-IsRootOf parts m' (d, m) c in
    record {
      valid = v;
      parts = parts;
      path_spelled = p;
      mounts = ms;
      listed = l;
      root = root;
      its_root = subst (IsRootOf parts root) (sym same) r;
      only =
          subst (λ (x : Mount). IsOnly (IsShallower parts (length root)) x ms) (sym same)
            (subst (λ (k : ℕ). IsOnly (IsShallower parts k) m' ms) depth
              (IsOnly-map (Contributes-IsShallower parts d) o'));
    }

is_valid-valid : (s : ParseState) → is_valid s ≡ true → s ≡ ParseState.valid
is_valid-valid s h = ground arith

-- A mount is selected exactly when the listing is valid and the mount is the only deepest one whose
-- root holds the path.
pub select_cgroup2_mount-IsDeepestMount :
    (info : MountinfoResult) (path : Text) (m : Mount)
    → (select_cgroup2_mount info path ≡ some m) ↔ IsDeepestMount info path m
unfolding select_cgroup2_mount
select_cgroup2_mount-IsDeepestMount info path m = (sound, complete)
  where
    sound :
        (if is_valid info.parse_state then among info.mounts (path_components path) else none)
          ≡ some m
        → IsDeepestMount info path m
    sound e = elim (Bool-cases (is_valid info.parse_state)) [
      | inr f ↦ cc (rw f at e)
      | inl t ↦
          among-IsDeepestMount info path m info.mounts (path_components path) (is_valid-valid _ t)
            refl refl (rw t at e)
    ]

    complete :
        IsDeepestMount info path m
        → (if is_valid info.parse_state then among info.mounts (path_components path) else none)
          ≡ some m
    complete h =
        let o = IsOnly-map (IsShallower-Contributes h.parts (length h.root)) h.only in
        let c =
          IsOnly-candidate h.parts (λ x. x.0 < length h.root) (length h.root, m) m o.before o.after
            (IsRootOf-candidate h.parts h.root m h.its_root) o.others_before o.others_after in
        rw (h.valid, h.listed, h.path_spelled, o.whole) (IsOnly-deepest _ (length h.root) m c)

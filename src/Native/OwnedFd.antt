-- ===== src/Native/OwnedFd.antt =====
-- `OwnedFD` of Code/Tools/Linux_Cgroup_Native.py: a descriptor that is closed once at most.
use sql_server_analyze.Common.{
  ℕ, ◌+◌, ◌≤◌, ◌≡◌, ◌⊎◌, inl, inr, refl, Bool, true, List, [], ◌∷◌, arith, if◌then◌else◌,
}

-- `_fd` and `_closed`; the identity plays no part in the ownership.
pub record OwnedFd : Type 0 where
  pub fd : ℕ
  pub closed : Bool

-- The calls on a handle, `__enter__` and `__exit__` included.
pub data Operation : Type 0 where
  read_fd close detach enter exit : Operation

-- What a call does outside: nothing, `os.close(fd)`, or handing the descriptor to the caller.
pub data Effect : Type 0 where
  silent : Effect
  os_close : ℕ → Effect
  handed_over : ℕ → Effect
  fd_closed : Effect

-- One call; `fd_closed` is the failure `FD_CLOSED`.
unfoldable pub call : Operation → OwnedFd → OwnedFd × Effect
call read_fd h = if h.closed then (h, fd_closed) else (h, silent)
call close h = if h.closed then (h, silent) else (record h { closed = true }, os_close h.fd)
call detach h = if h.closed then (h, fd_closed) else (record h { closed = true }, handed_over h.fd)
call enter h = if h.closed then (h, fd_closed) else (h, silent)
call exit h = if h.closed then (h, silent) else (record h { closed = true }, os_close h.fd)

-- A sequence of calls, with their effects.
unfoldable pub run : List Operation → OwnedFd → List Effect
run [] h = []
run (op ∷ ops) h = let (h', e) = call op h in e ∷ run ops h'

-- The effects that end the ownership.
abbrev pub releases : Effect → ℕ
releases silent = 0
releases (os_close n) = 1
releases (handed_over n) = 1
releases fd_closed = 0

pub count_releases : List Effect → ℕ
count_releases [] = 0
count_releases (e ∷ es) = releases e + count_releases es

call-closed :
    (op : Operation) (h : OwnedFd)
    → h.closed ≡ true
    → ((call op h).0.closed ≡ true) × (releases (call op h).1 ≡ 0)
unfolding call
call-closed read_fd h c = ground arith
call-closed close h c = ground arith
call-closed detach h c = ground arith
call-closed enter h c = ground arith
call-closed exit h c = ground arith

call-releases :
    (op : Operation) (h : OwnedFd)
    → (releases (call op h).1 ≡ 0) ⊎ ((releases (call op h).1 ≡ 1) × ((call op h).0.closed ≡ true))
unfolding call
call-releases read_fd h = ground arith
call-releases close h = ground arith
call-releases detach h = ground arith
call-releases enter h = ground arith
call-releases exit h = ground arith

run-closed : (ops : List Operation) (h : OwnedFd) → h.closed ≡ true → count_releases (run ops h) ≡ 0
unfolding run count_releases
run-closed [] h c = refl
run-closed (op ∷ ops) h c =
    let (still, none_here) = call-closed op h c in
    omega (arith, none_here, run-closed ops (call op h).0 still)

-- Whatever the order of the calls, the descriptor is closed or handed over once at most.
pub run-releases_once : (ops : List Operation) (h : OwnedFd) → count_releases (run ops h) ≤ 1
unfolding run count_releases
run-releases_once [] h = omega arith
run-releases_once (op ∷ ops) h = elim (call-releases op h) [
  | inl e ↦ omega (arith, e, run-releases_once ops (call op h).0)
  | inr (e, c) ↦ omega (arith, e, run-closed ops (call op h).0 c)
]

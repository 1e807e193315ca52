-- ===== src/Rpc/Closure/Tests.antt =====
-- Closures of rocket/net/rpc/rpc_closure.h.
use my_rocket.Base.{
  refl, ◌≡◌, ◌++◌, ◌==◌, ◌&&◌, true, false, List, [], ◌∷◌, Option, none, some, length,
  if◌then◌else◌,
}
use my_rocket.Rpc.Closure.{
  Ending, returned, std_exception, new_all, run_all, release, make_interface, objects_of,
  all_errors, request, response, closure, run, reply, destroy, new_rpc_closure, run_all-replies,
}

-- One callback throws, one returns, and one closure has none.
abbrev endings : List (Option Ending)
endings = some std_exception ∷ some returned ∷ []

run_all-replies_example :
    let start = make_interface true true true false in
    let i = run_all endings (release (new_all (endings ++ none ∷ []) start)) in
    (i.replies ≡ (if length {A = Option Ending} (none ∷ []) == 0 && true then 1 else 0))
    × (i.freed ≡ (if length {A = Option Ending} (none ∷ []) == 0 then objects_of start else []))
    × (i.errors ≡ all_errors endings)
run_all-replies_example = run_all-replies true true true false endings (none ∷ [])

-- With the last closure, all is freed.
freed_last :
    (run_all
      (none ∷ [])
      (release (new_all (none ∷ []) (make_interface true true true false)))).freed
    ≡ request ∷ response ∷ closure ∷ []
unfolding run_all run release reply destroy new_all new_rpc_closure make_interface
freed_last = refl

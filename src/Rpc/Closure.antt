-- ===== src/Rpc/Closure.antt =====
-- rocket/net/rpc/rpc_closure.h, rpc_interface.h and rpc_interface.cc: closures that share the
-- interface of one call. `references` counts the `shared_ptr`s to the interface; `errors` are the
-- calls of `setError`, which the service implements, and `replies` counts the runs of `m_done`.
mod Tests
use my_rocket.Base.{
  ℕ, zero, suc, ◌+◌, ◌-◌, ◌≡◌, ◌<◌, refl, ◌∙◌, Bool, true, false, List, [], ◌∷◌, ◌++◌, length, ◌==◌,
  ◌&&◌, if◌then◌else◌, ℤ, pos, negsuc, Option, none, some, Text, arith, append-nil, append_assoc,
  ap, length-append,
}
use my_rocket.Rpc.Dispatcher.{codes}

-- rocket/common/exception.h
pub record RocketException : Type 0 where
  pub error_code : ℤ
  pub error_info : Text

-- How a callback ends: by return, or by one of the exceptions that `Run` tells apart.
pub data Ending : Type 0 where
  returned : Ending
  rocket_exception : RocketException → Ending
  std_exception unknown_exception : Ending

-- The objects that an interface points to, and frees in the end.
pub data Object : Type 0 where
  request response closure controller : Object

pub record RpcInterface : Type 0 where
  pub has_request : Bool
  pub has_response : Bool
  pub has_done : Bool
  pub has_controller : Bool
  pub references : ℕ
  pub errors : List (ℤ × Text)
  pub replies : ℕ
  pub freed : List Object

-- A new interface, with the one reference of its owner.
unfoldable pub make_interface : Bool → Bool → Bool → Bool → RpcInterface
make_interface req_base rsp_base done ctrl = record {
  has_request = req_base;
  has_response = rsp_base;
  has_done = done;
  has_controller = ctrl;
  references = 1;
  errors = [];
  replies = 0;
  freed = [];
}

-- A closure that still has its interface, or has not, and how its callback ends, if there is one.
pub record RpcClosure : Type 0 where
  pub has_interface : Bool
  pub callback : Option Ending

unfoldable pub reply : RpcInterface → RpcInterface
reply i = if i.has_done then record i { replies = i.replies + 1 } else i

-- `delete` of a pointer that is not null.
abbrev delete_if : Bool → Object → List Object
delete_if b x = if b then x ∷ [] else []

abbrev pub objects_of : RpcInterface → List Object
objects_of i =
    delete_if i.has_request request
    ++ (delete_if i.has_response response
        ++ (delete_if i.has_done closure ++ delete_if i.has_controller controller))

unfoldable pub destroy : RpcInterface → RpcInterface
destroy i = record i {
  has_request = false;
  has_response = false;
  has_done = false;
  has_controller = false;
  freed = i.freed ++ objects_of i;
}

-- `shared_ptr::reset`; the last reference runs the destructor, which replies and frees.
unfoldable pub release : RpcInterface → RpcInterface
unfolding reply destroy
release i =
    let i' = record i { references = i.references - 1 } in
    if i.references == 1 then destroy (reply i') else i'

unfoldable pub new_rpc_closure : Option Ending → RpcInterface → RpcClosure × RpcInterface
new_rpc_closure cb i =
    (record { has_interface = true; callback = cb }, record i { references = i.references + 1 })

-- What `Run` reports to the interface.
abbrev pub error_of : Option Ending → List (ℤ × Text)
error_of none = []
error_of (some returned) = []
error_of (some (rocket_exception e)) = (e.error_code, e.error_info) ∷ []
error_of (some std_exception) = (negsuc 0, codes "unkonwn std::exception") ∷ []
error_of (some unknown_exception) = (negsuc 0, codes "unkonwn exception") ∷ []

unfoldable pub run : RpcClosure → RpcInterface → RpcClosure × RpcInterface
unfolding release
run c i =
    if c.has_interface
    then (
      record c { has_interface = false },
      release (record i { errors = i.errors ++ error_of c.callback }),
    )
    else (c, i)

-- New closures for some callbacks, and the runs of closures in turn.
unfoldable pub new_all : List (Option Ending) → RpcInterface → RpcInterface
unfolding new_rpc_closure
new_all [] i = i
new_all (cb ∷ cbs) i = new_all cbs (new_rpc_closure cb i).1

unfoldable pub run_all : List (Option Ending) → RpcInterface → RpcInterface
unfolding run
run_all [] i = i
run_all (cb ∷ cbs) i = run_all cbs (run (record { has_interface = true; callback = cb }) i).1

unfoldable pub all_errors : List (Option Ending) → List (ℤ × Text)
all_errors [] = []
all_errors (cb ∷ cbs) = error_of cb ++ all_errors cbs

new_all_lem :
    (cbs : List (Option Ending)) (i : RpcInterface)
    → new_all cbs i ≡ record i { references = i.references + length cbs }
unfolding new_all new_rpc_closure
new_all_lem [] i = ground arith
new_all_lem (cb ∷ cbs) i = new_all_lem cbs _ ∙ ground arith

-- What `Run` puts into the thread's `RunTime`, which holds the number of an interface, or a null
-- pointer: that of its own interface only if this is null.
unfoldable pub remember : Option ℕ → Option ℕ → Option ℕ
remember none current = none
remember (some own) current = current

-- The interface with `k` references left, its owner's gone.
abbrev shared : RpcInterface → ℕ → List (ℤ × Text) → RpcInterface
shared i k es =
    if k == 0
    then destroy (reply (record i { references = 0; errors = es }))
    else record i { references = k; errors = es }

release-shared :
    (i : RpcInterface) (k : ℕ) (es : List (ℤ × Text))
    → release (record i { references = suc k; errors = es }) ≡ shared i k es
unfolding release
release-shared i zero es = refl
release-shared i (suc k) es = ground arith

shared_positive :
    (i : RpcInterface) (k : ℕ) (es : List (ℤ × Text))
    → shared i (suc k) es ≡ record i { references = suc k; errors = es }
shared_positive i k es = ground arith

run-shared :
    (cb : Option Ending) (i : RpcInterface) (k : ℕ) (es : List (ℤ × Text))
    → (run (record { has_interface = true; callback = cb }) (shared i (suc k) es)).1
      ≡ shared i k (es ++ error_of cb)
unfolding run
run-shared cb i k es = rw (shared_positive i k es) (release-shared i k (es ++ error_of cb))

run_all-shared :
    (cbs : List (Option Ending)) (i : RpcInterface) (k : ℕ) (es : List (ℤ × Text))
    → run_all cbs (shared i (length cbs + k) es) ≡ shared i k (es ++ all_errors cbs)
unfolding run_all all_errors
run_all-shared [] i k es = rw (append-nil es, counted) refl
  where
    counted : 0 + k ≡ k
    counted = omega arith
run_all-shared (cb ∷ cbs) i k es =
    let counted : suc (length cbs) + k ≡ suc (length cbs + k) = omega arith in
    rw (counted, run-shared cb i (length cbs + k) es)
      (run_all-shared cbs i k (es ++ error_of cb)
        ∙ ap (shared i k) (append_assoc es (error_of cb) (all_errors cbs)))

one_more : (n : ℕ) → 1 + n ≡ suc n
one_more n = omega arith

shared_fields :
    (req rsp done ctrl : Bool) (k : ℕ) (es : List (ℤ × Text))
    → let i = make_interface req rsp done ctrl in
      ((shared i k es).replies ≡ (if k == 0 && done then 1 else 0))
      × ((shared i k es).freed ≡ (if k == 0 then objects_of i else []))
      × ((shared i k es).errors ≡ es)
unfolding make_interface reply destroy
shared_fields req rsp true ctrl zero es = (refl, refl, refl)
shared_fields req rsp false ctrl zero es = (refl, refl, refl)
shared_fields req rsp done ctrl (suc k) es =
    let more : (suc k == 0) ≡ false = ground arith in rw more (refl, refl, refl)

-- When the owner of an interface has made closures and dropped it, and the first of them have run,
-- each once and however their callbacks ended, then, if these were all of the closures, the reply
-- to the call has been made once, if there is one to make, and each object that the interface had
-- has been freed once; if some are left, there is no reply yet and nothing is freed. The errors of
-- the callbacks have been reported in order.
pub run_all-replies :
    (req rsp done ctrl : Bool) (before after : List (Option Ending))
    → let start = make_interface req rsp done ctrl in
      let i = run_all before (release (new_all (before ++ after) start)) in
      (i.replies ≡ (if length after == 0 && done then 1 else 0))
      × (i.freed ≡ (if length after == 0 then objects_of start else []))
      × (i.errors ≡ all_errors before)
run_all-replies req rsp done ctrl before after =
    let start = make_interface req rsp done ctrl in
    let count = length-append before after in
    let dropped : release (new_all (before ++ after) start)
        ≡ shared start (length before + length after) [] =
      unfold make_interface in
      rw (new_all_lem (before ++ after) start, count, one_more (length before + length after))
        (release-shared start (length before + length after) []) in
    rw (dropped, run_all-shared before start (length after) [])
      (shared_fields req rsp done ctrl (length after) (all_errors before))

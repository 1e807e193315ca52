-- ===== src/Common/Mutex.antt =====
-- rocket/common/mutex.h: what a `ScopeMutex` asks of its mutex. `Call` is a call made on the guard
-- inside its scope, `Request` one that reaches `pthread_mutex_lock` or `pthread_mutex_unlock`.
mod Tests
use my_rocket.Base.{
  ℕ, suc, ◌+◌, ◌≡◌, refl, Bool, true, false, List, [], ◌∷◌, ◌++◌, if◌then◌else◌, arith,
}

pub data Call : Type 0 where
  lock unlock : Call

pub data Request : Type 0 where
  acquire release : Request

pub record ScopeMutex : Type 0 where
  pub is_lock : Bool

-- The constructor.
unfoldable pub enter : List Request × ScopeMutex
enter = (acquire ∷ [], record { is_lock = true })

-- `unlock` does not clear the flag, and `lock` does not set it.
unfoldable pub step : ScopeMutex → Call → List Request × ScopeMutex
step g lock = if g.is_lock then ([], g) else (acquire ∷ [], g)
step g unlock = if g.is_lock then (release ∷ [], g) else ([], g)

-- The destructor.
unfoldable pub leave : ScopeMutex → List Request × ScopeMutex
leave g = (release ∷ [], record { is_lock = false })

unfoldable pub steps : ScopeMutex → List Call → List Request × ScopeMutex
steps g [] = ([], g)
steps g (c ∷ cs) = let (now, g') = step g c in let (later, g'') = steps g' cs in (now ++ later, g'')

-- A whole scope.
unfoldable pub scope : List Call → List Request
scope cs =
    let (first, g) = enter in
    let (inner, g') = steps g cs in let (last, g'') = leave g' in first ++ (inner ++ last)

unfoldable pub releases : List Request → ℕ
releases [] = 0
releases (acquire ∷ rs) = releases rs
releases (release ∷ rs) = suc (releases rs)

unfoldable pub acquires : List Request → ℕ
acquires [] = 0
acquires (acquire ∷ rs) = suc (acquires rs)
acquires (release ∷ rs) = acquires rs

unfoldable pub unlocks : List Call → ℕ
unlocks [] = 0
unlocks (lock ∷ cs) = unlocks cs
unlocks (unlock ∷ cs) = suc (unlocks cs)

held : ScopeMutex
held = record { is_lock = true }

count-append :
    (xs ys : List Request)
    → (releases (xs ++ ys) ≡ releases xs + releases ys)
      × (acquires (xs ++ ys) ≡ acquires xs + acquires ys)
unfolding releases acquires
count-append [] ys = (omega arith, omega arith)
count-append (acquire ∷ xs) ys = let (a, b) = count-append xs ys in (omega arith, omega arith)
count-append (release ∷ xs) ys = let (a, b) = count-append xs ys in (omega arith, omega arith)

steps-held :
    (cs : List Call) → (releases (steps held cs).0 ≡ unlocks cs) × (acquires (steps held cs).0 ≡ 0)
unfolding steps step held releases acquires unlocks
steps-held [] = (refl, refl)
steps-held (lock ∷ cs) = steps-held cs
steps-held (unlock ∷ cs) = let (a, b) = steps-held cs in (omega arith, omega arith)

-- Whatever calls are made on the guard, a scope takes the mutex once and releases it once for each
-- explicit `unlock` and once more at its end: it is balanced exactly if `unlock` is never called.
pub scope_balance :
    (cs : List Call) → (acquires (scope cs) ≡ 1) × (releases (scope cs) ≡ unlocks cs + 1)
unfolding scope enter leave
scope_balance cs =
    let inner = (steps held cs).0 in
    let (r, a) = steps-held cs in
    let (r', a') = count-append inner (release ∷ []) in
    unfold held releases acquires in (omega (arith, r, a, r', a'), omega (arith, r, a, r', a'))

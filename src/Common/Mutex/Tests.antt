-- ===== src/Common/Mutex/Tests.antt =====
-- Scopes of rocket/common/mutex.h.
use my_rocket.Base.{◌≡◌, refl, [], ◌∷◌, List}
use my_rocket.Common.Mutex.{Call, unlock, acquire, release, scope, enter, step, steps, leave}

-- The way that the event loop uses a guard.
abbrev one_unlock : List Call
one_unlock = unlock ∷ []

unlocked_once : scope one_unlock ≡ acquire ∷ release ∷ release ∷ []
unfolding scope enter steps step leave
unlocked_once = refl

-- ===== src/Net/EventLoop/Simple.antt =====
-- Kernels for runs of eventloop.cc: an interest list as a function.
use my_rocket.Base.{ℕ, ◌≡◌, refl, Bool, true, false, leb, Option, none, some, if◌then◌else◌, ◌==◌}
use my_rocket.Net.EventLoop.{Epoll, Interest, CtlOp, ctl_add, ctl_mod, ctl_del}

abbrev pub Kernel : Type 0
Kernel = ℕ → Option Interest

abbrev pub put : Kernel → ℕ → Option Interest → Kernel
put k fd e = λ j. if j == fd then e else k j

-- Nothing is watched.
abbrev pub bare : Kernel
bare = λ j. none

-- Some descriptors cannot be watched.
module _ (refused : ℕ → Bool) where
  unfoldable pub change : Kernel → CtlOp → ℕ → Interest → Kernel
  change k ctl_add fd e = if refused fd then k else put k fd (some e)
  change k ctl_mod fd e = if refused fd then k else put k fd (some e)
  change k ctl_del fd e = if refused fd then k else put k fd none

  pub change-refuses :
      (k : Kernel) (op : CtlOp) (fd j : ℕ) (e : Interest)
      → refused fd ≡ true
      → change k op fd e j ≡ k j
  unfolding change
  change-refuses k ctl_add fd j e r = rw r refl
  change-refuses k ctl_mod fd j e r = rw r refl
  change-refuses k ctl_del fd j e r = rw r refl

  unfoldable pub picky_kernel : Epoll Kernel
  unfolding change
  picky_kernel = record {
    ctl = change;
    refuses = λ k op fd. refused fd;
    watched = λ k. k;
    watched-refused = change-refuses;
    watched-add = λ k fd j e h r. rw r refl;
    watched-mod = λ k fd j e h r. rw r refl;
    watched-del = λ k fd j e h r. rw r refl;
  }

-- Every call succeeds.
unfoldable pub kernel : Epoll Kernel
unfolding picky_kernel
kernel = picky_kernel (λ fd. false)

-- Descriptors from 100 on cannot be watched.
unfoldable pub limited_kernel : Epoll Kernel
unfolding picky_kernel
limited_kernel = picky_kernel (leb 100)

-- ===== src/Net/EventLoop/Watching.antt =====
-- `m_listen_fds` of eventloop.cc and what the kernel watches.
use my_rocket.Base.{
  ℕ, ◌≡◌, ◌≢◌, ◌↔◌, ◌⊎◌, ◌∙◌, sym, refl, true, false, List, [], ◌∷◌, if◌then◌else◌, ◌==◌, Option,
  none, some, arith, Bool-cases, inl, inr, ==_iff,
}
use my_rocket.Net.FdEvent.{FdEvent}
use my_rocket.Net.EventLoop.{
  Epoll, Interest, ctl_del, add_op, EventLoop, contains, insert_fd, erase_fd, add_to_epoll,
  delete_to_epoll,
}

contains-insert :
    (j fd : ℕ) (xs : List ℕ)
    → contains j (insert_fd fd xs) ≡ (if j == fd then true else contains j xs)
unfolding contains
contains-insert j fd xs = elim (Bool-cases (contains fd xs)) [
  | inl e ↦ elim (Bool-cases (j == fd)) [
    | inl f ↦ let same_fd : j ≡ fd = (==_iff j fd).0 f in rw (e, f, same_fd) (rw e refl)
    | inr f ↦ rw (e, f) refl
  ]
  | inr e ↦ rw e (ground arith)
]

contains-erase :
    (j fd : ℕ) (xs : List ℕ)
    → contains j (erase_fd fd xs) ≡ (if j == fd then false else contains j xs)
unfolding contains erase_fd
contains-erase j fd [] = ground arith
contains-erase j fd (x ∷ xs) = ground (arith, contains-erase j fd xs)

module _ {K : Type 0} (epoll : Epoll K) where
  -- The loop lists exactly the descriptors that the kernel watches.
  abbrev pub InSync : EventLoop K → Type 0
  InSync l = (fd : ℕ) → (contains fd l.listen_fds ≡ true) ↔ (epoll.watched l.kernel fd ≢ none)

  abbrev pub mask : FdEvent → Interest
  mask e = record { epoll_in = e.epoll_in; epoll_out = e.epoll_out }

  watched-add_to_epoll :
      (e : FdEvent) (l : EventLoop K)
      → InSync l
      → epoll.refuses l.kernel (add_op epoll e l) e.fd ≡ false
      → (j : ℕ)
      → epoll.watched (add_to_epoll epoll e l).kernel j
        ≡ (if j == e.fd then some (mask e) else epoll.watched l.kernel j)
  unfolding add_to_epoll
  watched-add_to_epoll e l s taken j = elim (Bool-cases (contains e.fd l.listen_fds)) [
    | inl h ↦ rw h (epoll.watched-mod l.kernel e.fd j (mask e) ((s e.fd).0 h) (rw h at taken))
    | inr h ↦ rw h (
        epoll.watched-add l.kernel e.fd j (mask e) (absent (epoll.watched l.kernel e.fd) refl h)
          (rw h at taken))
  ]
    where
      absent :
          (o : Option Interest)
          → epoll.watched l.kernel e.fd ≡ o
          → contains e.fd l.listen_fds ≡ false
          → epoll.watched l.kernel e.fd ≡ none
      absent none p h = p
      absent (some i) p h =
          let there : contains e.fd l.listen_fds ≡ true = (s e.fd).1 (λ n. cc (p, n)) in cc

  listed-add :
      (e : FdEvent) (l : EventLoop K) (j : ℕ)
      → contains j (add_to_epoll epoll e l).listen_fds
        ≡ (if j == e.fd then true else contains j l.listen_fds)
  unfolding add_to_epoll
  listed-add e l j = contains-insert j e.fd l.listen_fds

  -- An event that the kernel takes.
  pub add_to_epoll-taken :
      (e : FdEvent) (l : EventLoop K)
      → InSync l
      → epoll.refuses l.kernel (add_op epoll e l) e.fd ≡ false
      → ((j : ℕ)
          → epoll.watched (add_to_epoll epoll e l).kernel j
            ≡ (if j == e.fd then some (mask e) else epoll.watched l.kernel j))
        × InSync (add_to_epoll epoll e l)
  add_to_epoll-taken e l s taken = (
    watched-add_to_epoll e l s taken,
    λ j.
        rw (listed-add e l j, watched-add_to_epoll e l s taken j)
          (elim (Bool-cases (j == e.fd)) [
            | inl h ↦ rw h ((λ _ p. cc), (λ _. refl))
            | inr h ↦ rw h (s j)
          ]),
  )

  -- On a loop that lists exactly what the kernel watches, adding an event whose `epoll_ctl` succeeds
  -- makes the kernel watch its descriptor with the event's bits, whether or not it did before, leaves the
  -- others alone, and keeps list and kernel in step. If the call fails, the kernel watches what it
  -- did before, the descriptor is listed all the same, and list and kernel are still in step only if it was
  -- listed before.
  pub add_to_epoll-InSync :
      (e : FdEvent) (l : EventLoop K)
      → InSync l
      → let l' = add_to_epoll epoll e l in
        let refused = epoll.refuses l.kernel (add_op epoll e l) e.fd in
        ((refused ≡ false)
          × ((j : ℕ)
              → epoll.watched l'.kernel j
                ≡ (if j == e.fd then some (mask e) else epoll.watched l.kernel j))
          × InSync l')
        ⊎ ((refused ≡ true)
            × ((j : ℕ) → epoll.watched l'.kernel j ≡ epoll.watched l.kernel j)
            × (contains e.fd l'.listen_fds ≡ true)
            × (InSync l' ↔ (contains e.fd l.listen_fds ≡ true)))
  unfolding add_to_epoll
  add_to_epoll-InSync e l s = elim (Bool-cases (epoll.refuses l.kernel (add_op epoll e l) e.fd)) [
    | inr taken ↦ let (watches, s') = add_to_epoll-taken e l s taken in inl (taken, watches, s')
    | inl refused ↦
        let same : (j : ℕ)
            → epoll.watched (epoll.ctl l.kernel (add_op epoll e l) e.fd (mask e)) j
              ≡ epoll.watched l.kernel j =
          λ j. epoll.watched-refused l.kernel (add_op epoll e l) e.fd j (mask e) refused in
        let listed : contains e.fd (insert_fd e.fd l.listen_fds) ≡ true =
          contains-insert e.fd e.fd l.listen_fds ∙ rw ((==_iff e.fd e.fd).1 refl) refl in
        inr (
          refused,
          same,
          listed,
          (
            (λ s'. (s e.fd).1 (λ n. (s' e.fd).0 listed (same e.fd ∙ n))),
            (λ there j.
                let kept : insert_fd e.fd l.listen_fds ≡ l.listen_fds = rw there refl in
                rw kept
                  ((λ p n. (s j).0 p (sym (same j) ∙ n)), (λ n. (s j).1 (λ m. n (same j ∙ m))))),
          ),
        )
  ]

  unlisted_unwatched :
      (l : EventLoop K) (fd : ℕ)
      → InSync l
      → contains fd l.listen_fds ≡ false
      → (o : Option Interest) → epoll.watched l.kernel fd ≡ o
      → o ≡ none
  unlisted_unwatched l fd s h none p = refl
  unlisted_unwatched l fd s h (some i) p =
      let there : contains fd l.listen_fds ≡ true = (s fd).1 (λ n. cc (p, n)) in cc

  deleted :
      (e : FdEvent) (l : EventLoop K)
      → InSync l
      → epoll.refuses l.kernel ctl_del e.fd ≡ false
      → (j : ℕ)
      → (contains j (delete_to_epoll epoll e l).listen_fds
          ≡ (if j == e.fd then false else contains j l.listen_fds))
        × (epoll.watched (delete_to_epoll epoll e l).kernel j
            ≡ (if j == e.fd then none else epoll.watched l.kernel j))
  unfolding delete_to_epoll
  deleted e l s taken j = elim (Bool-cases (contains e.fd l.listen_fds)) [
    | inl h ↦ rw h (
      contains-erase j e.fd l.listen_fds,
      epoll.watched-del l.kernel e.fd j (mask e) ((s e.fd).0 h) taken,
    )
    | inr h ↦ rw h (elim (Bool-cases (j == e.fd)) [
      | inl f ↦
          let same_fd : j ≡ e.fd = (==_iff j e.fd).0 f in
          rw f (rw same_fd h, rw same_fd (unlisted_unwatched l e.fd s h _ refl))
      | inr f ↦ rw f (refl, refl)
    ])
  ]

  -- Deleting an event, if the kernel does not refuse it, ends the watch on its descriptor, or changes nothing if there is none, and
  -- leaves the others alone; listed and watched descriptors stay the same.
  pub delete_to_epoll-InSync :
      (e : FdEvent) (l : EventLoop K)
      → InSync l
      → epoll.refuses l.kernel ctl_del e.fd ≡ false
      → ((j : ℕ)
          → epoll.watched (delete_to_epoll epoll e l).kernel j
            ≡ (if j == e.fd then none else epoll.watched l.kernel j))
        × InSync (delete_to_epoll epoll e l)
  delete_to_epoll-InSync e l s taken = (
    (λ j. (deleted e l s taken j).1),
    λ j.
        rw ((deleted e l s taken j).0, (deleted e l s taken j).1)
          (elim (Bool-cases (j == e.fd)) [
            | inl h ↦ rw h ((λ p. cc), (λ n. absurd (n refl)))
            | inr h ↦ rw h (s j)
          ]),
  )

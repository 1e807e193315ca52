-- ===== src/Net/FdEvent.antt =====
-- rocket/net/fd_event.h, fd_event.cc, fd_event_group.h and fd_event_group.cc. Of the epoll mask only
-- the bits EPOLLIN and EPOLLOUT are ever set, and they are two flags. A callback is a number; `none`
-- is an empty `std::function`.
mod Tests
use my_rocket.Base.{
  ℕ, zero, suc, ◌+◌, ◌-◌, ◌*◌, ◌/◌, ◌%◌, ◌==◌, ◌≤◌, ◌<◌, ◌≡◌, ◌≢◌, refl, ap, ◌∙◌, Bool, true, false,
  List, [], ◌∷◌, ◌++◌, length, get_elem?, if◌then◌else◌, ltb, ℤ, pos, negsuc, Option, none, some,
  Outcome, ok, fault, ◌>>=◌, or_fault, arith, length-append, Bool-cases, inl, inr, get_elem?-append,
}

pub data TriggerEvent : Type 0 where
  in_event out_event error_event : TriggerEvent

pub record FdEvent : Type 0 where
  pub fd : ℕ
  pub epoll_in : Bool
  pub epoll_out : Bool
  pub read_callback : Option ℕ
  pub write_callback : Option ℕ
  pub error_callback : Option ℕ

unfoldable pub make_fd_event : ℕ → FdEvent
make_fd_event fd = record {
  fd = fd;
  epoll_in = false;
  epoll_out = false;
  read_callback = none;
  write_callback = none;
  error_callback = none;
}

unfoldable pub handler : FdEvent → TriggerEvent → Option ℕ
handler e in_event = e.read_callback
handler e out_event = e.write_callback
handler e error_event = e.error_callback

abbrev pub set_error : Option ℕ → FdEvent → FdEvent
set_error g e = elim e.error_callback [
  | none ↦ record e { error_callback = g }
  | some _ ↦ record e { error_callback = none }
]

-- Every type but `IN_EVENT` counts as `OUT_EVENT`.
unfoldable pub listen : TriggerEvent → Option ℕ → Option ℕ → FdEvent → FdEvent
listen in_event f g e = set_error g (record e { epoll_in = true; read_callback = f })
listen out_event f g e = set_error g (record e { epoll_out = true; write_callback = f })
listen error_event f g e = set_error g (record e { epoll_out = true; write_callback = f })

unfoldable pub cancel : TriggerEvent → FdEvent → FdEvent
cancel in_event e = record e { epoll_in = false }
cancel out_event e = record e { epoll_out = false }
cancel error_event e = record e { epoll_out = false }

-- O_NONBLOCK of Linux.
abbrev o_nonblock : ℕ
o_nonblock = 2048

abbrev is_nonblock : ℕ → Bool
is_nonblock flag = flag / o_nonblock % 2 == 1

-- `setNonBlock`: the flags of the descriptor, that F_GETFL gives, behind it. A `fcntl` that fails gives
-- -1, all bits set, and nothing happens.
unfoldable pub set_non_block : ℕ → ℕ
set_non_block flag = if is_nonblock flag then flag else flag + o_nonblock

-- Behind `setNonBlock` the descriptor does not block, and no flag but O_NONBLOCK has changed; a second
-- call changes nothing.
pub set_non_block_lem :
    (flag : ℕ)
    → (is_nonblock (set_non_block flag) ≡ true)
      × (set_non_block flag % o_nonblock ≡ flag % o_nonblock)
      × (set_non_block flag / (2 * o_nonblock) ≡ flag / (2 * o_nonblock))
      × (set_non_block (set_non_block flag) ≡ set_non_block flag)
unfolding set_non_block
set_non_block_lem flag = elim (Bool-cases (is_nonblock flag)) [
  | inl e ↦ rw e (e, refl, refl, rw e refl)
  | inr e ↦
      let bit : flag / 2048 % 2 ≡ 0 = ground (arith, e) in
      let next : (flag + 2048) / 2048 % 2 ≡ 1 = omega (arith, bit) in
      let now : is_nonblock (flag + o_nonblock) ≡ true = rw next refl in
      rw e (now, omega arith, omega (arith, bit), rw now refl)
]

-- `push_back(new FdEvent(i))` for `n` numbers from `i` on.
unfoldable pub grow : ℕ → ℕ → List FdEvent → List FdEvent
grow i zero g = g
grow i (suc n) g = grow (i + 1) n (g ++ make_fd_event i ∷ [])

-- `FdEventGroup(size)`
unfoldable pub make_group : ℕ → List FdEvent
make_group size = grow 0 size []

-- The static `GetFdEventGroup`: the one group, made by the first call.
unfoldable pub get_fd_event_group : Option (List FdEvent) → List FdEvent
unfolding make_group
get_fd_event_group none = make_group 128
get_fd_event_group (some g) = g

-- A negative descriptor is a huge `size_t`, and the group does not grow for it.
unfoldable pub get_fd_event : ℤ → List FdEvent → Outcome (FdEvent × List FdEvent)
get_fd_event (negsuc n) g = fault
get_fd_event (pos fd) g =
    if ltb fd (length g)
    then (or_fault (get_elem? g fd) >>= λ e. ok (e, g))
    else (let g' = grow (length g) (fd * 3 / 2 - length g) g in
        or_fault (get_elem? g' fd) >>= λ e. ok (e, g'))

-- The event at each place has that place's descriptor.
abbrev pub IsIndexed : List FdEvent → Type 0
IsIndexed g = (i : ℕ) → i < length g → (e : FdEvent) × (get_elem? g i ≡ some e) × (e.fd ≡ i)

get_elem?-append_lt :
    (i : ℕ) (xs ys : List FdEvent) → i < length xs → get_elem? (xs ++ ys) i ≡ get_elem? xs i
get_elem?-append_lt i [] ys h = absurd (omega arith)
get_elem?-append_lt zero (x ∷ xs) ys h = refl
get_elem?-append_lt (suc i) (x ∷ xs) ys h = get_elem?-append_lt i xs ys (omega arith)

append-IsIndexed : (g : List FdEvent) → IsIndexed g → IsIndexed (g ++ make_fd_event (length g) ∷ [])
unfolding make_fd_event
append-IsIndexed g h i k = elim (Bool-cases (ltb i (length g))) [
  | inl e ↦
      let (x, at_i, fd) = h i (ground arith) in
      (x, get_elem?-append_lt i g _ (ground arith) ∙ at_i, fd)
  | inr e ↦
      let last : i ≡ length g = ground (arith, length-append g (make_fd_event (length g) ∷ [])) in
      (
        make_fd_event (length g),
        get_elem?-append i g [] _ last,
        unfold make_fd_event in omega arith,
      )
]

grow-IsIndexed :
    (n i : ℕ) (g : List FdEvent)
    → i ≡ length g
    → IsIndexed g
    → IsIndexed (grow i n g) × (length (grow i n g) ≡ length g + n)
unfolding grow
grow-IsIndexed zero i g e h = (h, omega arith)
grow-IsIndexed (suc n) i g e h =
    let next = g ++ make_fd_event i ∷ [] in
    let size = length-append g (make_fd_event i ∷ []) in
    let (h', len) =
      grow-IsIndexed n (i + 1) next (omega (arith, size)) (rw e (append-IsIndexed g h)) in
    (h', omega (arith, len, size))

pub make_group-IsIndexed : (n : ℕ) → IsIndexed (make_group n) × (length (make_group n) ≡ n)
unfolding make_group
make_group-IsIndexed n =
    let (h, len) = grow-IsIndexed n 0 [] refl (λ i k. absurd (omega arith)) in
    (h, omega (arith, len))

-- A group of at least two indexed events, such as the global one of 128, has an event for every
-- descriptor that is not negative: the call returns the event of that descriptor, and the group stays
-- indexed and does not shrink.
pub get_fd_event_lem :
    (fd : ℕ) (g : List FdEvent)
    → 2 ≤ length g
    → IsIndexed g
    → (e : FdEvent) × (g' : List FdEvent) × (get_fd_event (pos fd) g ≡ ok (e, g'))
      × (e.fd ≡ fd)
      × IsIndexed g'
      × (length g ≤ length g')
unfolding get_fd_event
get_fd_event_lem fd g two h = elim (Bool-cases (ltb fd (length g))) [
  | inl e ↦
      let (x, at_fd, same_fd) = h fd (ground arith) in
      (x, g, rw (e, at_fd) refl, same_fd, h, omega arith)
  | inr e ↦
      let n = fd * 3 / 2 - length g in
      let (h', len) = grow-IsIndexed n (length g) g refl h in
      let (x, at_fd, same_fd) = h' fd (ground (arith, len)) in
      (x, grow (length g) n g, rw (e, at_fd) refl, same_fd, h', omega (arith, len))
]

-- A second `listen` takes the error handler away that the first has set: it neither keeps the old
-- one nor sets the new.
pub listen_twice :
    (e : FdEvent) (s t : TriggerEvent) (f f' g' : Option ℕ) (g : ℕ)
    → e.error_callback ≡ none
    → (handler (listen s f (some g) e) error_event ≡ some g)
      × (handler (listen t f' g' (listen s f (some g) e)) error_event ≡ none)
unfolding listen handler
listen_twice e s t f f' g' g h = ground arith

-- ===== src/Tcp/Buffer/Tests.antt =====
-- Runs of rocket/net/tcp/tcp_buffer.cc.
use my_rocket.Base.{ok, ◌≡◌, refl, List, [], ◌∷◌, arith}
use my_rocket.Tcp.Buffer.{TcpBuffer, init}
use my_rocket.Tcp.Buffer.Invariant.{IsValid, init-IsValid}
use my_rocket.Tcp.Buffer.Contents.{contents, Op, write, read, run, run_queue, total, run_refines}

abbrev three : TcpBuffer
three = record { read_index = 1; write_index = 3; size = 3; buffer = 7 ∷ 8 ∷ 9 ∷ [] }

abbrev some_ops : List Op
some_ops = write (1 ∷ 2 ∷ 3 ∷ []) ∷ read 2 ∷ write (4 ∷ []) ∷ read 9 ∷ []

three-IsValid : IsValid three
three-IsValid = record { ordered = omega arith; bounded = omega arith }

queue_run : run_queue [] some_ops ≡ [] ∷ (1 ∷ 2 ∷ []) ∷ [] ∷ (3 ∷ 4 ∷ []) ∷ []
unfolding run_queue
queue_run = refl

run_refines_example : run (init 2) some_ops ≡ ok (run_queue (contents (init 2)) some_ops)
unfolding init total
run_refines_example = run_refines some_ops (init 2) (init-IsValid 2) (omega arith)

-- ===== src/Examples/Client.antt =====
-- A client that asks for a queue of two pages.
use l4rdma.Prelude.{◌<◌, ◌≡◌, ◌⊎◌, refl, none, some, true, ltb}
use l4rdma.Client.{Kernel, mem_alloc}
use l4rdma.Client.Setup.{
  System, Step, Steps, start, waiting, returned, publishing, serving, finished, schedule, allocate,
  register, publish, notify, here, later,
}
use l4rdma.Client.Setup.Outcome.{
  create_queue-returned, create_queue-returns, create_queue-waits, all_granted,
}

-- No queue of more than 16 pages gets memory.
abbrev kernel : Kernel
kernel = record {
  run_thread = true;
  cap_alloc = some 0x41;
  mem_alloc_ok = λ size. ltb size 0x1_0001;
  attach = λ size. some 0x70_0000;
  register_obj = some 0x52;
  ipc_send = true;
  ipc_receive = true;
}

abbrev registered : System
registered = record start {
  stage = publishing;
  memory = record { dataspace = some 0x41; addr = some 0x70_0000; size = some 0x2000 };
  registered = some 0x52;
}

abbrev notified : System
notified = record registered { stage = serving; result = some 0x52; server = returned (some 0x52) }

to_registered : Steps kernel 0x2000 start 3 registered
unfolding mem_alloc
to_registered = later (later (later here (schedule _ refl)) (allocate _ refl)) (register _ refl)

to_notified : Steps kernel 0x2000 start 5 notified
to_notified = later (later to_registered (publish _ refl)) (notify _ refl refl refl refl)

create_queue-returned_example :
    (all_granted kernel 0x2000 ≡ true) × (some 0x52 ≡ kernel.register_obj)
unfolding mem_alloc
create_queue-returned_example = create_queue-returned kernel 0x2000 refl to_notified refl

create_queue-returns_example :
    (registered.server ≡ returned (some 0x52))
    ⊎ ((3 < 5) × (t : System) × Step kernel 0x2000 registered t)
unfolding mem_alloc
create_queue-returns_example = create_queue-returns kernel 0x2000 refl refl to_registered

-- There is no memory for 4 MiB: the thread has ended.
abbrev ended : System
ended = record start {
  stage = finished;
  memory = record { dataspace = some 0x41; addr = none; size = none };
}

to_ended : Steps kernel 0x40_0000 start 2 ended
unfolding mem_alloc
to_ended = later (later here (schedule _ refl)) (allocate _ refl)

create_queue-waits_example : ended.server ≡ waiting
unfolding mem_alloc
create_queue-waits_example = create_queue-waits kernel 0x40_0000 refl refl to_ended

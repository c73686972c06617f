-- ===== src/Client/Setup.antt =====
-- server/src/wq_interface.cc, cq_interface.cc, server_interface.cc: a thread that sets up a queue
-- and serves it, and the call of the server that starts it and waits for its message.
pub mod Outcome
use l4rdma.Prelude.{ℕ, suc, Option, none, some, Bool, true, false, ◌≡◌, ◌&&◌, if◌then◌else◌}
use l4rdma.Client.{Cap, QueueMemory, Kernel, mem_alloc}

-- Where the thread is in `setup_and_start`.
pub data Stage : Type 0 where
  scheduling allocating registering publishing notifying : Stage
  serving unregistering cleaning finished : Stage

-- `op_create_wq` or `op_create_cq`: it waits for the thread without a timeout. It returns what it
-- then finds in its variable, also where the wait ends with an error.
pub data Server : Type 0 where
  waiting : Server
  returned : Option Cap → Server

-- `result` is the variable of the server that the thread writes through its pointer.
pub record System : Type 0 where
  pub stage : Stage
  pub memory : QueueMemory
  pub registered : Option Cap
  pub result : Option Cap
  pub server : Server

abbrev pub no_memory : QueueMemory
no_memory = record { dataspace = none; addr = none; size = none }

-- The server has just started the thread.
abbrev pub start : System
start = record {
  stage = scheduling;
  memory = no_memory;
  registered = none;
  result = none;
  server = waiting;
}

abbrev pub is_some {ℓ} : {A : Type ℓ} → Option A → Bool
is_some none = false
is_some (some x) = true

-- The steps of the thread; the message is sent and received in one step. Every early return ends
-- the thread. An exception out of the loop takes the object from the registry and frees the memory.
pub data Step (k : Kernel) (qsize : ℕ) : System → System → Type 0 where
  schedule :
      (s : System)
      → s.stage ≡ scheduling
      → Step k qsize s (record s { stage = if k.run_thread then allocating else finished })
  allocate :
      (s : System)
      → s.stage ≡ allocating
      → Step k qsize s (record s {
        stage = if (mem_alloc k qsize).0 then registering else finished;
        memory = (mem_alloc k qsize).1;
      })
  register :
      (s : System)
      → s.stage ≡ registering
      → Step k qsize s (record s {
        stage = if is_some k.register_obj then publishing else finished;
        registered = k.register_obj;
      })
  publish :
      (s : System)
      → s.stage ≡ publishing
      → Step k qsize s (record s { stage = notifying; result = s.registered })
  notify :
      (s : System)
      → s.stage ≡ notifying
      → s.server ≡ waiting
      → k.ipc_send ≡ true
      → k.ipc_receive ≡ true
      → Step k qsize s (record s { stage = serving; server = returned s.result })
  not_sent :
      (s : System)
      → s.stage ≡ notifying
      → k.ipc_send ≡ false
      → Step k qsize s (record s { stage = finished })
  not_received :
      (s : System)
      → s.server ≡ waiting
      → k.ipc_receive ≡ false
      → Step k qsize s (record s { server = returned s.result })
  serve : (s : System) → s.stage ≡ serving → Step k qsize s s
  stop : (s : System) → s.stage ≡ serving → Step k qsize s (record s { stage = unregistering })
  unregister :
      (s : System)
      → s.stage ≡ unregistering
      → Step k qsize s (record s { stage = cleaning; registered = none })
  clean :
      (s : System)
      → s.stage ≡ cleaning
      → Step k qsize s (record s { stage = finished; memory = no_memory })

pub data Steps (k : Kernel) (qsize : ℕ) (s : System) : ℕ → System → Type 0 where
  here : Steps k qsize s 0 s
  later :
      {n : ℕ} {t u : System} → Steps k qsize s n t → Step k qsize t u → Steps k qsize s (suc n) u

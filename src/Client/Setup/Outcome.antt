-- ===== src/Client/Setup/Outcome.antt =====
-- server/src/server_interface.cc, wq_interface.cc, cq_interface.cc: what becomes of a call that
-- creates a queue.
use native.Mathlib.Decide.{dec_lt}
use l4rdma.Prelude.{
  ℕ, suc, ◌≤◌, ◌<◌, Option, Bool, true, false, ◌≡◌, refl, ◌⊎◌, inl, inr, ◌&&◌, if◌then◌else◌, arith,
  Bool-cases, subst, sym,
}
use l4rdma.Client.{Kernel, Cap, mem_alloc}
use l4rdma.Client.Setup.{
  Stage, Server, System, Step, Steps, start, is_some, scheduling, allocating, registering,
  publishing, notifying, serving, unregistering, cleaning, finished, waiting, returned, schedule,
  allocate, register, publish, notify, not_sent, not_received, serve, stop, unregister, clean, here,
  later,
}

-- Every answer that the thread needs before the server is told.
abbrev pub all_granted : Kernel → ℕ → Bool
all_granted k qsize = k.run_thread && (mem_alloc k qsize).0 && is_some k.register_obj && k.ipc_send

Server-cases : (v : Server) → (v ≡ waiting) ⊎ ((c : Option Cap) × (v ≡ returned c))
Server-cases waiting = inl refl
Server-cases (returned c) = inr (c, refl)

module _ (k : Kernel) (qsize : ℕ) where
  abbrev Done : Server → Type 0
  Done server = (server ≡ returned k.register_obj) × (all_granted k qsize ≡ true)

  -- What holds after `n` steps at each stage.
  abbrev At : ℕ → Stage → Server → Option Cap → Option Cap → Type 0
  At n scheduling server registered result = (server ≡ waiting) × (n ≡ 0)
  At n allocating server registered result = (server ≡ waiting) × (n ≡ 1) × (k.run_thread ≡ true)
  At n registering server registered result =
      (server ≡ waiting) × (n ≡ 2) × (k.run_thread ≡ true) × ((mem_alloc k qsize).0 ≡ true)
  At n publishing server registered result =
      (server ≡ waiting)
      × (n ≡ 3)
      × (k.run_thread ≡ true)
      × ((mem_alloc k qsize).0 ≡ true)
      × (is_some k.register_obj ≡ true)
      × (registered ≡ k.register_obj)
  At n notifying server registered result =
      (server ≡ waiting)
      × (n ≡ 4)
      × (k.run_thread ≡ true)
      × ((mem_alloc k qsize).0 ≡ true)
      × (is_some k.register_obj ≡ true)
      × (result ≡ k.register_obj)
  At n serving server registered result = Done server
  At n unregistering server registered result = Done server
  At n cleaning server registered result = Done server
  At n finished server registered result =
      ((server ≡ waiting) × (all_granted k qsize ≡ false)) ⊎ Done server

  abbrev Inv : ℕ → System → Type 0
  Inv n s = At n s.stage s.server s.registered s.result

  Inv-stage :
      (n : ℕ) (s : System) (g : Stage)
      → s.stage ≡ g
      → Inv n s
      → At n g s.server s.registered s.result
  Inv-stage n s g e inv = subst (λ g'. At n g' s.server s.registered s.result) e inv

  Step-Inv :
      (n : ℕ) {s t : System} → k.ipc_receive ≡ true → Step k qsize s t → Inv n s → Inv (suc n) t
  Step-Inv n r (schedule s e) inv =
      let at = Inv-stage n s scheduling e inv in
      let After : Bool → Type 0 =
        λ b. At (suc n) (if b then allocating else finished) s.server s.registered s.result in
      elim (Bool-cases k.run_thread) [
        | inl y ↦ subst After (sym y) (ground (arith, at))
        | inr x ↦ subst After (sym x) (inl (at.0, ground (arith, x)))
      ]
  Step-Inv n r (allocate s e) inv =
      let at = Inv-stage n s allocating e inv in
      elim (Bool-cases (mem_alloc k qsize).0) [
        | inl y ↦ rw y (ground (arith, at))
        | inr x ↦ rw x (inl (at.0, ground (arith, at)))
      ]
  Step-Inv n r (register s e) inv =
      let at = Inv-stage n s registering e inv in
      elim (Bool-cases (is_some k.register_obj)) [
        | inl y ↦ rw y (ground (arith, at))
        | inr x ↦ rw x (inl (at.0, ground (arith, at)))
      ]
  Step-Inv n r (publish s e) inv = ground (arith, Inv-stage n s publishing e inv)
  Step-Inv n r (notify s e w sent received) inv = ground (arith, Inv-stage n s notifying e inv)
  Step-Inv n r (not_sent s e failed) inv =
      let at = Inv-stage n s notifying e inv in inl (at.0, ground (arith, at))
  Step-Inv n r (not_received s w failed) inv = cc
  Step-Inv n r (serve s e) inv = rw e (Inv-stage n s serving e inv)
  Step-Inv n r (stop s e) inv = Inv-stage n s serving e inv
  Step-Inv n r (unregister s e) inv = Inv-stage n s unregistering e inv
  Step-Inv n r (clean s e) inv = inr (Inv-stage n s cleaning e inv)

  Steps-Inv : {n : ℕ} {s : System} → k.ipc_receive ≡ true → Steps k qsize start n s → Inv n s
  Steps-Inv r here = (refl, refl)
  Steps-Inv r (later ss st) = Step-Inv _ r st (Steps-Inv r ss)

  -- From the invariant, by the stage.
  Done-if_returned :
      (n : ℕ) (g : Stage) (v : Server) (reg res : Option Cap) {c : Option Cap}
      → At n g v reg res
      → v ≡ returned c
      → Done v
  Done-if_returned n scheduling v reg res at e = ground (arith, at, e)
  Done-if_returned n allocating v reg res at e = ground (arith, at, e)
  Done-if_returned n registering v reg res at e = ground (arith, at, e)
  Done-if_returned n publishing v reg res at e = ground (arith, at, e)
  Done-if_returned n notifying v reg res at e = ground (arith, at, e)
  Done-if_returned n serving v reg res at e = at
  Done-if_returned n unregistering v reg res at e = at
  Done-if_returned n cleaning v reg res at e = at
  Done-if_returned n finished v reg res (inl (w, x)) e = cc
  Done-if_returned n finished v reg res (inr d) e = d

  Done-after_five :
      (n : ℕ) (g : Stage) (v : Server) (reg res : Option Cap)
      → all_granted k qsize ≡ true
      → 5 ≤ n
      → At n g v reg res
      → Done v
  Done-after_five n scheduling v reg res a le at = absurd (omega (arith, at.1))
  Done-after_five n allocating v reg res a le at = absurd (omega (arith, at.1))
  Done-after_five n registering v reg res a le at = absurd (omega (arith, at.1))
  Done-after_five n publishing v reg res a le at = absurd (omega (arith, at.1))
  Done-after_five n notifying v reg res a le at = absurd (omega (arith, at.1))
  Done-after_five n serving v reg res a le at = at
  Done-after_five n unregistering v reg res a le at = at
  Done-after_five n cleaning v reg res a le at = at
  Done-after_five n finished v reg res a le (inl (w, x)) = cc
  Done-after_five n finished v reg res a le (inr d) = d

  -- A thread whose server waits has a step, unless an answer was refused.
  next_step :
      (s : System) (g : Stage) (n : ℕ)
      → k.ipc_receive ≡ true
      → all_granted k qsize ≡ true
      → s.stage ≡ g
      → At n g s.server s.registered s.result
      → s.server ≡ waiting
      → (t : System) × Step k qsize s t
  next_step s scheduling n r a e at w = (_, schedule s e)
  next_step s allocating n r a e at w = (_, allocate s e)
  next_step s registering n r a e at w = (_, register s e)
  next_step s publishing n r a e at w = (_, publish s e)
  next_step s notifying n r a e at w = (_, notify s e w (ground (arith, a, at)) r)
  next_step s serving n r a e at w = cc
  next_step s unregistering n r a e at w = cc
  next_step s cleaning n r a e at w = cc
  next_step s finished n r a e (inl (w', x)) w = cc
  next_step s finished n r a e (inr d) w = cc

  -- Where the wait of the server has no error, a call that returns had every answer that the thread
  -- needs, and what it returns is the capability of the registered object.
  pub create_queue-returned :
      {n : ℕ} {s : System} {result : Option Cap}
      → k.ipc_receive ≡ true
      → Steps k qsize start n s
      → s.server ≡ returned result
      → (all_granted k qsize ≡ true) × (result ≡ k.register_obj)
  create_queue-returned {n} {s} r ss e =
      let done = Done-if_returned n s.stage s.server s.registered s.result (Steps-Inv r ss) e in
      (done.1, ground (arith, done, e))

  -- Where every answer is granted and the wait of the server has no error, a run of the call comes
  -- to an end: at each point it has returned with the capability of the registered object, or it
  -- has made less than five steps and can make another one.
  pub create_queue-returns :
      {n : ℕ} {s : System}
      → k.ipc_receive ≡ true
      → all_granted k qsize ≡ true
      → Steps k qsize start n s
      → (s.server ≡ returned k.register_obj) ⊎ ((n < 5) × (t : System) × Step k qsize s t)
  create_queue-returns {n} {s} r g ss =
      let inv = Steps-Inv r ss in
      elim (dec_lt n 5) [
        | yes few ↦ elim (Server-cases s.server) [
          | inl w ↦ let (t, step) = next_step s s.stage n r g refl inv w in inr (few, t, step)
          | inr (c, e) ↦ inl (Done-if_returned n s.stage s.server s.registered s.result inv e).0
        ]
        | no many ↦
            inl
              (Done-after_five n s.stage s.server s.registered s.result g (omega (arith, many))
                inv).0
      ]

  -- Where one answer is refused and the wait of the server has no error, the call never returns: it
  -- waits in every state that the run reaches.
  pub create_queue-waits :
      {n : ℕ} {s : System}
      → k.ipc_receive ≡ true
      → all_granted k qsize ≡ false
      → Steps k qsize start n s
      → s.server ≡ waiting
  create_queue-waits {n} {s} r g ss = elim (Server-cases s.server) [
    | inl w ↦ w
    | inr (c, e) ↦
        let inv = Steps-Inv r ss in
        cc (Done-if_returned n s.stage s.server s.registered s.result inv e).1
  ]

-- ===== src/Pci/Bus.antt =====
-- server/src/device.cc: the capabilities that the server gets for the adapter: its DMA space and the
-- interrupt controller of the bus.
use l4rdma.Prelude.{
  ℕ, ◌≡◌, refl, sym, ap, ◌∙◌, subst, ◌↔◌, ◌⊎◌, inl, inr, Option, none, some, Bool, true, false,
  List, [], ◌∷◌, ◌++◌, map, All, if◌then◌else◌, Bool-cases, Option-cases,
}
use l4rdma.Run.{
  Run, ok, throw, terminated, chksys, Fails, Fails-first, Fails-ok, Run-cases, ok-injective, ◌>>=◌,
}
use l4rdma.Pci.{Resource, find_dma_domain}

-- The calls of the bus and of the kernel, `none` or `false` where one fails; `State` is the state of
-- the kernel, and capabilities are numbers. `assign` stands for `assign_dma_domain` with the flags
-- to bind a DMA space of L4Re, `device_by_hid` for the search of the device `L40009`.
pub record BusServices : Type 1 where
  pub State : Type 0
  pub device : State → Option (List (Option Resource))
  pub make_cap : State → Option (ℕ × State)
  pub create : State → (dma_cap : ℕ) → Option State
  pub assign : State → (start dma_cap : ℕ) → Option State
  pub device_by_hid : State → Option ℕ
  pub alloc_icu : State → Option (ℕ × State)
  pub vicu : State → (vbus_icu icu : ℕ) → Option State
  pub info : State → (icu : ℕ) → Bool

module _ (bus : BusServices) where
  unfoldable pub bind_dma_space_to_device : bus.State → Run (ℕ × bus.State)
  bind_dma_space_to_device s = do
    resources ← chksys (bus.device s)
    start ← find_dma_domain resources
    (dma_cap, s₁) ← chksys (bus.make_cap s)
    s₂ ← chksys (bus.create s₁ dma_cap)
    s₃ ← chksys (bus.assign s₂ start dma_cap)
    ok (dma_cap, s₃)

  unfoldable pub create_icu_cap : bus.State → Run (ℕ × bus.State)
  create_icu_cap s = elim (bus.device_by_hid s) [
    | none ↦ throw terminated
    | some vbus_icu ↦ (do
      (icu, s₁) ← chksys (bus.alloc_icu s)
      elim (bus.vicu s₁ vbus_icu icu) [
        | none ↦ throw terminated
        | some s₂ ↦ if bus.info s₂ icu then ok (icu, s₂) else throw terminated
      ])
  ]

-- The first DMA domain among the resources, which could all be read up to it.
abbrev pub FirstDomain : List (Option Resource) → ℕ → Type 0
FirstDomain resources start =
    (front : List Resource) × (r : Resource) × (back : List (Option Resource)) × (resources
      ≡ map some front ++ some r ∷ back)
    × All (λ q. q.is_dma_domain ≡ false) front
    × (r.is_dma_domain ≡ true)
    × (r.start ≡ start)

find_dma_domain-FirstDomain :
    (resources : List (Option Resource)) (start : ℕ)
    → find_dma_domain resources ≡ ok start
    → FirstDomain resources start
unfolding find_dma_domain
find_dma_domain-FirstDomain [] start e = cc
find_dma_domain-FirstDomain (none ∷ rs) start e = cc
find_dma_domain-FirstDomain (some r ∷ rs) start e = elim (Bool-cases r.is_dma_domain) [
  | inl domain ↦ ([], r, rs, refl, tt, domain, ok-injective r.start start (rw domain at e))
  | inr other ↦
      let (front, q, back, parts, before, domain, at) =
        find_dma_domain-FirstDomain rs start (rw other at e) in
      (r ∷ front, q, back, ap (λ l. some r ∷ l) parts, (other, before), domain, at)
]

FirstDomain-find_dma_domain :
    (front : List Resource) (r : Resource) (back : List (Option Resource))
    → All (λ q. q.is_dma_domain ≡ false) front
    → r.is_dma_domain ≡ true
    → find_dma_domain (map some front ++ some r ∷ back) ≡ ok r.start
unfolding find_dma_domain
FirstDomain-find_dma_domain [] r back before domain = rw domain refl
FirstDomain-find_dma_domain (q ∷ front) r back before domain =
    rw before.0 (FirstDomain-find_dma_domain front r back before.1 domain)

-- A DMA space is made and bound to the first DMA domain of the device.
pub record BindsDomain (bus : BusServices) (s : bus.State) (dma_cap : ℕ) (t : bus.State)
    : Type 0 where
  pub resources : List (Option Resource)
  pub start : ℕ
  pub made : bus.State
  pub created : bus.State
  pub lists : bus.device s ≡ some resources
  pub first : FirstDomain resources start
  pub makes : bus.make_cap s ≡ some (dma_cap, made)
  pub creates : bus.create made dma_cap ≡ some created
  pub assigns : bus.assign created start dma_cap ≡ some t

module _ (bus : BusServices) (s : bus.State) where
  bind_dma_space_to_device-cases :
      Fails (bind_dma_space_to_device bus s)
      ⊎ ((dma_cap : ℕ) × (t : bus.State) × (bind_dma_space_to_device bus s ≡ ok (dma_cap, t))
          × BindsDomain bus s dma_cap t)
  unfolding bind_dma_space_to_device
  bind_dma_space_to_device-cases = elim (Option-cases (bus.device s)) [
    | inl a ↦ inl (rw (a, ◌>>=◌) refl)
    | inr (resources, a) ↦ elim (Run-cases (find_dma_domain resources)) [
      | inl refused ↦ inl (rw (a, ◌>>=◌) (Fails-first (find_dma_domain resources) _ refused))
      | inr (start, b) ↦ elim (Option-cases (bus.make_cap s)) [
        | inl c ↦ inl (rw (a, ◌>>=◌, b, ◌>>=◌, c, ◌>>=◌) refl)
        | inr ((dma_cap, made), c) ↦ elim (Option-cases (bus.create made dma_cap)) [
          | inl d ↦ inl (rw (a, ◌>>=◌, b, ◌>>=◌, c, ◌>>=◌, d, ◌>>=◌) refl)
          | inr (created, d) ↦ elim (Option-cases (bus.assign created start dma_cap)) [
            | inl e ↦ inl (rw (a, ◌>>=◌, b, ◌>>=◌, c, ◌>>=◌, d, ◌>>=◌, e, ◌>>=◌) refl)
            | inr (t, e) ↦ inr (
              dma_cap,
              t,
              rw (a, ◌>>=◌, b, ◌>>=◌, c, ◌>>=◌, d, ◌>>=◌, e, ◌>>=◌) refl,
              record {
                resources = resources;
                start = start;
                made = made;
                created = created;
                lists = a;
                first = find_dma_domain-FirstDomain resources start b;
                makes = c;
                creates = d;
                assigns = e;
              },
            )
          ]
        ]
      ]
    ]
  ]

  bind_dma_space_to_device-ok :
      (dma_cap : ℕ) (t : bus.State)
      → BindsDomain bus s dma_cap t
      → bind_dma_space_to_device bus s ≡ ok (dma_cap, t)
  unfolding bind_dma_space_to_device
  bind_dma_space_to_device-ok dma_cap t binds =
      let (front, r, back, parts, before, domain, at) = binds.first in
      let found : find_dma_domain binds.resources ≡ ok binds.start =
        ap find_dma_domain parts
        ∙ FirstDomain-find_dma_domain front r back before domain
        ∙ ap ok at in
      rw (binds.lists, ◌>>=◌, found, ◌>>=◌, binds.makes, ◌>>=◌, binds.creates, ◌>>=◌, binds.assigns)
        refl

  -- `bind_dma_space_to_device` succeeds exactly where the resources of the device can be read up to
  -- its first DMA domain, and a new DMA space can be made and bound to that domain.
  pub bind_dma_space_to_device-BindsDomain :
      (dma_cap : ℕ) (t : bus.State)
      → (bind_dma_space_to_device bus s ≡ ok (dma_cap, t)) ↔ BindsDomain bus s dma_cap t
  bind_dma_space_to_device-BindsDomain dma_cap t = (
    λ gives. elim bind_dma_space_to_device-cases [
      | inl fails ↦ absurd (Fails-ok (bind_dma_space_to_device bus s) _ fails gives)
      | inr (cap', t', gives', binds) ↦
          subst (λ r. BindsDomain bus s r.0 r.1) (ok-injective _ _ (sym gives' ∙ gives)) binds
    ],
    bind_dma_space_to_device-ok dma_cap t,
  )

-- ===== src/Pci/Capability.antt =====
-- server/src/device.cc: `get_pci_cap` walks along the list of capabilities.
use l4rdma.Prelude.{
  ℕ, zero, suc, ◌+◌, ◌≤◌, ◌<◌, ◌≡◌, ◌≢◌, refl, ◌∙◌, inl, inr, some, List, [], ◌∷◌, bit_and, false,
  arith, ◌==◌, if◌then◌else◌, length, Bool-cases,
}
use l4rdma.Run.{ok, ◌>>=◌}
use l4rdma.Pci.{PciDev, follow, cap_fuel, get_pci_cap}

-- A capability: where it lies, and its id.
abbrev pub Cap : Type 0
Cap = ℕ × ℕ

-- The place of the first capability with the id, and 0 if there is none.
unfoldable pub first_cap : ℕ → List Cap → ℕ
first_cap target [] = 0
first_cap target ((p, id) ∷ caps) = if id == target then p else first_cap target caps

module _ (dev : PciDev) (c : dev.Config) where
  -- The configuration space has the list of capabilities from the pointer at register `at` on. It
  -- ends with a null pointer, and register 0, which is read then too, holds a vendor's number.
  abbrev pub Lists : (vendor at : ℕ) → List Cap → Type 0
  Lists vendor at [] =
      (raw : ℕ) × (dev.cfg_read c at 8 ≡ some raw)
      × (bit_and raw 0xfc ≡ 0)
      × (dev.cfg_read c 0 8 ≡ some vendor)
  Lists vendor at ((p, id) ∷ caps) =
      ((raw : ℕ) × (dev.cfg_read c at 8 ≡ some raw) × (bit_and raw 0xfc ≡ p))
      × (p ≢ 0)
      × (dev.cfg_read c p 8 ≡ some id)
      × Lists vendor (p + 1) caps

  follow-round :
      (target fuel at raw id : ℕ)
      → dev.cfg_read c at 8 ≡ some raw
      → dev.cfg_read c (bit_and raw 0xfc) 8 ≡ some id
      → follow dev c target (suc fuel) at ≡ (
          if id == target
          then ok (bit_and raw 0xfc)
          else if bit_and raw 0xfc == 0
          then ok 0
          else follow dev c target fuel (bit_and raw 0xfc + 1))
  unfolding follow
  follow-round target fuel at raw id pointer found = rw (pointer, ◌>>=◌, found, ◌>>=◌) refl

  follow-first_cap :
      (target vendor : ℕ) (caps : List Cap) (fuel at : ℕ)
      → vendor ≢ target
      → Lists vendor at caps
      → length caps < fuel
      → follow dev c target fuel at ≡ ok (first_cap target caps)
  unfolding first_cap
  follow-first_cap target vendor caps zero at other listed enough = absurd (omega arith)
  follow-first_cap target vendor [] (suc fuel) at other (raw, pointer, last, reg0) enough =
      let found : dev.cfg_read c (bit_and raw 0xfc) 8 ≡ some vendor = rw last reg0 in
      let not_it : (vendor == target) ≡ false = ground arith in
      follow-round target fuel at raw vendor pointer found ∙ rw (not_it, last) refl
  follow-first_cap target vendor ((p, id) ∷ caps) (suc fuel) at other
        ((raw, pointer, place), there, found, rest) enough =
      let found' : dev.cfg_read c (bit_and raw 0xfc) 8 ≡ some id = rw place found in
      follow-round target fuel at raw id pointer found'
      ∙ rw place (elim (Bool-cases (id == target)) [
        | inl it ↦ rw it refl
        | inr not_it ↦
            let more : (p == 0) ≡ false = ground arith in
            rw (not_it, more)
              (follow-first_cap target vendor caps fuel (p + 1) other rest (omega arith))
      ])

  -- In a device with a list of at most 63 capabilities, `get_pci_cap` ends and returns the place of
  -- the first one with the id that is looked for, and 0 if there is none.
  pub get_pci_cap-first_cap :
      (target vendor status : ℕ) (caps : List Cap)
      → dev.cfg_read c 0x06 16 ≡ some status
      → bit_and status 0x10 ≢ 0
      → vendor ≢ target
      → Lists vendor 0x34 caps
      → length caps ≤ 63
      → get_pci_cap dev c target ≡ ok (first_cap target caps)
  unfolding get_pci_cap
  get_pci_cap-first_cap target vendor status caps read has_list other listed few =
      let some_list : (bit_and status 0x10 == 0) ≡ false = ground arith in
      rw (read, ◌>>=◌, some_list)
        (follow-first_cap target vendor caps cap_fuel 0x34 other listed (omega arith))

-- ===== src/Pkru/Offset.antt =====
-- `pkru_xstate_offset` and `pkru_ptr`: where the saved register lies in the signal frame. The `cpuid` instruction is a
-- parameter: from eax and ecx it gives (eax, ebx).
use ia2_provsan.Base.{ℕ, ◌+◌, ◌==◌, if◌then◌else◌}

abbrev pub xstate_cpuid : ℕ
xstate_cpuid = 0xd

abbrev pub xstate_pkru_bit : ℕ
xstate_pkru_bit = 9

module _ (cpuid : ℕ → ℕ → ℕ × ℕ) where
  pub pkru_xstate_offset : ℕ
  pkru_xstate_offset =
      let (eax, ebx) = cpuid xstate_cpuid xstate_pkru_bit in if eax == 0 then 0 else ebx

  -- `&fpregs[pkru_offset]`
  pub pkru_ptr : ℕ → ℕ
  pkru_ptr fpregs = fpregs + pkru_xstate_offset

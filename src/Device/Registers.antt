-- ===== src/Device/Registers.antt =====
-- The register maps and register values: the enumerations of
-- qemu_src/hw/misc/idt_ntb_ivshmem.c, lines 209 to 394.
use ntb_cxl.Prelude.{
  ℕ, ◌+◌, ◌*◌, ◌^◌, bit_or, ◌==◌, if◌then◌else◌, Option, none, some, List, [], ◌∷◌,
}

abbrev pub shl : ℕ → ℕ → ℕ
shl x k = x * 2 ^ k

-- The four registers that each BAR has.
pub data BarField : Type 0 where
  setup limit ltbase utbase : BarField

-- The registers in BAR 0. `outmsg i`, `inmsg i` and `inmsgsrc i` are OUTMSGi, INMSGi and
-- INMSGSRCi, and `bar f i` is one of BARSETUPi, BARLIMITi, BARLTBASEi and BARUTBASEi.
pub data ConfigRegister : Type 0 where
  pcicmdsts pcielcap pcielctlsts ntctl ntintsts ntintmsk ntgsignal : ConfigRegister
  outdbellset indbellsts indbellmsk msgsts msgstsmsk : ConfigRegister
  ntmtbladdr ntmtbldata reqidcap gasaaddr gasadata : ConfigRegister
  outmsg inmsg inmsgsrc : ℕ → ConfigRegister
  bar : BarField → ℕ → ConfigRegister
  oof_tpart oof_lutoff oof_ldata oof_hdata oof_llimit oof_hlimit : ConfigRegister

-- The registers behind GASAADDR and GASADATA. `ntp0_barsetup i` is IDT_SW_NTP0_BARSETUPi.
pub data GlobalRegister : Type 0 where
  ntp0_pciecmdsts ntp0_ntctl swport0sts ntp2_pciecmdsts ntp2_ntctl swport2sts : GlobalRegister
  swpart0sts sests selinkupsts selinkdnsts segsigsts segsigmsk : GlobalRegister
  ntp0_barsetup ntp2_barsetup swp0msgctl : ℕ → GlobalRegister

-- The register at an address: the first entry that has it.
unfoldable pub register_at {ℓ} : {R : Type ℓ} → List (ℕ × R) → ℕ → Option R
register_at [] addr = none
register_at ((a, r) ∷ table) addr = if a == addr then some r else register_at table addr

-- `enum idt_config_registers`, with IDT_NT_NTINTMSK, which stands in the other enumeration.
unfoldable pub config_registers : List (ℕ × ConfigRegister)
config_registers =
    (0x4, pcicmdsts)
    ∷ (0x4C, pcielcap)
    ∷ (0x50, pcielctlsts)
    ∷ (0x400, ntctl)
    ∷ (0x404, ntintsts)
    ∷ (0x408, ntintmsk)
    ∷ (0x410, ntgsignal)
    ∷ (0x420, outdbellset)
    ∷ (0x428, indbellsts)
    ∷ (0x42C, indbellmsk)
    ∷ (0x430, outmsg 0)
    ∷ (0x434, outmsg 1)
    ∷ (0x438, outmsg 2)
    ∷ (0x43C, outmsg 3)
    ∷ (0x440, inmsg 0)
    ∷ (0x444, inmsg 1)
    ∷ (0x448, inmsg 2)
    ∷ (0x44C, inmsg 3)
    ∷ (0x460, msgsts)
    ∷ (0x464, msgstsmsk)
    ∷ (0x4D0, ntmtbladdr)
    ∷ (0x4D8, ntmtbldata)
    ∷ (0x4DC, reqidcap)
    ∷ (0xFF8, gasaaddr)
    ∷ (0xFFC, gasadata)
    ∷ (0x450, inmsgsrc 0)
    ∷ (0x454, inmsgsrc 1)
    ∷ (0x458, inmsgsrc 2)
    ∷ (0x45C, inmsgsrc 3)
    ∷ (0x470, bar setup 0)
    ∷ (0x474, bar limit 0)
    ∷ (0x478, bar ltbase 0)
    ∷ (0x47C, bar utbase 0)
    ∷ (0x480, bar setup 1)
    ∷ (0x484, bar limit 1)
    ∷ (0x488, bar ltbase 1)
    ∷ (0x48C, bar utbase 1)
    ∷ (0x490, bar setup 2)
    ∷ (0x494, bar limit 2)
    ∷ (0x498, bar ltbase 2)
    ∷ (0x49C, bar utbase 2)
    ∷ (0x4A0, bar setup 3)
    ∷ (0x4A4, bar limit 3)
    ∷ (0x4A8, bar ltbase 3)
    ∷ (0x4AC, bar utbase 3)
    ∷ (0x4B0, bar setup 4)
    ∷ (0x4B4, bar limit 4)
    ∷ (0x4B8, bar ltbase 4)
    ∷ (0x4BC, bar utbase 4)
    ∷ (0x4C0, bar setup 5)
    ∷ (0x4C4, bar limit 5)
    ∷ (0x4C8, bar ltbase 5)
    ∷ (0x4CC, bar utbase 5)
    ∷ (0x1000, oof_tpart)
    ∷ (0x1004, oof_lutoff)
    ∷ (0x1008, oof_ldata)
    ∷ (0x100C, oof_hdata)
    ∷ (0x1010, oof_llimit)
    ∷ (0x1014, oof_hlimit)
    ∷ []

-- `enum idt_global_config_registers`.
unfoldable pub global_registers : List (ℕ × GlobalRegister)
global_registers =
    (0x1004, ntp0_pciecmdsts)
    ∷ (0x1400, ntp0_ntctl)
    ∷ (0x1470, ntp0_barsetup 0)
    ∷ (0x1480, ntp0_barsetup 1)
    ∷ (0x1490, ntp0_barsetup 2)
    ∷ (0x14A0, ntp0_barsetup 3)
    ∷ (0x14B0, ntp0_barsetup 4)
    ∷ (0x14C0, ntp0_barsetup 5)
    ∷ (0x3E204, swport0sts)
    ∷ (0x5004, ntp2_pciecmdsts)
    ∷ (0x5400, ntp2_ntctl)
    ∷ (0x5470, ntp2_barsetup 0)
    ∷ (0x5480, ntp2_barsetup 1)
    ∷ (0x5490, ntp2_barsetup 2)
    ∷ (0x54A0, ntp2_barsetup 3)
    ∷ (0x54B0, ntp2_barsetup 4)
    ∷ (0x54C0, ntp2_barsetup 5)
    ∷ (0x3E244, swport2sts)
    ∷ (0x3E104, swpart0sts)
    ∷ (0x3EE00, swp0msgctl 0)
    ∷ (0x3EE20, swp0msgctl 1)
    ∷ (0x3EE40, swp0msgctl 2)
    ∷ (0x3EE60, swp0msgctl 3)
    ∷ (0x3EC00, sests)
    ∷ (0x3EC0C, selinkupsts)
    ∷ (0x3EC14, selinkdnsts)
    ∷ (0x3EC30, segsigsts)
    ∷ (0x3EC34, segsigmsk)
    ∷ []

-- `enum idt_register_values` and `enum idt_default_register_values`.
abbrev pub value_swportsts : ℕ
value_swportsts = bit_or (bit_or (shl 1 4) (shl 8 6)) (shl 0 10)

abbrev pub value_swpart0sts : ℕ
value_swpart0sts = shl 1 5

abbrev pub value_ntp_pciecmdsts : ℕ
value_ntp_pciecmdsts = shl 1 2

abbrev pub value_ntp_ntctl : ℕ
value_ntp_ntctl = shl 0 1

-- `enum idt_config_registers_values`.
abbrev pub value_nt_pcielcap_vm1 : ℕ
value_nt_pcielcap_vm1 = shl 0 24

abbrev pub value_nt_pcielcap_vm2 : ℕ
value_nt_pcielcap_vm2 = shl 2 24

abbrev pub value_nt_pcielctlsts : ℕ
value_nt_pcielctlsts = bit_or (shl 1 16) (shl 4 20)

abbrev pub value_nt_pcicmdsts : ℕ
value_nt_pcicmdsts = shl 1 2

-- `enum idt_default_config_register_values`, with the shifts of `enum barsetup_fields`.
abbrev pub value_nt_barsetup0 : ℕ
value_nt_barsetup0 = bit_or (bit_or (bit_or (shl 0 1) (shl 0xC 4)) (shl 1 10)) (shl 1 31)

abbrev pub value_nt_barsetup_window : ℕ
value_nt_barsetup_window = bit_or (shl 20 4) (shl 1 31)

-- `enum msgsts_fields`: the status bit of inbound and of outbound message register `i`.
abbrev pub fld_inmsgsts : ℕ → ℕ
fld_inmsgsts i = 16 + i

abbrev pub fld_outmsgsts : ℕ → ℕ
fld_outmsgsts i = 0 + i

-- `enum idt_interrupts`.
abbrev pub ntintsts_msg : ℕ
ntintsts_msg = 0x1

abbrev pub ntintsts_dbell : ℕ
ntintsts_dbell = 0x2

abbrev pub ntintsts_sevent : ℕ
ntintsts_sevent = 0x8

-- `enum idt_ivshmem_eventfds`.
abbrev pub eventfd_vm_id : ℕ
eventfd_vm_id = 0

abbrev pub eventfd_interrupt_host : ℕ
eventfd_interrupt_host = 1

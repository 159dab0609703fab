-- ===== src/Tests/Windows.antt =====
-- The memory windows, over a memory of 0x80 bytes.
use ntb_cxl.Prelude.{◌≡◌, refl, arith, inl, true}
use ntb_cxl.Device.{Returns, fault, ◌>>=◌, at_vm1, wiring_of}
use ntb_cxl.Window.{Bridge, MapCalls, bar_read, bar_write, translate}
use ntb_cxl.Window.Bytes.{byte_memory}
use ntb_cxl.Window.Access.{IsWritten, bar_read-bar_write, bar-fault, bar_write-past_window}
use ntb_cxl.Tests.Data.{storage, on_storage}

abbrev b : Bridge byte_memory
b = record { machine = on_storage storage; mem = record { length = 0x80; byte = λ _. 0 } }

-- The same with room for one access behind the window.
abbrev roomy : Bridge byte_memory
roomy = record b { mem = record { length = 0x200; byte = λ _. 0 } }

abbrev os : MapCalls
os = record { open_ok = λ _. true; fstat_ok = true; mmap_ok = true }

bar_read-bar_write_example :
    Returns
      (bar_write byte_memory os (wiring_of at_vm1) 2 8 0xCAFE 4 b
        >>= bar_read byte_memory os (wiring_of at_vm1) 2 8 4)
      (λ r. r.0 ≡ 0xCAFE)
unfolding translate
bar_read-bar_write_example =
    bar_read-bar_write byte_memory os (wiring_of at_vm1) 2 8 0xCAFE 4 b
      (record { active = omega arith; within = omega arith })
      (record { width = inl refl; mapped = refl; inside = omega arith }) (omega arith)

bar-fault_example :
    (bar_write byte_memory os (wiring_of at_vm1) 2 0x40 1 4 b ≡ fault)
    × (bar_read byte_memory os (wiring_of at_vm1) 2 0x40 4 b ≡ fault)
unfolding translate
bar-fault_example =
    bar-fault byte_memory os (wiring_of at_vm1) 2 0x40 1 4 b
      (record { active = omega arith; within = omega arith }) (inl refl) refl (omega arith)

bar_write-past_window_example :
    Returns
      (bar_write byte_memory os (wiring_of at_vm1) 2 0x100 1 4 roomy)
      (IsWritten byte_memory (wiring_of at_vm1) 2 0x100 1 4 roomy)
unfolding translate
bar_write-past_window_example =
    bar_write-past_window byte_memory os (wiring_of at_vm1) 2 0x100 1 4 roomy refl (omega arith)
      (omega arith) (record { width = inl refl; mapped = refl; inside = omega arith }) (omega arith)

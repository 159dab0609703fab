-- ===== src/Tests/Races.antt =====
-- Interleavings of a message with the other guest's writes.
use ntb_cxl.Prelude.{◌≡◌, ◌+◌, ◌++◌, refl, arith, List, [], ◌∷◌}
use ntb_cxl.Prelude.Bits.{bit}
use ntb_cxl.Device.{at_vm1, at_vm2}
use ntb_cxl.Interleaving.{
  status, message, source, partition, load, Handler, send, clear_status, mask_status,
}
use ntb_cxl.Interleaving.Race.{Turn, one, two, interleave}
use ntb_cxl.Interleaving.Publish.{IsPublished, sending, send-IsPublished}
use ntb_cxl.Interleaving.Partway.{to_status, source-late}
use ntb_cxl.Interleaving.Lost.{status-lost}
use ntb_cxl.Tests.Data.{dev_a, dev_b, storage}

-- The other guest unmasks its messages and sends one itself.
abbrev guest : List Handler
guest = mask_status 0 ∷ send 2 9 ∷ []

abbrev turns : List Turn
turns = one ∷ two ∷ one ∷ two ∷ one ∷ one ∷ two ∷ one ∷ two ∷ two ∷ one ∷ one ∷ one ∷ []

send-IsPublished_example :
    IsPublished at_vm1 1 5
      (load (partition at_vm1) storage)
      (interleave turns (sending at_vm1 1 5 dev_a dev_b guest storage))
unfolding bit load
send-IsPublished_example =
    send-IsPublished at_vm1 1 5 dev_a dev_b guest storage turns (omega arith) refl

source-late_example :
    (schedule : List Turn) × (bit
        (load
          (status at_vm2)
          (interleave schedule (sending at_vm1 1 5 dev_a dev_b guest storage)).shm)
        (16 + 1)
      ≡ 1)
    × (load
          (message at_vm2 1)
          (interleave schedule (sending at_vm1 1 5 dev_a dev_b guest storage)).shm
        ≡ 5)
    × (load
          (source at_vm2 1)
          (interleave schedule (sending at_vm1 1 5 dev_a dev_b guest storage)).shm
        ≡ load (source at_vm2 1) storage)
unfolding bit load
source-late_example = source-late at_vm1 1 5 dev_a dev_b guest storage (omega arith) refl refl

-- Machine 2 acknowledges a message in place 0 while one arrives in place 1.
status-lost_example :
    (bit
        (load
          (status at_vm2)
          (interleave
            (two ∷ to_status)
            (sending at_vm1 1 5 dev_a dev_b (clear_status 0x10000 ∷ []) storage)).shm)
        (16 + 1)
      ≡ 1)
    × (load
          (message at_vm2 1)
          (interleave
            (two ∷ to_status)
            (sending at_vm1 1 5 dev_a dev_b (clear_status 0x10000 ∷ []) storage)).shm
        ≡ 5)
    × (bit
          (load
            (status at_vm2)
            (interleave
              ((two ∷ to_status) ++ (two ∷ turns))
              (sending at_vm1 1 5 dev_a dev_b (clear_status 0x10000 ∷ []) storage)).shm)
          (16 + 1)
        ≡ 0)
unfolding bit load
status-lost_example =
    status-lost at_vm1 1 5 0x10000 dev_a dev_b storage turns (omega arith) refl refl

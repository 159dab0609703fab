-- ===== src/Interleaving/Own.antt =====
-- What the handlers of one machine write: places elsewhere, and its own status register, of which
-- they set bits 0 to 3 and clear any.
-- About qemu_src/hw/misc/idt_ntb_ivshmem.c, lines 421 to 463 and 598 to 727.
use ntb_cxl.Prelude.{
  ℕ, ◌+◌, ◌^◌, ◌<◌, ◌≡◌, refl, arith, Bool-cases, inl, inr, ltb, bit_and, bit_or, not64, List, [],
  ◌∷◌, is_nonzero, ◌==◌,
}
use ntb_cxl.Prelude.Int.{is_minus_one}
use ntb_cxl.Device.{
  ShmStorage, IvShmemState, Side, opposite, wiring_of, Effect, fld_inmsgsts, ntintsts_msg,
  ntintsts_dbell, ntintsts_sevent,
}
use ntb_cxl.Interleaving.{
  Place, status, status_mask, interrupts, doorbell, doorbell_mask, partition, control, message,
  source, interrupt_mask, segments, load, save, Program, set_flags, notify_program, refuse_program,
  announce_program, deliver_program, source_program, complain_program, tell_program, allows,
  minds_refusal, minds_message, send_program, done, stopped, raise, put, ring_program,
  signal_program, Handler, send, ring, signal, clear_interrupts, clear_doorbell, clear_status,
  mask_doorbell, mask_status, mask_interrupts, set_partition, set_control, program,
}
use ntb_cxl.Interleaving.Race.{
  Respects, if-Respects, when-Respects, notify-Respects, >>>-Respects, guest_program,
}

-- The place is no status, message or source register of machine `q`, and no partition register of
-- the other.
abbrev pub IsElsewhere : Side → Place → Type 0
IsElsewhere q (status p) = p ≡ opposite q
IsElsewhere q (message p i) = p ≡ opposite q
IsElsewhere q (source p i) = p ≡ opposite q
IsElsewhere q (partition p) = p ≡ q
IsElsewhere q _ = Unit

module _ (q : Side) (R : ShmStorage → Type 0) (G : ShmStorage → ShmStorage → Type 0)
    (elsewhere : (a : Place)
      → IsElsewhere q a
      → (v : ℕ) (sh : ShmStorage) → R sh
      → G sh (save a v sh))
    (marks : (j : ℕ)
      → j < 4
      → (old sh : ShmStorage) → R old
      → R sh
      → G sh (save (status q) (bit_or (load (status q) old) (2 ^ (0 + j))) sh))
    (clears : (val : ℕ) (old sh : ShmStorage)
      → R old
      → R sh
      → G sh (save (status q) (bit_and (load (status q) old) (not64 val)) sh)) where
  flags-Respects :
      (a : Place) (flags : ℕ) (next : Program)
      → IsElsewhere q a
      → Respects R G next
      → Respects R G (set_flags a flags next)
  flags-Respects a flags next is h = λ old r. (λ sh k. elsewhere a is _ sh k, h)

  tell-Respects : (d : IvShmemState) (flag : ℕ) → Respects R G (tell_program (wiring_of q) d flag)
  tell-Respects d flag =
      when-Respects R G interrupt_mask (allows flag)
        (set_flags (interrupts (opposite q)) flag (notify_program d))
        (flags-Respects (interrupts (opposite q)) flag (notify_program d) tt
          (notify-Respects R G d))

  complain-Respects : Respects R G (complain_program (wiring_of q))
  complain-Respects =
      when-Respects R G interrupt_mask (allows ntintsts_msg)
        (set_flags (interrupts q) ntintsts_msg (raise (Effect.msi 0) done))
        (flags-Respects (interrupts q) ntintsts_msg (raise (Effect.msi 0) done) tt tt)

  refuse-Respects : (j : ℕ) → j < 4 → Respects R G (refuse_program (wiring_of q) j)
  unfolding refuse_program
  refuse-Respects j lt = λ old r. (
    λ sh k. marks j lt old sh r k,
    when-Respects R G (status_mask q) (minds_refusal j) (complain_program (wiring_of q))
        complain-Respects,
  )

  deliver-Respects : (d : IvShmemState) (j : ℕ) → Respects R G (deliver_program (wiring_of q) d j)
  unfolding deliver_program
  deliver-Respects d j =
      if-Respects R G (is_minus_one d.other_vm_id) done (announce_program (wiring_of q) d j) tt (
        flags-Respects (status (opposite q)) (2 ^ fld_inmsgsts j) (source_program (wiring_of q) d j)
          refl
          (λ sh k. (
            λ sh' k'. elsewhere (source (opposite q) j) refl _ sh' k',
            when-Respects R G (status_mask (opposite q)) (minds_message j)
                (tell_program (wiring_of q) d ntintsts_msg) (tell-Respects d ntintsts_msg),
          )))

  send-Respects : (d : IvShmemState) (j val : ℕ) → Respects R G (send_program (wiring_of q) d j val)
  unfolding send_program
  send-Respects d j val = elim (Bool-cases (ltb 3 j)) [
    | inl large ↦ rw large tt
    | inr small ↦ rw small (λ old r.
        if-Respects R G (is_nonzero (bit_and (load (status (opposite q)) old) (2 ^ fld_inmsgsts j)))
          (refuse_program (wiring_of q) j)
          (put (message (opposite q) j) val (deliver_program (wiring_of q) d j))
          (refuse-Respects j (ground arith))
          (λ sh k. elsewhere (message (opposite q) j) refl val sh k, deliver-Respects d j))
  ]

  ring-Respects : (d : IvShmemState) (val : ℕ) → Respects R G (ring_program (wiring_of q) d val)
  unfolding ring_program
  ring-Respects d val = (
    λ sh k. elsewhere (doorbell (opposite q)) tt _ sh k,
    if-Respects R G (is_minus_one d.other_vm_id) done (tell_program (wiring_of q) d ntintsts_dbell)
        tt (tell-Respects d ntintsts_dbell),
  )

  signal-Respects : (d : IvShmemState) (val : ℕ) → Respects R G (signal_program (wiring_of q) d val)
  unfolding signal_program
  signal-Respects d val =
      if-Respects R G (val == 1)
        (set_flags segments 1 (tell_program (wiring_of q) d ntintsts_sevent)) stopped
        (flags-Respects segments 1 (tell_program (wiring_of q) d ntintsts_sevent) tt
          (tell-Respects d ntintsts_sevent))
        tt

  handler-Respects : (h : Handler) (d : IvShmemState) → Respects R G (program h (wiring_of q) d)
  unfolding program
  handler-Respects (send j val) d = send-Respects d j val
  handler-Respects (ring val) d = ring-Respects d val
  handler-Respects (signal val) d = signal-Respects d val
  handler-Respects (clear_interrupts val) d =
      λ old r. (λ sh k. elsewhere (interrupts q) tt _ sh k, tt)
  handler-Respects (clear_doorbell val) d = λ old r. (λ sh k. elsewhere (doorbell q) tt _ sh k, tt)
  handler-Respects (clear_status val) d = λ old r. (λ sh k. clears val old sh r k, tt)
  handler-Respects (mask_doorbell val) d = (λ sh k. elsewhere (doorbell_mask q) tt _ sh k, tt)
  handler-Respects (mask_status val) d = (λ sh k. elsewhere (status_mask q) tt _ sh k, tt)
  handler-Respects (mask_interrupts val) d = (λ sh k. elsewhere interrupt_mask tt _ sh k, tt)
  handler-Respects (set_partition val) d = (λ sh k. elsewhere (partition q) refl _ sh k, tt)
  handler-Respects (set_control val) d = (λ sh k. elsewhere (control q) tt _ sh k, tt)

  pub guest-Respects :
      (handlers : List Handler) (d : IvShmemState)
      → Respects R G (guest_program handlers (wiring_of q) d)
  unfolding guest_program
  guest-Respects [] d = tt
  guest-Respects (h ∷ handlers) d =
      >>>-Respects R G (program h (wiring_of q) d) (guest_program handlers (wiring_of q) d)
        (handler-Respects h d) (guest-Respects handlers d)

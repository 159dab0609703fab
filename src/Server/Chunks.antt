-- ===== src/Server/Chunks.antt =====
-- The read loop of `ivshmem_recv_msg`. About qemu_src/hw/misc/idt_ntb_ivshmem.c, lines 1360 to 1381.
use ntb_cxl.Prelude.{
  ℕ, ◌+◌, ◌^◌, ◌<◌, ◌≡◌, refl, sym, ap, ◌∙◌, arith, List, [], ◌∷◌, ◌++◌, ltb, if◌then◌else◌, length,
  Bool-cases, inl, inr, length-append,
}
use ntb_cxl.Prelude.Int.{ℤ}
use ntb_cxl.Server.Receive.{msg_size, le_value, int64_of}
use ntb_cxl.Server.Stream.{le_bytes, le_value-le_bytes}
use mathlib.Core.List.{append_assoc, append-nil}

-- What one call of `qemu_chr_fe_read_all` comes back with: bytes, -EINTR, or another error.
pub data Read : Type 0 where
  got : (bytes : List ℕ) → Read
  interrupted failed : Read

-- How the function ends: it still waits in a call, it has the message, the read has failed, or
-- the bytes have run over the eight of `msg`.
pub data Received : Type 0 where
  waiting broken overrun : Received
  whole : (msg : ℤ) → Received

-- The test at the end of a round; `next` is another round.
unfoldable pub end_round : Received → List ℕ → Received
end_round next buf =
    if ltb (length buf) msg_size
    then next
    else if ltb msg_size (length buf)
    then overrun
    else whole (int64_of (le_value buf))

-- The loop, over what the calls come back with; `buf` is the `n` bytes of `msg` that are there.
unfoldable pub recv_msg : List Read → List ℕ → Received
unfolding end_round
recv_msg [] buf = waiting
recv_msg (got bytes ∷ rest) buf = end_round (recv_msg rest (buf ++ bytes)) (buf ++ bytes)
recv_msg (interrupted ∷ rest) buf = end_round (recv_msg rest buf) buf
recv_msg (failed ∷ rest) buf = broken

-- The bytes that the calls deliver.
abbrev pub delivered : List Read → List ℕ
delivered [] = []
delivered (got bytes ∷ rest) = bytes ++ delivered rest
delivered (interrupted ∷ rest) = delivered rest
delivered (failed ∷ rest) = delivered rest

abbrev pub Succeeds : List Read → Type 0
Succeeds [] = Unit
Succeeds (got bytes ∷ rest) = Succeeds rest
Succeeds (interrupted ∷ rest) = Succeeds rest
Succeeds (failed ∷ rest) = ⊥

empty : (xs : List ℕ) → length xs ≡ 0 → xs ≡ []
empty [] e = refl
empty (x ∷ xs) e = absurd (omega arith)

-- The end of a round: another one where bytes are missing, the message where all eight are there.
end_round_short :
    (next : Received) (buf : List ℕ) → length buf < msg_size → end_round next buf ≡ next
unfolding end_round
end_round_short next buf short = ground arith

end_round_complete :
    (next : Received) (buf : List ℕ)
    → length buf ≡ msg_size
    → end_round next buf ≡ whole (int64_of (le_value buf))
unfolding end_round
end_round_complete next buf complete = ground arith

end_round_either :
    (next : Received) (buf rest : List ℕ)
    → length buf + length rest ≡ msg_size
    → (length buf < msg_size → next ≡ whole (int64_of (le_value (buf ++ rest))))
    → end_round next buf ≡ whole (int64_of (le_value (buf ++ rest)))
end_round_either next buf rest total later = elim (Bool-cases (ltb (length buf) msg_size)) [
  | inl short ↦ end_round_short next buf (ground arith) ∙ later (ground arith)
  | inr enough ↦
      end_round_complete next buf (ground arith)
      ∙ ap (λ l. whole (int64_of (le_value l)))
          (sym (ap (λ r. buf ++ r) (empty rest (ground arith)) ∙ append-nil buf))
]

sum :
    (xs ys zs : List ℕ)
    → length xs + length (ys ++ zs) ≡ msg_size
    → length (xs ++ ys) + length zs ≡ msg_size
sum xs ys zs total = omega (arith, length-append xs ys, length-append ys zs, total)

recv_from :
    (reads : List Read) (buf : List ℕ)
    → Succeeds reads
    → length buf < msg_size
    → length buf + length (delivered reads) ≡ msg_size
    → recv_msg reads buf ≡ whole (int64_of (le_value (buf ++ delivered reads)))
unfolding recv_msg
recv_from [] buf good short total = absurd (omega arith)
recv_from (got bytes ∷ rest) buf good short total =
    end_round_either (recv_msg rest (buf ++ bytes)) (buf ++ bytes) (delivered rest)
      (sum buf bytes (delivered rest) total)
      (λ s. recv_from rest (buf ++ bytes) good s (sum buf bytes (delivered rest) total))
    ∙ ap (λ l. whole (int64_of (le_value l))) (append_assoc buf bytes (delivered rest))
recv_from (interrupted ∷ rest) buf good short total =
    end_round_short (recv_msg rest buf) buf short ∙ recv_from rest buf good short total
recv_from (failed ∷ rest) buf good short total = absurd good

-- However the server's eight bytes are cut into reads and however often a read is interrupted, the
-- loop ends, and the message is the signed number with the 64-bit pattern that the bytes spell,
-- lowest first.
pub recv_msg-le_bytes :
    (reads : List Read) (w : ℕ)
    → Succeeds reads
    → delivered reads ≡ le_bytes 8 w
    → w < 2 ^ 64
    → recv_msg reads [] ≡ whole (int64_of w)
recv_msg-le_bytes reads w good e small =
    recv_from reads [] good (omega arith) (ground (arith, ap length e))
    ∙ ap (λ l. whole (int64_of (le_value l))) e
    ∙ ap (λ v. whole (int64_of v)) (le_value-le_bytes 8 w small)

-- ===== src/P2p/Framing.antt =====
-- p2p/p2p.go: `WriteMsgWithPrependedSize` and `ReadMsgWithPrependedSize`.
use go_minimal_pbft.Prelude.{
  ℕ, zero, suc, ◌<◌, ◌≡◌, refl, ap, ◌∙◌, Bool, true, false, not, ◌&&◌, Option, none, some, [], ◌∷◌,
  ◌++◌, length, u32, ◌==◌, if◌then◌else◌, arith,
}
use go_minimal_pbft.Messages.{Bytes}
use go_minimal_pbft.Words.{put_uint32, get_uint32, get_uint32-put_uint32}

-- A stream of libp2p. `write` gives the number of bytes that were written, and whether there was no
-- error; what was written without one arrives.
pub record StreamLib : Type 1 where
  pub Stream : Type 0
  pub write : Stream → Bytes → Stream × ℕ × Bool
  pub arrived : Stream → Bytes
  pub arrived-write :
      (s : Stream) (d : Bytes)
      → (write s d).1 ≡ length d
      → (write s d).2 ≡ true
      → arrived (write s d).0 ≡ arrived s ++ d

-- `io.ReadFull` of `n` bytes, with the bytes that come after them.
abbrev pub read_full : ℕ → Bytes → Option (Bytes × Bytes)
read_full zero rest = some ([], rest)
read_full (suc n) [] = none
read_full (suc n) (b ∷ rest) = elim (read_full n rest) [
  | none ↦ none
  | some (got, left) ↦ some (b ∷ got, left)
]

abbrev pub first : Option (Bytes × Bytes) → Option Bytes
first none = none
first (some (got, left)) = some got

-- From the four bytes of the size.
unfoldable pub read_sized : Option (Bytes × Bytes) → Option Bytes
unfolding get_uint32
read_sized (some (a ∷ b ∷ c ∷ d ∷ [], rest)) = first (read_full (get_uint32 a b c d) rest)
read_sized _ = none

unfoldable pub read_msg_with_prepended_size : Bytes → Option Bytes
unfolding read_sized
read_msg_with_prepended_size d = read_sized (read_full 4 d)

-- What the writer puts on the stream.
unfoldable pub frame : Bytes → Bytes
unfolding put_uint32
frame msg = put_uint32 (u32 (length msg)) ++ msg

pub u32_small : (n : ℕ) → n < 4294967296 → u32 n ≡ n
u32_small n h = ground (arith, h)

module _ (lib : StreamLib) where
  -- Whether a `Write` of `d` returned no error and wrote all.
  abbrev pub complete : lib.Stream → Bytes → Bool
  complete s d = (lib.write s d).2 && (lib.write s d).1 == length d

  -- The stream, and whether there was no error.
  unfoldable pub write_msg_with_prepended_size : lib.Stream → Bytes → lib.Stream × Bool
  unfolding put_uint32
  write_msg_with_prepended_size s msg =
      let size = put_uint32 (u32 (length msg)) in
      if not (complete s size)
      then ((lib.write s size).0, false)
      else ((lib.write (lib.write s size).0 msg).0, complete (lib.write s size).0 msg)

  write_lem :
      (s : lib.Stream) (d : Bytes)
      → complete s d ≡ true
      → lib.arrived (lib.write s d).0 ≡ lib.arrived s ++ d
  write_lem s d h = lib.arrived-write s d (ground (arith, h)) (ground (arith, h))

  append_assoc : (a b c : Bytes) → (a ++ b) ++ c ≡ a ++ (b ++ c)
  append_assoc [] b c = refl
  append_assoc (x ∷ a) b c = ap (λ l. x ∷ l) (append_assoc a b c)

  arrived-frame :
      (s : lib.Stream) (msg : Bytes)
      → (write_msg_with_prepended_size s msg).1 ≡ true
      → lib.arrived (write_msg_with_prepended_size s msg).0 ≡ lib.arrived s ++ frame msg
  unfolding write_msg_with_prepended_size frame
  arrived-frame s msg h =
      let size = put_uint32 (u32 (length msg)) in
      let first_done : complete s size ≡ true = ground (arith, h) in
      let all_done : complete (lib.write s size).0 msg ≡ true = ground (arith, h) in
      rw first_done (
        write_lem (lib.write s size).0 msg all_done
        ∙ ap (λ l. l ++ msg) (write_lem s size first_done)
        ∙ append_assoc (lib.arrived s) size msg)

pub read_full-length : (d : Bytes) → read_full (length d) d ≡ some (d, [])
read_full-length [] = refl
read_full-length (b ∷ d) = rw (read_full-length d) refl

pub read-frame :
    (msg : Bytes) → length msg < 4294967296 → read_msg_with_prepended_size (frame msg) ≡ some msg
unfolding read_msg_with_prepended_size frame put_uint32 read_sized
read-frame msg h =
    rw (u32_small (length msg) h, get_uint32-put_uint32 (length msg) h, read_full-length msg) refl

module _ (lib : StreamLib) where
  -- A message of less than 2^32 bytes, written to a new stream with no error, is what the other side
  -- reads.
  pub read-write :
      (s : lib.Stream) (msg : Bytes)
      → lib.arrived s ≡ []
      → length msg < 4294967296
      → (write_msg_with_prepended_size lib s msg).1 ≡ true
      → read_msg_with_prepended_size (lib.arrived (write_msg_with_prepended_size lib s msg).0)
        ≡ some msg
  read-write s msg new short sent =
      ap read_msg_with_prepended_size (arrived-frame lib s msg sent ∙ ap (λ l. l ++ frame msg) new)
      ∙ read-frame msg short

-- ===== src/P2p/Rpc.antt =====
-- p2p/p2p.go: `Send`, `SendRPC` and the stream handlers of `NewP2PServer`. What libp2p does between
-- two nodes is a function `exchange`: from the bytes written on a new stream to what comes back. A read
-- has no timeout, so a peer that neither answers nor closes its stream holds up the caller for ever.
use go_minimal_pbft.Prelude.{ℕ, ◌<◌, ◌≡◌, ◌≢◌, refl, ap, ◌∙◌, arith, Option, none, some, length}
use go_minimal_pbft.Messages.{Bytes}
use go_minimal_pbft.P2p.Wire.{WireRlp}
use go_minimal_pbft.P2p.Framing.{frame, read_msg_with_prepended_size, read-frame}

-- What a call to a peer gives: an answer, an error, or nothing, and no return either.
pub data Answer (A : Type 0) : Type 0 where
  answered : A → Answer A
  broken : Answer A
  silent : Answer A

abbrev pub framed : Option Bytes → Option Bytes
unfolding frame
framed none = none
framed (some d) = some (frame d)

module _ {A : Type 0} where
  -- An error where there is no value.
  abbrev pub or_broken : Option A → Answer A
  or_broken none = broken
  or_broken (some a) = answered a

  abbrev pub decoded_from : (Bytes → Option A) → Option Bytes → Option A
  decoded_from decode none = none
  decoded_from decode (some d) = decode d

  -- What comes back, read and decoded.
  abbrev pub reply_from : (Bytes → Option A) → Answer Bytes → Answer A
  unfolding read_msg_with_prepended_size
  reply_from decode broken = broken
  reply_from decode silent = silent
  reply_from decode (answered back) =
      or_broken (decoded_from decode (read_msg_with_prepended_size back))

  -- `SendRPC`; the request is its encoding.
  unfoldable pub send_rpc : (Bytes → Answer Bytes) → Option Bytes → (Bytes → Option A) → Answer A
  unfolding frame read_msg_with_prepended_size
  send_rpc exchange none decode = broken
  send_rpc exchange (some d) decode = reply_from decode (exchange (frame d))

  or_broken-silent : (o : Option A) → or_broken o ≢ silent
  or_broken-silent none h = ground (arith, h)
  or_broken-silent (some a) h = ground (arith, h)

  reply_from-silent :
      (decode : Bytes → Option A) (o : Answer Bytes) → reply_from decode o ≡ silent → o ≡ silent
  unfolding reply_from
  reply_from-silent decode broken h = elim (or_broken-silent none h) [ ]
  reply_from-silent decode silent h = refl
  reply_from-silent decode (answered back) h = elim (or_broken-silent _ h) [ ]

  -- A call that does not return was to a peer that stays silent on some bytes.
  pub send_rpc-silent :
      (exchange : Bytes → Answer Bytes) (o : Option Bytes) (decode : Bytes → Option A)
      → send_rpc exchange o decode ≡ silent
      → (d : Bytes) × (exchange d ≡ silent)
  unfolding send_rpc
  send_rpc-silent exchange none decode h = elim (or_broken-silent none h) [ ]
  send_rpc-silent exchange (some d) decode h =
      (frame d, reply_from-silent decode (exchange (frame d)) h)

  abbrev pub answer : (A → Option Bytes) → Option A → Option Bytes
  unfolding frame
  answer respond none = none
  answer respond (some request) = framed (respond request)

  -- A stream handler: it reads a request, and writes a response if nothing fails.
  unfoldable pub serve : (Bytes → Option A) → (A → Option Bytes) → Bytes → Option Bytes
  unfolding frame read_msg_with_prepended_size
  serve decode respond d = answer respond (decoded_from decode (read_msg_with_prepended_size d))

  serve-frame :
      (decode : Bytes → Option A) (respond : A → Option Bytes) (d r : Bytes) (a : A)
      → length d < 4294967296
      → decode d ≡ some a
      → respond a ≡ some r
      → serve decode respond (frame d) ≡ some (frame r)
  unfolding serve framed
  serve-frame decode respond d r a short dec res = rw (read-frame d short, dec, res) refl

-- A stream to a node with such a handler. The handler closes the stream when it returns.
abbrev pub stream_to : (Bytes → Option Bytes) → Bytes → Answer Bytes
stream_to handler d = or_broken (handler d)

-- A request that is answered by such a handler at the other side.
pub send_rpc-serve :
    {A R : Type 0} (decode : Bytes → Option A) (respond : A → Option Bytes)
    (decode_reply : Bytes → Option R) (d r : Bytes) (a : A)
    → length d < 4294967296
    → length r < 4294967296
    → decode d ≡ some a
    → respond a ≡ some r
    → send_rpc (stream_to (serve decode respond)) (some d) decode_reply ≡ or_broken (decode_reply r)
unfolding send_rpc
send_rpc-serve decode respond decode_reply d r a short short' dec res =
    rw (serve-frame decode respond d r a short dec res, read-frame r short') refl

module _ {B : Type 0} (rlp : WireRlp B) where
  -- The handler of `TopicHello`, with the height of the block store.
  unfoldable pub on_hello : ℕ → Bytes → Option Bytes
  unfolding serve
  on_hello height = serve rlp.decode_height (λ last. rlp.encode_height height)

  abbrev pub encode_loaded : Option B → Option Bytes
  encode_loaded none = none
  encode_loaded (some b) = rlp.encode_block b

  -- The handler of `TopicFullBlock`, with the store's `LoadBlock` and `LoadBlockCommit` and the
  -- library's `WithCommit`.
  unfoldable pub on_full_block :
      {C : Type 0}
      → (ℕ → Option B)
      → (ℕ → Option C)
      → (Option B → Option C → Option B)
      → Bytes
      → Option Bytes
  unfolding serve
  on_full_block load_block load_commit with_commit =
      serve rlp.decode_height (λ h. encode_loaded (with_commit (load_block h) (load_commit h)))

  -- The calls of block sync.
  unfoldable pub hello_rpc : (Bytes → Answer Bytes) → Answer ℕ
  unfolding send_rpc
  hello_rpc exchange = send_rpc exchange (rlp.encode_height 0) rlp.decode_height

  unfoldable pub full_block_rpc : (Bytes → Answer Bytes) → ℕ → Answer B
  unfolding send_rpc
  full_block_rpc exchange h = send_rpc exchange (rlp.encode_height h) rlp.decode_block

  -- A node that says hello to another gets the height of the other's block store.
  pub hello_rpc-on_hello :
      (height : ℕ) (d r : Bytes)
      → rlp.encode_height 0 ≡ some d
      → rlp.encode_height height ≡ some r
      → length d < 4294967296
      → length r < 4294967296
      → hello_rpc (stream_to (on_hello height)) ≡ answered height
  unfolding hello_rpc on_hello
  hello_rpc-on_hello height d r enc enc' short short' = rw enc (
      send_rpc-serve rlp.decode_height (λ last. rlp.encode_height height) rlp.decode_height d r 0
        short short' (rlp.decode-encode_height 0 d enc) enc'
      ∙ ap or_broken (rlp.decode-encode_height height r enc'))

  -- A node that asks another for the block of a height that the other has gets that block, where the
  -- request and the block encode to less than 2^32 bytes.
  pub full_block_rpc-on_full_block :
      {C : Type 0} (load_block : ℕ → Option B) (load_commit : ℕ → Option C)
      (with_commit : Option B → Option C → Option B) (h : ℕ) (b : B) (d r : Bytes)
      → with_commit (load_block h) (load_commit h) ≡ some b
      → rlp.encode_height h ≡ some d
      → rlp.encode_block b ≡ some r
      → length d < 4294967296
      → length r < 4294967296
      → full_block_rpc (stream_to (on_full_block load_block load_commit with_commit)) h ≡ answered b
  unfolding full_block_rpc on_full_block
  full_block_rpc-on_full_block load_block load_commit with_commit h b d r has enc enc' short
        short' =
      rw enc (
        send_rpc-serve rlp.decode_height
          (λ h. encode_loaded (with_commit (load_block h) (load_commit h))) rlp.decode_block d r h
          short short' (rlp.decode-encode_height h d enc) (ap encode_loaded has ∙ enc')
        ∙ ap or_broken (rlp.decode-encode_block b r enc'))

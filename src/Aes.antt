-- ===== src/Aes.antt =====
-- src/crypto/aes.rs: the stream that encrypts what is written and decrypts what is read. A poll is
-- a function from a state to an answer and the next state.
pub mod Pending
pub mod Steps
pub mod Writes
pub mod Quiet
pub mod Order
mod Examples
use frame_mc.Prelude.{
  ℕ, zero, suc, ◌+◌, ◌*◌, ◌≡◌, List, [], ◌∷◌, ◌++◌, Bool, true, false, Option, none, some, length,
  take, drop, min, ltb, ◌==◌, if◌then◌else◌,
}
use frame_mc.Polls.{
  Poll, ready, pending, failed, Inner, inner_write, inner_flush, inner_shutdown, inner_read,
}
use frame_mc.Error.{write_zero, not_connected}

-- What the crates aes and cfb8 give: the two directions, each with a state that a call moves on.
pub record Cipher (State : Type 0) : Type 0 where
  pub start : List ℕ → State
  pub encrypt_blocks : List ℕ → State → List ℕ × State
  pub decrypt_blocks : List ℕ → State → List ℕ × State

-- The blocks have one byte and are worked on in order, and a decryptor undoes an encryptor that
-- starts from the same state, and moves on with it.
pub record IsCipher {State : Type 0} (c : Cipher State) : Type 0 where
  pub encrypt-nil : (st : State) → c.encrypt_blocks [] st ≡ ([], st)
  pub encrypt-append :
      (xs ys : List ℕ) (st : State)
      → c.encrypt_blocks (xs ++ ys) st ≡ (
        (c.encrypt_blocks xs st).0 ++ (c.encrypt_blocks ys (c.encrypt_blocks xs st).1).0,
        (c.encrypt_blocks ys (c.encrypt_blocks xs st).1).1,
      )
  pub decrypt-append :
      (xs ys : List ℕ) (st : State)
      → c.decrypt_blocks (xs ++ ys) st ≡ (
        (c.decrypt_blocks xs st).0 ++ (c.decrypt_blocks ys (c.decrypt_blocks xs st).1).0,
        (c.decrypt_blocks ys (c.decrypt_blocks xs st).1).1,
      )
  pub decrypt-encrypt :
      (xs : List ℕ) (st : State)
      → c.decrypt_blocks (c.encrypt_blocks xs st).0 st ≡ (xs, (c.encrypt_blocks xs st).1)

pub record EncryptedStream (State : Type 0) : Type 0 where
  pub inner : Option Inner
  pub encryptor : State
  pub decryptor : State
  pub write_buf : List ℕ
  pub write_cursor : ℕ
  pub shared_secret : List ℕ

-- What `flush_pending_write` works on: the stream below, the buffer and its cursor.
pub record Buffered : Type 0 where
  pub received : List ℕ
  pub writes : List (Poll ℕ)
  pub write_buf : List ℕ
  pub write_cursor : ℕ

-- Behind the loop: `write_buf.clear(); *write_cursor = 0`.
abbrev pub cleared : Buffered → Buffered
cleared b = record b { write_buf = []; write_cursor = 0 }

-- One round of `while *write_cursor < write_buf.len()` on an answer of the stream below, with the
-- rounds that follow it.
unfoldable pub flush_round :
    Poll ℕ → Buffered → (Buffered → Poll (Unit {0}) × Buffered) → Poll (Unit {0}) × Buffered
flush_round (ready n) b more =
    let n' = min n (length (drop b.write_cursor b.write_buf)) in
    if n' == 0
    then (failed write_zero, b)
    else more (record b {
      received = b.received ++ take n' (drop b.write_cursor b.write_buf);
      write_cursor = b.write_cursor + n';
    })
flush_round (failed e) b more = (failed e, b)
flush_round pending b more = (pending, b)

-- The loop. Each round uses one answer up, so it ends; with none left it waits.
unfoldable pub flush_loop : List (Poll ℕ) → List ℕ → List ℕ → ℕ → Poll (Unit {0}) × Buffered
flush_loop [] received write_buf write_cursor =
    let b : Buffered = record {
      received = received;
      writes = [];
      write_buf = write_buf;
      write_cursor = write_cursor;
    } in
    if ltb write_cursor (length write_buf) then (pending, b) else (ready tt, cleared b)
flush_loop (reply ∷ replies) received write_buf write_cursor =
    let b : Buffered = record {
      received = received;
      writes = reply ∷ replies;
      write_buf = write_buf;
      write_cursor = write_cursor;
    } in
    if ltb write_cursor (length write_buf)
    then flush_round reply (record b { writes = replies })
        (λ (next : Buffered). flush_loop replies next.received next.write_buf next.write_cursor)
    else (ready tt, cleared b)

abbrev pub chunk_limit : ℕ
chunk_limit = 64 * 1024

module _ {State : Type 0} (c : Cipher State) where
  unfoldable pub new : Inner → List ℕ → EncryptedStream State
  new inner shared_secret = record {
    inner = some inner;
    encryptor = c.start shared_secret;
    decryptor = c.start shared_secret;
    write_buf = [];
    write_cursor = 0;
    shared_secret = shared_secret;
  }

  -- `flush_pending_write(inner, &mut this.write_buf, &mut this.write_cursor, cx)`
  unfoldable pub flush_pending_write :
      Inner → EncryptedStream State → Poll (Unit {0}) × Inner × EncryptedStream State
  flush_pending_write inner this =
      let (answer, b) = flush_loop inner.writes inner.received this.write_buf this.write_cursor in
      let inner' : Inner = record inner { writes = b.writes; received = b.received } in
      (
        answer,
        inner',
        record this { inner = some inner'; write_buf = b.write_buf; write_cursor = b.write_cursor },
      )

  -- Parts 2 and 3 of `poll_write`: the next chunk, encrypted, and what is left of it.
  unfoldable pub write_chunk :
      List ℕ → Inner → EncryptedStream State → Poll ℕ × EncryptedStream State
  write_chunk buf inner this =
      let chunk_len = min (length buf) chunk_limit in
      let (ciphertext, encryptor) = c.encrypt_blocks (take chunk_len buf) this.encryptor in
      let (answer, inner') = inner_write ciphertext inner in
      let this' : EncryptedStream State = record this {
        inner = some inner';
        encryptor = encryptor;
      } in
      elim answer [
        | ready n ↦ (
          ready chunk_len,
          if ltb n (length ciphertext)
              then record this' { write_buf = ciphertext; write_cursor = n }
              else this',
        )
        | pending ↦ (ready chunk_len, record this' { write_buf = ciphertext; write_cursor = 0 })
        | failed e ↦ (failed e, this')
      ]

  abbrev pub write_flushed :
      List ℕ → Poll (Unit {0}) × Inner × EncryptedStream State → Poll ℕ × EncryptedStream State
  write_flushed [] (ready _, inner, this) = (ready 0, this)
  write_flushed (b ∷ bs) (ready _, inner, this) = write_chunk (b ∷ bs) inner this
  write_flushed buf (pending, inner, this) = (pending, this)
  write_flushed buf (failed e, inner, this) = (failed e, this)

  unfoldable pub poll_write : List ℕ → EncryptedStream State → Poll ℕ × EncryptedStream State
  poll_write buf this = elim this.inner [
    | none ↦ (failed not_connected, this)
    | some inner ↦ write_flushed buf (flush_pending_write inner this)
  ]

  -- `poll_flush` and `poll_shutdown`: the same, but for the call of the stream below.
  abbrev pub then_inner :
      (Inner → Poll (Unit {0}) × Inner)
      → Poll (Unit {0}) × Inner × EncryptedStream State
      → Poll (Unit {0}) × EncryptedStream State
  then_inner call (ready _, inner, this) =
      let (answer, inner') = call inner in (answer, record this { inner = some inner' })
  then_inner call (pending, inner, this) = (pending, this)
  then_inner call (failed e, inner, this) = (failed e, this)

  unfoldable pub poll_flush : EncryptedStream State → Poll (Unit {0}) × EncryptedStream State
  poll_flush this = elim this.inner [
    | none ↦ (failed not_connected, this)
    | some inner ↦ then_inner inner_flush (flush_pending_write inner this)
  ]

  unfoldable pub poll_shutdown : EncryptedStream State → Poll (Unit {0}) × EncryptedStream State
  poll_shutdown this = elim this.inner [
    | none ↦ (failed not_connected, this)
    | some inner ↦ then_inner inner_shutdown (flush_pending_write inner this)
  ]

  -- What a read makes of the answer of the stream below.
  abbrev pub answer_read :
      Poll (List ℕ) → Inner → EncryptedStream State → Poll (List ℕ) × EncryptedStream State
  answer_read (ready []) inner this = (ready [], record this { inner = some inner })
  answer_read (ready (b ∷ bs)) inner this =
      let (plain, decryptor) = c.decrypt_blocks (b ∷ bs) this.decryptor in
      (ready plain, record this { inner = some inner; decryptor = decryptor })
  answer_read pending inner this = (pending, record this { inner = some inner })
  answer_read (failed e) inner this = (failed e, record this { inner = some inner })

  -- The bytes that a read adds to a buffer with so much room.
  unfoldable pub poll_read : ℕ → EncryptedStream State → Poll (List ℕ) × EncryptedStream State
  poll_read room this = elim this.inner [
    | none ↦ (failed not_connected, this)
    | some inner ↦ answer_read (inner_read room inner).0 (inner_read room inner).1 this
  ]

  -- `get_ref` and `into_inner`, which wipes the secret and what waits in the buffer.
  unfoldable pub get_ref : EncryptedStream State → Option Inner
  get_ref this = this.inner

  unfoldable pub into_inner : EncryptedStream State → Option Inner
  into_inner this = this.inner

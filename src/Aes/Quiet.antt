-- ===== src/Aes/Quiet.antt =====
-- The polls that write nothing new: flush, shutdown and read.
use frame_mc.Polls.{Poll, ready, pending, failed, Inner, inner_flush, inner_shutdown, inner_read}
use frame_mc.Aes.{answer_read}
use frame_mc.Prelude.{ℕ, ◌≡◌, arith, refl, sym, ap, ◌∙◌, List, [], ◌∷◌}
use frame_mc.Prelude.{append-nil, some}
use frame_mc.Aes.{Cipher, EncryptedStream}
use frame_mc.Aes.{flush_pending_write, then_inner, poll_flush, poll_shutdown, poll_read}
use frame_mc.Aes.Pending.{due}
use frame_mc.Aes.Steps.{Moved, flush_pending_write-ready, behind_flush, still}

module _ {State : Type 0} (c : Cipher State) where
  -- A call below that writes nothing.
  abbrev IsQuiet : (Inner → Poll (Unit {0}) × Inner) → Type 0
  IsQuiet call = (inner : Inner) → (call inner).1.received ≡ inner.received

  then_inner_lem :
      (call : Inner → Poll (Unit {0}) × Inner)
      → IsQuiet call
      → (answer : Poll (Unit {0})) (inner : Inner) (this : EncryptedStream State)
      → this.inner ≡ some inner
      → Moved c inner this (then_inner c call (answer, inner, this)).1 [] this.encryptor
  then_inner_lem call quiet (ready _) inner this there = record {
    inner' = (call inner).1;
    there = refl;
    joined =
        ap (λ (l : List ℕ). due l this.write_buf this.write_cursor) (quiet inner)
        ∙ sym (append-nil (due inner.received this.write_buf this.write_cursor));
    encryptor = refl;
  }
  then_inner_lem call quiet pending inner this there = still c inner this there
  then_inner_lem call quiet (failed x) inner this there = still c inner this there

  inner_flush-IsQuiet : IsQuiet inner_flush
  unfolding inner_flush
  inner_flush-IsQuiet inner = ground arith

  inner_shutdown-IsQuiet : IsQuiet inner_shutdown
  unfolding inner_shutdown
  inner_shutdown-IsQuiet inner = ground arith

  poll_flush_open :
      (inner : Inner) (this : EncryptedStream State)
      → this.inner ≡ some inner
      → poll_flush c this ≡ then_inner c inner_flush (flush_pending_write c inner this)
  unfolding poll_flush
  poll_flush_open inner this there = rw there

  pub poll_flush_lem :
      (inner : Inner) (this : EncryptedStream State)
      → this.inner ≡ some inner
      → Moved c inner this (poll_flush c this).1 [] this.encryptor
  unfolding flush_pending_write
  poll_flush_lem inner this there = rw (poll_flush_open inner this there) (
      behind_flush c inner this _ [] this.encryptor (
        then_inner_lem inner_flush inner_flush-IsQuiet (flush_pending_write c inner this).0
          (flush_pending_write c inner this).1 (flush_pending_write c inner this).2 refl))

  then_inner_ready :
      (call : Inner → Poll (Unit {0}) × Inner) (answer : Poll (Unit {0})) (inner : Inner)
      (this : EncryptedStream State)
      → (answer ≡ ready tt → this.write_buf ≡ [])
      → (then_inner c call (answer, inner, this)).0 ≡ ready tt
      → (then_inner c call (answer, inner, this)).1.write_buf ≡ []
  then_inner_ready call (ready _) inner this empty e = empty refl
  then_inner_ready call pending inner this empty e = absurd (ground arith)
  then_inner_ready call (failed x) inner this empty e = absurd (ground arith)

  -- A flush that is ready leaves nothing in the buffer.
  pub poll_flush_ready :
      (inner : Inner) (this : EncryptedStream State)
      → this.inner ≡ some inner
      → (poll_flush c this).0 ≡ ready tt
      → (poll_flush c this).1.write_buf ≡ []
  poll_flush_ready inner this there e = rw (poll_flush_open inner this there) (
      then_inner_ready inner_flush (flush_pending_write c inner this).0
        (flush_pending_write c inner this).1 (flush_pending_write c inner this).2
        (flush_pending_write-ready c inner this) (rw (poll_flush_open inner this there) at e))

  poll_shutdown_open :
      (inner : Inner) (this : EncryptedStream State)
      → this.inner ≡ some inner
      → poll_shutdown c this ≡ then_inner c inner_shutdown (flush_pending_write c inner this)
  unfolding poll_shutdown
  poll_shutdown_open inner this there = rw there

  pub poll_shutdown_lem :
      (inner : Inner) (this : EncryptedStream State)
      → this.inner ≡ some inner
      → Moved c inner this (poll_shutdown c this).1 [] this.encryptor
  unfolding flush_pending_write
  poll_shutdown_lem inner this there = rw (poll_shutdown_open inner this there) (
      behind_flush c inner this _ [] this.encryptor (
        then_inner_lem inner_shutdown inner_shutdown-IsQuiet (flush_pending_write c inner this).0
          (flush_pending_write c inner this).1 (flush_pending_write c inner this).2 refl))

  inner_read-received :
      (room : ℕ) (inner : Inner) (replies : List (Poll (List ℕ)))
      → inner.reads ≡ replies
      → (inner_read room inner).1.received ≡ inner.received
  unfolding inner_read
  inner_read-received room inner [] h = rw h
  inner_read-received room inner (ready bytes ∷ replies) h = rw h
  inner_read-received room inner (pending ∷ replies) h = rw h
  inner_read-received room inner (failed x ∷ replies) h = rw h

  -- A step that leaves the buffer and the encryptor, over a stream that has taken the same bytes.
  over_below :
      (below inner : Inner) (this : EncryptedStream State)
      → below.received ≡ inner.received
      → Moved c inner this (record this { inner = some below }) [] this.encryptor
  over_below below inner this same = record {
    inner' = below;
    there = refl;
    joined =
        ap (λ (l : List ℕ). due l this.write_buf this.write_cursor) same
        ∙ sym (append-nil (due inner.received this.write_buf this.write_cursor));
    encryptor = refl;
  }

  read_answer :
      (answer : Poll (List ℕ)) (below inner : Inner) (this : EncryptedStream State)
      → below.received ≡ inner.received
      → Moved c inner this (answer_read c answer below this).1 [] this.encryptor
  read_answer (ready []) below inner this same = over_below below inner this same
  read_answer (ready (b ∷ bs)) below inner this same =
      let m = over_below below inner this same in
      record { inner' = m.inner'; there = m.there; joined = m.joined; encryptor = refl }
  read_answer pending below inner this same = over_below below inner this same
  read_answer (failed x) below inner this same = over_below below inner this same

  poll_read_open :
      (room : ℕ) (inner : Inner) (this : EncryptedStream State)
      → this.inner ≡ some inner
      → poll_read c room this
        ≡ answer_read c (inner_read room inner).0 (inner_read room inner).1 this
  unfolding poll_read
  poll_read_open room inner this there = rw there

  pub poll_read_lem :
      (room : ℕ) (inner : Inner) (this : EncryptedStream State)
      → this.inner ≡ some inner
      → Moved c inner this (poll_read c room this).1 [] this.encryptor
  poll_read_lem room inner this there = rw (poll_read_open room inner this there) (
      read_answer (inner_read room inner).0 (inner_read room inner).1 inner this
        (inner_read-received room inner inner.reads refl))

-- ===== src/Aes/Writes.antt =====
-- What a write does, accepted or not.
use frame_mc.Polls.{Poll, ready, pending, failed, Inner}
use frame_mc.Prelude.{ℕ, zero, suc, ◌≡◌, arith, refl, sym, ◌∙◌, List, [], ◌∷◌, take}
use frame_mc.Prelude.{append-nil, some}
use frame_mc.Aes.{Cipher, IsCipher, EncryptedStream}
use frame_mc.Aes.{flush_pending_write, write_chunk, write_flushed, poll_write}
use frame_mc.Aes.Pending.{due}
use frame_mc.Aes.Steps.{Moved, flush_pending_write-ready, behind_flush, still, write_chunk_lem}

take_nil : (n : ℕ) → take {A = ℕ} n [] ≡ []
take_nil zero = refl
take_nil (suc n) = refl

module _ {State : Type 0} (c : Cipher State) where
  write_flushed_pending :
      (buf : List ℕ) (answer : Poll (Unit {0})) (inner : Inner) (this next : EncryptedStream State)
      → write_flushed c buf (answer, inner, this) ≡ (pending, next)
      → next ≡ this
  unfolding write_chunk
  write_flushed_pending [] (ready _) inner this next e = absurd (ground arith)
  write_flushed_pending (b ∷ bs) (ready _) inner this next e = absurd (ground arith)
  write_flushed_pending buf pending inner this next e = ground arith
  write_flushed_pending buf (failed x) inner this next e = absurd (ground arith)

  poll_write_open :
      (buf : List ℕ) (inner : Inner) (this : EncryptedStream State)
      → this.inner ≡ some inner
      → poll_write c buf this ≡ write_flushed c buf (flush_pending_write c inner this)
  unfolding poll_write
  poll_write_open buf inner this there = rw there

  pub poll_write_pending :
      (buf : List ℕ) (inner : Inner) (this next : EncryptedStream State)
      → this.inner ≡ some inner
      → poll_write c buf this ≡ (pending, next)
      → Moved c inner this next [] this.encryptor
  unfolding flush_pending_write
  poll_write_pending buf inner this next there e =
      let same : next ≡ (flush_pending_write c inner this).2 =
        write_flushed_pending buf (flush_pending_write c inner this).0
          (flush_pending_write c inner this).1 (flush_pending_write c inner this).2 next
          (sym (poll_write_open buf inner this there) ∙ e) in
      rw same (
        behind_flush c inner this (flush_pending_write c inner this).2 [] this.encryptor
          (still c (flush_pending_write c inner this).1 (flush_pending_write c inner this).2 refl))

module _ {State : Type 0} (c : Cipher State) (law : IsCipher c) where
  write_flushed_ready :
      (buf : List ℕ) (answer : Poll (Unit {0})) (inner : Inner) (this next : EncryptedStream State)
      (n : ℕ)
      → this.inner ≡ some inner
      → (answer ≡ ready tt → this.write_buf ≡ [])
      → write_flushed c buf (answer, inner, this) ≡ (ready n, next)
      → Moved c inner this next
          (c.encrypt_blocks (take n buf) this.encryptor).0
          (c.encrypt_blocks (take n buf) this.encryptor).1
  write_flushed_ready [] (ready _) inner this next n there empty e = record {
    inner' = inner;
    there = ground arith;
    joined = ground (
      arith,
      nothing,
      law.encrypt-nil this.encryptor,
      append-nil (due inner.received this.write_buf this.write_cursor),
    );
    encryptor = ground (arith, nothing, law.encrypt-nil this.encryptor);
  }
    where
      nothing : take {A = ℕ} n [] ≡ []
      nothing = take_nil n
  write_flushed_ready (b ∷ bs) (ready _) inner this next n there empty e =
      write_chunk_lem c (b ∷ bs) inner this next n (empty refl) e
  write_flushed_ready buf pending inner this next n there empty e = absurd (ground arith)
  write_flushed_ready buf (failed x) inner this next n there empty e = absurd (ground arith)

  pub poll_write_ready :
      (buf : List ℕ) (inner : Inner) (this next : EncryptedStream State) (n : ℕ)
      → this.inner ≡ some inner
      → poll_write c buf this ≡ (ready n, next)
      → Moved c inner this next
          (c.encrypt_blocks (take n buf) this.encryptor).0
          (c.encrypt_blocks (take n buf) this.encryptor).1
  unfolding flush_pending_write
  poll_write_ready buf inner this next n there e =
      behind_flush c inner this next (c.encrypt_blocks (take n buf) this.encryptor).0
        (c.encrypt_blocks (take n buf) this.encryptor).1
        (write_flushed_ready buf (flush_pending_write c inner this).0
          (flush_pending_write c inner this).1 (flush_pending_write c inner this).2 next n refl
          (flush_pending_write-ready c inner this)
          (sym (poll_write_open c buf inner this there) ∙ e))

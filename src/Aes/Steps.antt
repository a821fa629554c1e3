-- ===== src/Aes/Steps.antt =====
-- What one poll does to the bytes that were taken or wait, and to the encryptor.
use frame_mc.Polls.{Poll, ready, pending, failed, Inner, inner_write}
use frame_mc.Prelude.{
  ℕ, zero, suc, ◌≡◌, arith, refl, sym, ap, ◌∙◌, List, [], ◌∷◌, ◌++◌, length, take, drop, min,
}
use frame_mc.Prelude.{append-nil, append_assoc, drop_all, take-append-drop, some, ◌⊎◌, inl, inr}
use frame_mc.Error.{IoKind}
use frame_mc.Aes.{Cipher, EncryptedStream}
use frame_mc.Aes.{flush_pending_write, chunk_limit, write_chunk}
use frame_mc.Aes.Pending.{due, flush_loop-due, flush_loop-ready}

-- What the stream below has taken after it was offered some bytes.
abbrev Written : List ℕ → Inner → Type 0
Written bytes inner =
    ((n : ℕ) × ((inner_write bytes inner).0 ≡ ready n)
      × ((inner_write bytes inner).1.received ++ drop n bytes ≡ inner.received ++ bytes))
    ⊎ (((inner_write bytes inner).0 ≡ pending)
        × ((inner_write bytes inner).1.received ≡ inner.received))
    ⊎ ((e : IoKind) × ((inner_write bytes inner).0 ≡ failed e))

inner_write_due :
    (bytes : List ℕ) (inner : Inner) (replies : List (Poll ℕ))
    → inner.writes ≡ replies
    → Written bytes inner
unfolding inner_write
inner_write_due bytes inner [] h = rw h (inr (inl (refl, refl)))
inner_write_due bytes inner (failed e ∷ replies) h = rw h (inr (inr (e, refl)))
inner_write_due bytes inner (pending ∷ replies) h = rw h (inr (inl (refl, refl)))
inner_write_due bytes inner (ready n ∷ replies) h = rw h (
    inl (
      min n (length bytes),
      refl,
      append_assoc inner.received _ _
          ∙ ap (λ (l : List ℕ). inner.received ++ l)
              (take-append-drop (min n (length bytes)) bytes),
    ))

pub drop_nil : (n : ℕ) → drop {A = ℕ} n [] ≡ []
drop_nil zero = refl
drop_nil (suc n) = refl

module _ {State : Type 0} (c : Cipher State) where
  -- The step of a poll from `this` to `next`: the stream below is there, `more` bytes have joined
  -- what was taken or waits, and the encryptor is at `state`.
  pub record Moved (inner : Inner) (this next : EncryptedStream State) (more : List ℕ)
      (state : State) : Type 0 where
    pub inner' : Inner
    pub there : next.inner ≡ some inner'
    pub joined :
        due inner'.received next.write_buf next.write_cursor
        ≡ due inner.received this.write_buf this.write_cursor ++ more
    pub encryptor : next.encryptor ≡ state

  pub write_chunk_lem :
      (buf : List ℕ) (inner : Inner) (this next : EncryptedStream State) (n : ℕ)
      → this.write_buf ≡ []
      → write_chunk c buf inner this ≡ (ready n, next)
      → Moved inner this next
          (c.encrypt_blocks (take n buf) this.encryptor).0
          (c.encrypt_blocks (take n buf) this.encryptor).1
  unfolding write_chunk
  write_chunk_lem buf inner this next n empty e =
      let chunk : List ℕ = take (min (length buf) chunk_limit) buf in
      let ciphertext : List ℕ = (c.encrypt_blocks chunk this.encryptor).0 in
      elim (inner_write_due ciphertext inner inner.writes refl) [
        | inl (m, w, r) ↦ record {
          inner' = (inner_write ciphertext inner).1;
          there = ground arith;
          joined = ground (
            arith,
            drop_all m ciphertext,
            drop_nil this.write_cursor,
            drop_nil next.write_cursor,
            append-nil inner.received,
            append-nil (inner_write ciphertext inner).1.received,
          );
          encryptor = ground arith;
        }
        | inr (inl (w, r)) ↦ record {
          inner' = (inner_write ciphertext inner).1;
          there = ground arith;
          joined = ground (arith, drop_nil this.write_cursor, append-nil inner.received);
          encryptor = ground arith;
        }
        | inr (inr (x, w)) ↦ absurd (ground arith)
      ]

  pub flush_pending_write-due :
      (inner : Inner) (this : EncryptedStream State)
      → due
          (flush_pending_write c inner this).1.received
          (flush_pending_write c inner this).2.write_buf
          (flush_pending_write c inner this).2.write_cursor
        ≡ due inner.received this.write_buf this.write_cursor
  unfolding flush_pending_write
  flush_pending_write-due inner this =
      flush_loop-due inner.writes inner.received this.write_buf this.write_cursor

  pub flush_pending_write-ready :
      (inner : Inner) (this : EncryptedStream State)
      → (flush_pending_write c inner this).0 ≡ ready tt
      → (flush_pending_write c inner this).2.write_buf ≡ []
  unfolding flush_pending_write
  flush_pending_write-ready inner this e =
      flush_loop-ready inner.writes inner.received this.write_buf this.write_cursor e

  -- A poll that first writes what waits moves what its second part moves.
  pub behind_flush :
      (inner : Inner) (this next : EncryptedStream State) (more : List ℕ) (state : State)
      → Moved
          (flush_pending_write c inner this).1
          (flush_pending_write c inner this).2
          next
          more
          state
      → Moved inner this next more state
  behind_flush inner this next more state m = record {
    inner' = m.inner';
    there = m.there;
    joined = m.joined ∙ ap (λ (l : List ℕ). l ++ more) (flush_pending_write-due inner this);
    encryptor = m.encryptor;
  }

  pub still :
      (inner : Inner) (this : EncryptedStream State)
      → this.inner ≡ some inner
      → Moved inner this this [] this.encryptor
  still inner this h = record {
    inner' = inner;
    there = h;
    joined = sym (append-nil (due inner.received this.write_buf this.write_cursor));
    encryptor = refl;
  }

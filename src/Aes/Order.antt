-- ===== src/Aes/Order.antt =====
-- Every run of an encrypted stream: what the stream below takes is the encryption of what was
-- accepted, in order.
use frame_mc.Prelude.{
  ℕ, ◌≡◌, refl, sym, ap, ◌∙◌, List, [], ◌++◌, take, drop, some, append-nil, append_assoc,
}
use frame_mc.Polls.{ready, pending, Inner}
use frame_mc.Aes.{
  Cipher, IsCipher, EncryptedStream, new, poll_write, poll_flush, poll_shutdown, poll_read,
}
use frame_mc.Aes.Pending.{due}
use frame_mc.Aes.Steps.{Moved, drop_nil}
use frame_mc.Aes.Writes.{poll_write_ready, poll_write_pending}
use frame_mc.Aes.Quiet.{poll_flush_lem, poll_flush_ready, poll_shutdown_lem, poll_read_lem}

module _ {State : Type 0} (c : Cipher State) (below : Inner) (secret : List ℕ) where
  -- The states that polls lead to from a new stream, with the plaintext that was accepted; a write
  -- that fails ends the run.
  pub data Runs : EncryptedStream State → List ℕ → Type 0 where
    created : Runs (new c below secret) []
    wrote :
        {this next : EncryptedStream State} {accepted : List ℕ} {n : ℕ} (buf : List ℕ)
        → Runs this accepted
        → poll_write c buf this ≡ (ready n, next)
        → Runs next (accepted ++ take n buf)
    write_waits :
        {this next : EncryptedStream State} {accepted : List ℕ} (buf : List ℕ)
        → Runs this accepted
        → poll_write c buf this ≡ (pending, next)
        → Runs next accepted
    flushed :
        {this : EncryptedStream State} {accepted : List ℕ}
        → Runs this accepted
        → Runs (poll_flush c this).1 accepted
    shut_down :
        {this : EncryptedStream State} {accepted : List ℕ}
        → Runs this accepted
        → Runs (poll_shutdown c this).1 accepted
    read :
        {this : EncryptedStream State} {accepted : List ℕ} (room : ℕ)
        → Runs this accepted
        → Runs (poll_read c room this).1 accepted

  -- The stream below has taken, and has still to take, the encryption of the accepted plaintext.
  pub record InOrder (this : EncryptedStream State) (accepted : List ℕ) : Type 0 where
    pub inner : Inner
    pub there : this.inner ≡ some inner
    pub bytes :
        due inner.received this.write_buf this.write_cursor
        ≡ below.received ++ (c.encrypt_blocks accepted (c.start secret)).0
    pub encryptor : this.encryptor ≡ (c.encrypt_blocks accepted (c.start secret)).1

  quiet :
      (this next : EncryptedStream State) (accepted : List ℕ) (h : InOrder this accepted)
      → Moved c h.inner this next [] this.encryptor
      → InOrder next accepted
  quiet this next accepted h m = record {
    inner = m.inner';
    there = m.there;
    bytes = m.joined ∙ append-nil (due h.inner.received this.write_buf this.write_cursor) ∙ h.bytes;
    encryptor = m.encryptor ∙ h.encryptor;
  }

  module _ (law : IsCipher c) where
    more_written :
        (this next : EncryptedStream State) (accepted more : List ℕ) (h : InOrder this accepted)
        → Moved c h.inner this next
            (c.encrypt_blocks more this.encryptor).0
            (c.encrypt_blocks more this.encryptor).1
        → InOrder next (accepted ++ more)
    more_written this next accepted more h m = record {
      inner = m.inner';
      there = m.there;
      bytes =
          rw (law.encrypt-append accepted more (c.start secret))
            (rw (h.bytes, h.encryptor) at m.joined ∙ append_assoc below.received _ _);
      encryptor =
          rw (law.encrypt-append accepted more (c.start secret)) (rw h.encryptor at m.encryptor);
    }

    at_start : InOrder (new c below secret) []
    unfolding new
    at_start = record {
      inner = below;
      there = refl;
      bytes = rw (law.encrypt-nil (c.start secret));
      encryptor = rw (law.encrypt-nil (c.start secret));
    }

    -- In every run, whatever the stream below answers and however the polls are mixed, up to a
    -- write that fails: the bytes that the stream below has taken, with those that wait in the
    -- buffer, are the encryption of the accepted plaintext, in order, none lost and none twice.
    -- The cipher works on its blocks in order.
    pub Runs-InOrder :
        (this : EncryptedStream State) (accepted : List ℕ)
        → Runs this accepted
        → InOrder this accepted
    Runs-InOrder this accepted created = at_start
    Runs-InOrder next accepted (wrote {this = this} {accepted = before} {n = n} buf runs e) =
        let h = Runs-InOrder this before runs in
        more_written this next before (take n buf) h
          (poll_write_ready c law buf h.inner this next n h.there e)
    Runs-InOrder next accepted (write_waits {this = this} buf runs e) =
        let h = Runs-InOrder this accepted runs in
        quiet this next accepted h (poll_write_pending c buf h.inner this next h.there e)
    Runs-InOrder next accepted (flushed {this} runs) =
        let h = Runs-InOrder this accepted runs in
        quiet this (poll_flush c this).1 accepted h (poll_flush_lem c h.inner this h.there)
    Runs-InOrder next accepted (shut_down {this} runs) =
        let h = Runs-InOrder this accepted runs in
        quiet this (poll_shutdown c this).1 accepted h (poll_shutdown_lem c h.inner this h.there)
    Runs-InOrder next accepted (read {this} room runs) =
        let h = Runs-InOrder this accepted runs in
        quiet this (poll_read c room this).1 accepted h (poll_read_lem c room h.inner this h.there)

    -- After a flush that is ready, in any run without a write that failed, the stream below has
    -- taken the encryption of all that was accepted, and decrypting it from the same secret gives
    -- the plaintext back. The cipher works on its blocks in order, and its decryptor undoes its
    -- encryptor.
    pub flushed-decrypt :
        (this : EncryptedStream State) (accepted : List ℕ)
        → Runs this accepted
        → (poll_flush c this).0 ≡ ready tt
        → (sent : List ℕ) × (inner : Inner) × ((poll_flush c this).1.inner ≡ some inner)
          × (inner.received ≡ below.received ++ sent)
          × ((c.decrypt_blocks sent (c.start secret)).0 ≡ accepted)
    flushed-decrypt this accepted runs e =
        let h = Runs-InOrder this accepted runs in
        let g = Runs-InOrder (poll_flush c this).1 accepted (flushed runs) in
        let empty = poll_flush_ready c h.inner this h.there e in
        let rest = drop (poll_flush c this).1.write_cursor (poll_flush c this).1.write_buf in
        let none_waits : rest ≡ [] = rw empty (drop_nil (poll_flush c this).1.write_cursor) in
        (
          (c.encrypt_blocks accepted (c.start secret)).0,
          g.inner,
          g.there,
          sym (append-nil g.inner.received)
              ∙ ap (λ (l : List ℕ). g.inner.received ++ l) (sym none_waits)
              ∙ g.bytes,
          ap (λ p. p.0) (law.decrypt-encrypt accepted (c.start secret)),
        )

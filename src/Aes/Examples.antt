-- ===== src/Aes/Examples.antt =====
-- A run over a stream that takes bytes in parts.
use frame_mc.Prelude.{ℕ, ◌+◌, ◌-◌, ◌≡◌, arith, refl, List, [], ◌∷◌, ◌++◌, some}
use frame_mc.Polls.{ready, pending, Inner, inner_write, inner_flush}
use frame_mc.Aes.{
  Cipher, IsCipher, EncryptedStream, new, poll_write, poll_flush, write_chunk, flush_pending_write,
  flush_loop, flush_round,
}
use frame_mc.Aes.Order.{Runs, created, wrote, write_waits, InOrder, Runs-InOrder, flushed-decrypt}

-- A cipher that adds the last byte of its output to the next of its input.
abbrev encrypt : List ℕ → ℕ → List ℕ × ℕ
encrypt [] st = ([], st)
encrypt (b ∷ bs) st = ((b + st) ∷ (encrypt bs (b + st)).0, (encrypt bs (b + st)).1)

abbrev decrypt : List ℕ → ℕ → List ℕ × ℕ
decrypt [] st = ([], st)
decrypt (b ∷ bs) st = ((b - st) ∷ (decrypt bs b).0, (decrypt bs b).1)

abbrev feedback : Cipher ℕ
feedback = record { start = λ key. 7; encrypt_blocks = encrypt; decrypt_blocks = decrypt }

encrypt-append :
    (xs ys : List ℕ) (st : ℕ)
    → encrypt (xs ++ ys) st
      ≡ ((encrypt xs st).0 ++ (encrypt ys (encrypt xs st).1).0, (encrypt ys (encrypt xs st).1).1)
encrypt-append [] ys st = refl
encrypt-append (x ∷ xs) ys st = ground (arith, encrypt-append xs ys (x + st))

decrypt-append :
    (xs ys : List ℕ) (st : ℕ)
    → decrypt (xs ++ ys) st
      ≡ ((decrypt xs st).0 ++ (decrypt ys (decrypt xs st).1).0, (decrypt ys (decrypt xs st).1).1)
decrypt-append [] ys st = refl
decrypt-append (x ∷ xs) ys st = ground (arith, decrypt-append xs ys x)

decrypt-encrypt : (xs : List ℕ) (st : ℕ) → decrypt (encrypt xs st).0 st ≡ (xs, (encrypt xs st).1)
decrypt-encrypt [] st = refl
decrypt-encrypt (x ∷ xs) st = ground (arith, decrypt-encrypt xs (x + st))

feedback-IsCipher : IsCipher feedback
feedback-IsCipher = record {
  encrypt-nil = λ st. refl;
  encrypt-append = encrypt-append;
  decrypt-append = decrypt-append;
  decrypt-encrypt = decrypt-encrypt;
}

-- It takes two bytes of the first write, is busy, and then takes what it is offered.
abbrev slow : Inner
slow = record {
  writes = ready 2 ∷ pending ∷ ready 1 ∷ ready 9 ∷ [];
  flushes = ready tt ∷ [];
  shutdowns = [];
  reads = [];
  received = [];
}

abbrev secret : List ℕ
secret = 1 ∷ []

abbrev plain : List ℕ
plain = 10 ∷ 20 ∷ 30 ∷ 40 ∷ []

abbrev begun : EncryptedStream ℕ
begun = new feedback slow secret

abbrev after_write : EncryptedStream ℕ
after_write = (poll_write feedback plain begun).1

abbrev after_wait : EncryptedStream ℕ
after_wait = (poll_write feedback plain after_write).1

write_accepted : poll_write feedback plain begun ≡ (ready 4, after_write)
unfolding poll_write new write_chunk inner_write flush_pending_write flush_loop
write_accepted = refl

-- The second write is not accepted, as the first still waits.
write_refused : poll_write feedback plain after_write ≡ (pending, after_wait)
unfolding poll_write new write_chunk inner_write flush_pending_write flush_loop flush_round
write_refused = refl

runs : Runs feedback slow secret after_wait plain
runs = write_waits plain (wrote plain created write_accepted) write_refused

Runs-InOrder_example : InOrder feedback slow secret after_wait plain
Runs-InOrder_example = Runs-InOrder feedback slow secret feedback-IsCipher after_wait plain runs

flush_is_ready : (poll_flush feedback after_wait).0 ≡ ready tt
unfolding poll_flush poll_write new write_chunk inner_write inner_flush flush_pending_write
    flush_loop flush_round
flush_is_ready = refl

flushed-decrypt_example :
    (sent : List ℕ) × (inner : Inner) × ((poll_flush feedback after_wait).1.inner ≡ some inner)
    × (inner.received ≡ [] ++ sent)
    × ((decrypt sent 7).0 ≡ plain)
flushed-decrypt_example =
    flushed-decrypt feedback slow secret feedback-IsCipher after_wait plain runs flush_is_ready

-- ===== src/Aes/Pending.antt =====
-- The buffer of pending bytes: no byte is lost or sent twice, whatever the stream below answers.
use frame_mc.Prelude.{
  ℕ, ◌+◌, ◌≡◌, ◌≤◌, arith, refl, sym, ap, ◌∙◌, List, [], ◌∷◌, ◌++◌, length, take, drop, min,
}
use frame_mc.Prelude.{append_assoc, drop_all, drop_more, take-append-drop}
use frame_mc.Polls.{Poll, ready, pending, failed}
use frame_mc.Aes.{flush_round, flush_loop}

-- The bytes that the stream below has taken, and those that wait behind the cursor.
abbrev pub due : List ℕ → List ℕ → ℕ → List ℕ
due received write_buf write_cursor = received ++ drop write_cursor write_buf

one_round :
    (received buf : List ℕ) (cursor n : ℕ)
    → due (received ++ take n (drop cursor buf)) buf (cursor + n) ≡ due received buf cursor
one_round received buf cursor n = rw append_assoc (
    ap (λ (l : List ℕ). received ++ l)
      (ap (λ (l : List ℕ). take n (drop cursor buf) ++ l)
          (sym (drop_more cursor n (cursor + n) buf refl))
        ∙ take-append-drop n (drop cursor buf)))

done :
    (received buf : List ℕ) (cursor : ℕ)
    → length buf ≤ cursor
    → due received buf cursor ≡ received ++ []
done received buf cursor h = ap (λ (l : List ℕ). received ++ l) (drop_all cursor buf h)

-- The round that takes `n` bytes.
abbrev advanced : List ℕ → List ℕ → ℕ → ℕ → List ℕ
advanced received buf cursor n = received ++ take n (drop cursor buf)

abbrev taken : List ℕ → ℕ → ℕ → ℕ
taken buf cursor n = min n (length (drop cursor buf))

-- Bytes taken and bytes that wait are the same before and after the loop.
pub flush_loop-due :
    (replies : List (Poll ℕ)) (received buf : List ℕ) (cursor : ℕ)
    → due
        (flush_loop replies received buf cursor).1.received
        (flush_loop replies received buf cursor).1.write_buf
        (flush_loop replies received buf cursor).1.write_cursor
      ≡ due received buf cursor
unfolding flush_loop flush_round
flush_loop-due [] received buf cursor = ground (arith, done received buf cursor)
flush_loop-due (failed e ∷ replies) received buf cursor = ground (arith, done received buf cursor)
flush_loop-due (pending ∷ replies) received buf cursor = ground (arith, done received buf cursor)
flush_loop-due (ready n ∷ replies) received buf cursor = ground (
  arith,
  done received buf cursor,
  one_round received buf cursor (taken buf cursor n),
  flush_loop-due replies (advanced received buf cursor (taken buf cursor n)) buf
      (cursor + taken buf cursor n),
)

-- A loop that ends has nothing left to write.
pub flush_loop-ready :
    (replies : List (Poll ℕ)) (received buf : List ℕ) (cursor : ℕ)
    → (flush_loop replies received buf cursor).0 ≡ ready tt
    → (flush_loop replies received buf cursor).1.write_buf ≡ []
unfolding flush_loop flush_round
flush_loop-ready [] received buf cursor e = ground arith
flush_loop-ready (failed x ∷ replies) received buf cursor e = ground arith
flush_loop-ready (pending ∷ replies) received buf cursor e = ground arith
flush_loop-ready (ready n ∷ replies) received buf cursor e = ground (
  arith,
  flush_loop-ready replies (advanced received buf cursor (taken buf cursor n)) buf
      (cursor + taken buf cursor n),
)

-- ===== src/Polls.antt =====
-- A stream that is polled, as the code above it sees it: `Poll` and the polls of tokio's traits.
use frame_mc.Prelude.{ℕ, List, [], ◌∷◌, ◌++◌, length, take, min}
use frame_mc.Error.{IoKind}

-- `Poll<std::io::Result<A>>`
pub data Poll (A : Type 0) : Type 0 where
  ready : A → Poll A
  pending : Poll A
  failed : IoKind → Poll A

-- The stream below: its answers to the polls that are to come, none of which means that it is not
-- ready, and the bytes that it has taken. It takes no more than it is offered.
pub record Inner : Type 0 where
  pub writes : List (Poll ℕ)
  pub flushes : List (Poll (Unit {0}))
  pub shutdowns : List (Poll (Unit {0}))
  pub reads : List (Poll (List ℕ))
  pub received : List ℕ

-- `Pin::new(inner).poll_write(cx, bytes)`
unfoldable pub inner_write : List ℕ → Inner → Poll ℕ × Inner
inner_write bytes inner = elim inner.writes [
  | [] ↦ (pending, inner)
  | reply ∷ replies ↦ elim reply [
    | ready n ↦ (
      ready (min n (length bytes)),
      record inner {
        writes = replies;
        received = inner.received ++ take (min n (length bytes)) bytes;
      },
    )
    | pending ↦ (pending, record inner { writes = replies })
    | failed e ↦ (failed e, record inner { writes = replies })
  ]
]

unfoldable pub inner_flush : Inner → Poll (Unit {0}) × Inner
inner_flush inner = elim inner.flushes [
  | [] ↦ (pending, inner)
  | reply ∷ replies ↦ (reply, record inner { flushes = replies })
]

unfoldable pub inner_shutdown : Inner → Poll (Unit {0}) × Inner
inner_shutdown inner = elim inner.shutdowns [
  | [] ↦ (pending, inner)
  | reply ∷ replies ↦ (reply, record inner { shutdowns = replies })
]

-- The bytes that a read puts into a buffer with so much room.
unfoldable pub inner_read : ℕ → Inner → Poll (List ℕ) × Inner
inner_read room inner = elim inner.reads [
  | [] ↦ (pending, inner)
  | reply ∷ replies ↦ elim reply [
    | ready bytes ↦ (ready (take room bytes), record inner { reads = replies })
    | pending ↦ (pending, record inner { reads = replies })
    | failed e ↦ (failed e, record inner { reads = replies })
  ]
]

-- ===== src/Machine/Method.antt =====
-- Methods that change their object and may fail: the result, and the object after it.
use frame_mc.Prelude.{◌≡◌, arith}
use frame_mc.Error.{Result, ProxyError, ok, err}

abbrev pub Act : Type 0 → Type 0 → Type 0
Act S A = S → Result A × S

infixl 5 ◌>>=◌ ◌>>◌
abbrev pub ◌>>=◌ : {S A B : Type 0} → Act S A → (A → Act S B) → Act S B
◌>>=◌ m f s = elim (m s).0 [ ok a ↦ f a (m s).1 | err e ↦ (err e, (m s).1) ]

abbrev pub ◌>>◌ : {S B : Type 0} → Act S (Unit {0}) → Act S B → Act S B
m >> k = m >>= λ _. k

abbrev pub pure : {S A : Type 0} → A → Act S A
pure a s = (ok a, s)

abbrev pub raise : {S A : Type 0} → ProxyError → Act S A
raise e s = (err e, s)

-- `let _ = m.await;`
abbrev pub attempt : {S A : Type 0} → Act S A → Act S (Unit {0})
attempt m s = (ok tt, (m s).1)

-- An assignment to fields.
abbrev pub update : {S : Type 0} → (S → S) → Act S (Unit {0})
update f s = (ok tt, f s)

-- A step that succeeds hands its state on.
pub then_ok :
    {S B : Type 0} (m : Act S (Unit {0})) (k : Act S B) (s s' : S)
    → m s ≡ (ok tt, s')
    → (m >> k) s ≡ k s'
then_ok m k s s' e = ground arith

-- ===== src/Prelude/Await.antt =====
-- Asynchronous calls and the locks that they take.
use mathlib.Core.Bool.{Bool, true, false}

-- What an asynchronous call comes to: it ends, or it waits for a lock that its own task holds.
pub data Awaited {ℓ} (A : Type ℓ) : Type ℓ where
  done : A → Awaited A
  blocked : Awaited A

-- A call that begins by taking the lock; the Boolean says whether the task holds it.
abbrev pub locked {ℓ} : {A : Type ℓ} → Bool → A → Awaited A
locked true a = blocked
locked false a = done a

abbrev pub await {ℓ κ} : {A : Type ℓ} {B : Type κ} → Awaited A → (A → Awaited B) → Awaited B
await (done a) f = f a
await blocked f = blocked

-- ===== src/Commands/Safety/Steps.antt =====
-- Steps that do not come to undefined behaviour, one after the other.
use iotools.Base.{List, [], ◌∷◌}
use iotools.Kernel.{Kernel, Log, Outcome, done, replaced, running, undefined, M}
use iotools.Kernel.Calls.{◌>>=◌, for_each}
use iotools.Kernel.Balance.{Returns}
use iotools.Commands.Safety.{Defined}

pub Defined-bind :
    {A B : Type 0} (P : A → Log → Type 0) (m : M A) (f : A → M B) (k : Kernel) (log : Log)
    → Returns P (m k log)
    → ((a : A) (log' : Log) → P a log' → Defined (f a k log'))
    → Defined ((m >>= f) k log)
Defined-bind {A} {B} P m f k log first next = go (m k log) first
  where
    go :
        (o : Outcome A)
        → Returns P o
        → Defined (elim o as (λ _. Outcome B) [
          | done a log' ↦ f a k log'
          | replaced log' ↦ replaced log'
          | running log' ↦ running log'
          | undefined ↦ undefined
        ])
    go (done a log') h = next a log' h
    go (replaced log') h = absurd h
    go (running log') h = absurd h
    go undefined h = absurd h

pub Defined-then :
    {A B : Type 0} (m : M A) (f : A → M B) (k : Kernel) (log : Log)
    → Defined (m k log)
    → ((a : A) (log' : Log) → Defined (f a k log'))
    → Defined ((m >>= f) k log)
Defined-then {A} {B} m f k log first next = go (m k log) first
  where
    go :
        (o : Outcome A)
        → Defined o
        → Defined (elim o as (λ _. Outcome B) [
          | done a log' ↦ f a k log'
          | replaced log' ↦ replaced log'
          | running log' ↦ running log'
          | undefined ↦ undefined
        ])
    go (done a log') h = next a log'
    go (replaced log') h = tt
    go (running log') h = tt
    go undefined h = absurd h

pub for_each-Defined :
    {A : Type 0} (body : A → M (Unit {0})) (xs : List A) (k : Kernel) (log : Log)
    → ((x : A) (log' : Log) → Defined (body x k log'))
    → Defined (for_each xs body k log)
unfolding for_each
for_each-Defined body [] k log each = tt
for_each-Defined body (x ∷ xs) k log each =
    Defined-then (body x) (λ _. for_each xs body) k log (each x log)
      (λ _ log'. for_each-Defined body xs k log' each)

pub Returns-Defined : {A : Type 0} (P : A → Log → Type 0) (o : Outcome A) → Returns P o → Defined o
Returns-Defined P (done a log) h = tt
Returns-Defined P (replaced log) h = absurd h
Returns-Defined P (running log) h = absurd h
Returns-Defined P undefined h = absurd h

-- ===== src/Kernel/Balance.antt =====
-- What holds when a function returns, composed step by step.
use iotools.Base.{arith, ◌+◌, ◌-◌, ◌==◌, ◌∙◌, if◌then◌else◌, ◌≡◌, ℕ, refl, List, [], ◌∷◌}
use iotools.Libc.Text.{Text}
use iotools.Kernel.{Kernel, Log, Outcome, done, replaced, running, undefined, M, printed}
use iotools.Kernel.Calls.{◌>>=◌, for_each, print}
use iotools.Kernel.Devices.{open_count, Keeps}

-- The function returns, and its result and the log have the property.
abbrev pub Returns : {A : Type 0} → (A → Log → Type 0) → Outcome A → Type 0
Returns P (done a log) = P a log
Returns P (replaced log) = ⊥
Returns P (running log) = ⊥
Returns P undefined = ⊥

module _ {A B : Type 0} where
  pub Returns-bind :
      (P : A → Log → Type 0) (Q : B → Log → Type 0) (m : M A) (f : A → M B) (k : Kernel) (log : Log)
      → Returns P (m k log)
      → ((a : A) (log' : Log) → P a log' → Returns Q (f a k log'))
      → Returns Q ((m >>= f) k log)
  Returns-bind P Q m f k log first next = go (m k log) first
    where
      go :
          (o : Outcome A)
          → Returns P o
          → Returns Q (elim o [
            | done a log' ↦ f a k log'
            | replaced log' ↦ replaced log'
            | running log' ↦ running log'
            | undefined ↦ undefined
          ])
      go (done a log') h = next a log' h
      go (replaced log') h = absurd h
      go (running log') h = absurd h
      go undefined h = absurd h

pub Returns-weaken :
    {A : Type 0} (P Q : A → Log → Type 0)
    → ((a : A) (log : Log) → P a log → Q a log)
    → (o : Outcome A) → Returns P o
    → Returns Q o
Returns-weaken P Q weaker (done a log) h = weaker a log h
Returns-weaken P Q weaker (replaced log) h = absurd h
Returns-weaken P Q weaker (running log) h = absurd h
Returns-weaken P Q weaker undefined h = absurd h

-- The descriptor is open as often as before.
abbrev pub IsSame : {A : Type 0} → ℕ → Log → A → Log → Type 0
IsSame fd log a log' = open_count fd log' ≡ open_count fd log

pub Returns-Keeps :
    {A : Type 0} (fd : ℕ) (log : Log) (o : Outcome A) → Returns (IsSame fd log) o → Keeps fd log o
Returns-Keeps fd log (done a log') h = h
Returns-Keeps fd log (replaced log') h = absurd h
Returns-Keeps fd log (running log') h = absurd h
Returns-Keeps fd log undefined h = absurd h

pub Keeps-Returns :
    {A : Type 0} (fd : ℕ) (log : Log) (o : Outcome A) → Keeps fd log o → Returns (IsSame fd log) o
Keeps-Returns fd log (done a log') h = h
Keeps-Returns fd log (replaced log') h = absurd h
Keeps-Returns fd log (running log') h = absurd h
Keeps-Returns fd log undefined h = absurd h

-- A loop that prints touches no descriptor.
pub for_each-print-IsSame :
    {A : Type 0} (line : A → Text) (xs : List A) (k : Kernel) (log : Log) (fd : ℕ)
    → Returns (IsSame fd log) (for_each xs (λ x. print (line x)) k log)
unfolding for_each open_count
for_each-print-IsSame line [] k log fd = refl
for_each-print-IsSame line (x ∷ xs) k log fd =
    for_each-print-IsSame line xs k (printed (line x) ∷ log) fd

-- A step that gives no value, by its log.
pub Returns-log :
    (fd : ℕ) (log : Log) (o : Outcome (Unit {0}))
    → Returns (IsSame fd log) o
    → (log' : Log) × (o ≡ done tt log') × (open_count fd log' ≡ open_count fd log)
Returns-log fd log (done a log') h = (log', refl, h)
Returns-log fd log (replaced log') h = absurd h
Returns-log fd log (running log') h = absurd h
Returns-log fd log undefined h = absurd h

-- How often a descriptor is open if `fd'` was opened besides.
abbrev pub held : ℕ → ℕ → ℕ → ℕ
held fd fd' n = if fd == fd' then n + 1 else n

-- A device that was opened is closed again.
pub closes : (fd fd' n m : ℕ) → m ≡ held fd fd' n → (if fd == fd' then m - 1 else m) ≡ n
closes fd fd' n m h = ground arith

-- Two steps that leave the descriptors as they are.
pub IsSame-bind :
    {A B : Type 0} (m : M A) (f : A → M B) (k : Kernel) (log : Log) (fd : ℕ)
    → Returns (IsSame fd log) (m k log)
    → ((a : A) (log' : Log) → Returns (IsSame fd log') (f a k log'))
    → Returns (IsSame fd log) ((m >>= f) k log)
IsSame-bind m f k log fd first next =
    Returns-bind (IsSame fd log) (IsSame fd log) m f k log first (λ a log' same.
      Returns-weaken (IsSame fd log') (IsSame fd log) (λ b log'' same'. same' ∙ same) (f a k log')
        (next a log'))

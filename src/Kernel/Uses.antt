-- ===== src/Kernel/Uses.antt =====
-- Which descriptors a log uses.
use iotools.Base.{◌≡◌, refl, ◌∙◌, ap, ℕ, Bool, true, ◌&&◌, ltb, List, [], ◌∷◌}
use iotools.Kernel.{
  Outcome, M, done, replaced, running, undefined, Log, Kernel, sought, got, put, closed, addressed,
  transferred, mapped,
}
use iotools.Kernel.Calls.{◌>>=◌, for_each}
use iotools.Kernel.Devices.{open_count}

-- Every seek, read, write, mapping, ioctl and close is on a descriptor that is open at the time.
unfoldable pub uses_open : Log → Bool
unfolding open_count
uses_open [] = true
uses_open (sought fd offset r ∷ log) = ltb 0 (open_count fd log) && uses_open log
uses_open (got fd count r ∷ log) = ltb 0 (open_count fd log) && uses_open log
uses_open (put fd bytes r ∷ log) = ltb 0 (open_count fd log) && uses_open log
uses_open (closed fd ∷ log) = ltb 0 (open_count fd log) && uses_open log
uses_open (mapped length prot fd offset r ∷ log) = ltb 0 (open_count fd log) && uses_open log
uses_open (addressed fd forced address r ∷ log) = ltb 0 (open_count fd log) && uses_open log
uses_open (transferred fd call r bytes ∷ log) = ltb 0 (open_count fd log) && uses_open log
uses_open (e ∷ log) = uses_open log

-- When the function returns, its result and the log have the property; when it does not, no
-- descriptor was used that was not open, unless the behaviour is undefined.
abbrev pub Leaves : {A : Type 0} → (A → Log → Type 0) → Outcome A → Type 0
Leaves P (done a log) = P a log
Leaves P (replaced log) = uses_open log ≡ true
Leaves P (running log) = uses_open log ≡ true
Leaves P undefined = Unit

-- However the function ends, no descriptor was used that was not open, unless the behaviour is
-- undefined.
abbrev pub Orderly : {A : Type 0} → Outcome A → Type 0
Orderly o = Leaves (λ _ log. uses_open log ≡ true) o

-- A descriptor that is open.
abbrev pub InUse : ℕ → Log → Type 0
InUse fd log = (ltb 0 (open_count fd log) ≡ true) × (uses_open log ≡ true)

-- The function uses what is open, and leaves the descriptor open.
abbrev pub Stays : {A : Type 0} → ℕ → Outcome A → Type 0
Stays fd o = Leaves (λ _ log. InUse fd log) o

-- The function neither opens nor closes anything, nor uses a descriptor.
abbrev pub Quietly : {A : Type 0} → ℕ → Log → Outcome A → Type 0
Quietly fd log (done a log') =
    (open_count fd log' ≡ open_count fd log) × (uses_open log' ≡ uses_open log)
Quietly fd log (replaced log') = uses_open log' ≡ uses_open log
Quietly fd log (running log') = uses_open log' ≡ uses_open log
Quietly fd log undefined = Unit

pub Quietly-Orderly :
    {A : Type 0} (log : Log) (o : Outcome A) → Quietly 0 log o → uses_open log ≡ true → Orderly o
Quietly-Orderly log (done a log') h u = h.1 ∙ u
Quietly-Orderly log (replaced log') h u = h ∙ u
Quietly-Orderly log (running log') h u = h ∙ u
Quietly-Orderly log undefined h u = tt

pub Quietly-Stays :
    {A : Type 0} (fd : ℕ) (log : Log) (o : Outcome A) → Quietly fd log o → InUse fd log → Stays fd o
Quietly-Stays fd log (done a log') h u = (ap (ltb 0) h.0 ∙ u.0, h.1 ∙ u.1)
Quietly-Stays fd log (replaced log') h u = h ∙ u.1
Quietly-Stays fd log (running log') h u = h ∙ u.1
Quietly-Stays fd log undefined h u = tt

module _ {A B : Type 0} (m : M A) (f : A → M B) (k : Kernel) (log : Log) where
  pub Leaves-bind :
      (P : A → Log → Type 0) (Q : B → Log → Type 0)
      → Leaves P (m k log)
      → ((a : A) (log' : Log) → P a log' → Leaves Q (f a k log'))
      → Leaves Q ((m >>= f) k log)
  Leaves-bind P Q first rest = go (m k log) first
    where
      go :
          (o : Outcome A)
          → Leaves P o
          → Leaves Q (elim o as (λ _. Outcome B) [
            | done a log' ↦ f a k log'
            | replaced log' ↦ replaced log'
            | running log' ↦ running log'
            | undefined ↦ undefined
          ])
      go (done a log') h = rest a log' h
      go (replaced log') h = h
      go (running log') h = h
      go undefined h = tt

  pub Orderly-bind :
      Orderly (m k log)
      → ((a : A) (log' : Log) → uses_open log' ≡ true → Orderly (f a k log'))
      → Orderly ((m >>= f) k log)
  Orderly-bind = Leaves-bind (λ _ log'. uses_open log' ≡ true) (λ _ log'. uses_open log' ≡ true)

  -- A descriptor that stays open may be used, and closed, by what follows.
  pub Stays-Orderly :
      (fd : ℕ)
      → Stays fd (m k log)
      → ((a : A) (log' : Log) → InUse fd log' → Orderly (f a k log'))
      → Orderly ((m >>= f) k log)
  Stays-Orderly fd = Leaves-bind (λ _ log'. InUse fd log') (λ _ log'. uses_open log' ≡ true)

  pub Stays-bind :
      (fd : ℕ)
      → Stays fd (m k log)
      → ((a : A) (log' : Log) → InUse fd log' → Stays fd (f a k log'))
      → Stays fd ((m >>= f) k log)
  Stays-bind fd = Leaves-bind (λ _ log'. InUse fd log') (λ _ log'. InUse fd log')

  pub Quietly-bind :
      (fd : ℕ)
      → Quietly fd log (m k log)
      → ((a : A) (log' : Log) → Quietly fd log' (f a k log'))
      → Quietly fd log ((m >>= f) k log)
  Quietly-bind fd first next = go (m k log) first
    where
      on :
          (log' : Log) (o : Outcome B)
          → open_count fd log' ≡ open_count fd log
          → uses_open log' ≡ uses_open log
          → Quietly fd log' o
          → Quietly fd log o
      on log' (done b log'') c u h = (h.0 ∙ c, h.1 ∙ u)
      on log' (replaced log'') c u h = h ∙ u
      on log' (running log'') c u h = h ∙ u
      on log' undefined c u h = tt

      go :
          (o : Outcome A)
          → Quietly fd log o
          → Quietly fd log (elim o as (λ _. Outcome B) [
            | done a log' ↦ f a k log'
            | replaced log' ↦ replaced log'
            | running log' ↦ running log'
            | undefined ↦ undefined
          ])
      go (done a log') h = on log' (f a k log') h.0 h.1 (next a log')
      go (replaced log') h = h
      go (running log') h = h
      go undefined h = tt

pub Quietly-for_each :
    {A : Type 0} (body : A → M (Unit {0})) (xs : List A) (k : Kernel) (log : Log) (fd : ℕ)
    → ((x : A) (log' : Log) → Quietly fd log' (body x k log'))
    → Quietly fd log (for_each xs body k log)
unfolding for_each
Quietly-for_each body [] k log fd each = (refl, refl)
Quietly-for_each body (x ∷ xs) k log fd each =
    Quietly-bind (body x) (λ _. for_each xs body) k log fd (each x log)
      (λ _ log'. Quietly-for_each body xs k log' fd each)

-- ===== src/Kernel/Loops.antt =====
-- What the rounds of a loop add to the log.
use mathlib.Core.List.{reverse, reverse-append}
use iotools.Base.{◌≡◌, refl, ◌∙◌, List, [], ◌∷◌, ◌++◌, append_assoc}
use iotools.Kernel.{Log, Kernel, Outcome, done, replaced, running, undefined, M}
use iotools.Kernel.Calls.{for_each, ◌>>=◌, ◌>>◌}

-- The log at the end, of a function that does not come to undefined behaviour.
abbrev pub log_of : {A : Type 0} → Outcome A → Log
log_of (done a log) = log
log_of (replaced log) = log
log_of (running log) = log
log_of undefined = []

-- After a step that returns, the rest runs on its log.
pub then_done :
    {A B : Type 0} (m : M A) (n : M B) (k : Kernel) {log log' : Log} {a : A}
    → m k log ≡ done a log'
    → (m >> n) k log ≡ n k log'
then_done m n k e = rw (e, ◌>>=◌)

-- After a step that returns a value, the rest gets the value and runs on its log.
pub bind_done :
    {A B : Type 0} (m : M A) (f : A → M B) (k : Kernel) {log log' : Log} {a : A}
    → m k log ≡ done a log'
    → (m >>= f) k log ≡ f a k log'
bind_done m f k e = rw (e, ◌>>=◌)

-- What the lists of the elements hold, one after the other.
abbrev pub concat_map : {A E : Type 0} → (A → List E) → List A → List E
concat_map items [] = []
concat_map items (x ∷ xs) = items x ++ concat_map items xs

module _ {E : Type 0} (calls : Log → List E) (k : Kernel) where
  -- The step returns, and adds `xs`, in this order, to the calls of interest. The log has the
  -- newest event first.
  abbrev pub Emits : M (Unit {0}) → Log → List E → Type 0
  Emits m log xs = (log' : Log) × (m k log ≡ done tt log') × (calls log' ≡ reverse xs ++ calls log)

  pub Emits-then :
      (m n : M (Unit {0})) (log : Log) (xs ys : List E)
      → Emits m log xs
      → ((log' : Log) → Emits n log' ys)
      → Emits (m >> n) log (xs ++ ys)
  Emits-then m n log xs ys (log', e, c) next =
      let (log'', e', c') = next log' in
      (
        log'',
        rw (e, ◌>>=◌) e',
        c' ∙ (rw (c, reverse-append xs ys, append_assoc (reverse ys) (reverse xs) (calls log))),
      )

  -- The rounds of a loop add what the bodies add, one after the other.
  pub Emits-for_each :
      {A : Type 0} (body : A → M (Unit {0})) (items : A → List E)
      → ((x : A) (log : Log) → Emits (body x) log (items x))
      → (xs : List A) (log : Log) → Emits (for_each xs body) log (concat_map items xs)
  unfolding for_each
  Emits-for_each body items each [] log = (log, refl, refl)
  Emits-for_each body items each (x ∷ xs) log =
      Emits-then (body x) (for_each xs body) log (items x) (concat_map items xs) (each x log)
        (Emits-for_each body items each xs)

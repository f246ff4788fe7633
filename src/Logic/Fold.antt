-- ===== src/Logic/Fold.antt =====
-- or, and and xor: the loop computes a fold, and the order of the values does not matter.
use mathlib.Core.List.{foldl, Permᴰ}
use mathlib.Core.List.Permᴰ.{nil, cons, swap, trans}
use iotools.Base.{
  ℕ, bit_and, bit_or, bit_xor, ◌≡◌, refl, ap, sym, length, suc, ◌∙◌, List, [], ◌∷◌, map, arith,
  ◌==◌,
}
use iotools.Base.Int.{ℤ, pos, from_bool}
use iotools.Base.Bits.Laws.{
  bit_and_comm, bit_or_comm, bit_xor_comm, bit_and_assoc, bit_or_assoc, bit_xor_assoc,
}
use iotools.Libc.Text.{Text}
use iotools.Kernel.{Kernel, Log, done, printed}
use iotools.Command.{SizeParam}
use iotools.Logic.{LogicOp, or_op, and_op, xor_op, value, logic_loop, logic_op, result_line}

-- The three commands that fold, with the operation of each.
pub data IsFold : LogicOp → (ℕ → ℕ → ℕ) → Type 0 where
  or_fold : IsFold or_op bit_or
  and_fold : IsFold and_op bit_and
  xor_fold : IsFold xor_op bit_xor

-- A round of the loop on a command that folds.
fold_round :
    {op : LogicOp} {f : ℕ → ℕ → ℕ}
    → IsFold op f
    → (s : Text) (argv : List Text) (result : ℕ) (rc : ℤ) (k : Kernel) (log : Log)
    → let r = f result (value s) in
      logic_loop op (s ∷ argv) result rc k log ≡ logic_loop op argv r (from_bool (r == 0)) k log
unfolding logic_loop
fold_round or_fold s argv result rc k log = refl
fold_round and_fold s argv result rc k log = refl
fold_round xor_fold s argv result rc k log = refl

-- The status is that of the last round; without a round it is 0 whatever the value is.
abbrev pub fold_status : ℤ → ℕ → List Text → ℤ
fold_status rc result [] = rc
fold_status rc result (s ∷ argv) = from_bool (result == 0)

fold_status_next :
    (f : ℕ → ℕ → ℕ) (result : ℕ) (argv : List Text)
    → let r = foldl f result (map value argv) in
      fold_status (from_bool (result == 0)) r argv ≡ from_bool (r == 0)
fold_status_next f result [] = refl
fold_status_next f result (s ∷ argv) = refl

fold_loop :
    {op : LogicOp} {f : ℕ → ℕ → ℕ} (fold : IsFold op f) (argv : List Text) (result : ℕ) (rc : ℤ)
    (k : Kernel) (log : Log)
    → let r = foldl f result (map value argv) in
      logic_loop op argv result rc k log
      ≡ done (fold_status rc r argv) (printed (result_line r) ∷ log)
fold_loop fold [] result rc k log = unfold logic_loop in refl
fold_loop {f} fold (s ∷ argv) result rc k log =
    fold_round fold s argv result rc k log
    ∙ fold_loop fold argv (f result (value s)) _ k log
    ∙ rw (fold_status_next f (f result (value s)) argv)

-- What `or`, `and` and `xor` do with any arguments: they print the fold of the values by the
-- operation and nothing else, and the status is 1 for a zero result, 0 for another; with one value
-- alone it is 0 always.
pub logic_op_fold :
    {op : LogicOp} {f : ℕ → ℕ → ℕ} (fold : IsFold op f) (size : SizeParam) (name s : Text)
    (argv : List Text) (k : Kernel) (log : Log)
    → let r = foldl f (value s) (map value argv) in
      logic_op op size (name ∷ s ∷ argv) k log
      ≡ done (fold_status (pos 0) r argv) (printed (result_line r) ∷ log)
unfolding logic_op
logic_op_fold fold size name s argv k log = fold_loop fold argv (value s) (pos 0) k log

IsFold-comm : {op : LogicOp} {f : ℕ → ℕ → ℕ} → IsFold op f → (a b : ℕ) → f a b ≡ f b a
IsFold-comm or_fold = bit_or_comm
IsFold-comm and_fold = bit_and_comm
IsFold-comm xor_fold = bit_xor_comm

IsFold-assoc :
    {op : LogicOp} {f : ℕ → ℕ → ℕ} → IsFold op f → (a b c : ℕ) → f (f a b) c ≡ f a (f b c)
IsFold-assoc or_fold = bit_or_assoc
IsFold-assoc and_fold = bit_and_assoc
IsFold-assoc xor_fold = bit_xor_assoc

-- The values of a command line, folded; the names of the library's `foldl` take the first out.
abbrev combine : (ℕ → ℕ → ℕ) → List Text → ℕ
combine f [] = 0
combine f (s ∷ argv) = foldl f (value s) (map value argv)

module _ {op : LogicOp} {f : ℕ → ℕ → ℕ} (fold : IsFold op f) where
  fold_swap : (r a b : ℕ) → f (f r a) b ≡ f (f r b) a
  fold_swap r a b =
      IsFold-assoc fold r a b ∙ ap (f r) (IsFold-comm fold a b) ∙ sym (IsFold-assoc fold r b a)

  foldl-perm :
      (r : ℕ) {s t : List Text} → Permᴰ s t → foldl f r (map value s) ≡ foldl f r (map value t)
  foldl-perm r nil = refl
  foldl-perm r (cons {b = b} {l₁ = l₁} e p) = rw e (foldl-perm (f r (value b)) p)
  foldl-perm r (swap {a = a} {b = b} {l = l} e e') =
      rw (← e, ← e', ← fold_swap r (value a) (value b))
  foldl-perm r (trans p q) = foldl-perm r p ∙ foldl-perm r q

  combine-perm : {s t : List Text} → Permᴰ s t → combine f s ≡ combine f t
  combine-perm nil = refl
  combine-perm (cons {b = b} e p) = rw e (foldl-perm (value b) p)
  combine-perm (swap {a = a} {b = b} {l = l} e e') =
      rw (← e, ← e', ← IsFold-comm fold (value a) (value b))
  combine-perm (trans p q) = combine-perm p ∙ combine-perm q

length-perm : {s t : List Text} → Permᴰ s t → length s ≡ length t
length-perm nil = refl
length-perm (cons e p) = ap suc (length-perm p)
length-perm (swap e e') = refl
length-perm (trans p q) = length-perm p ∙ length-perm q

fold_status_of_length :
    (rc : ℤ) (r : ℕ) (s t : List Text)
    → length s ≡ length t
    → fold_status rc r s ≡ fold_status rc r t
fold_status_of_length rc r [] [] e = refl
fold_status_of_length rc r [] (y ∷ t) e = absurd (omega arith)
fold_status_of_length rc r (x ∷ s) [] e = absurd (omega arith)
fold_status_of_length rc r (x ∷ s) (y ∷ t) e = refl

-- The values may be given in any order: the output and the status are the same.
pub logic_op-perm :
    {op : LogicOp} {f : ℕ → ℕ → ℕ} (fold : IsFold op f) (size : SizeParam) (name s t : Text)
    (argv argv' : List Text) (k : Kernel) (log : Log)
    → Permᴰ (s ∷ argv) (t ∷ argv')
    → logic_op op size (name ∷ s ∷ argv) k log ≡ logic_op op size (name ∷ t ∷ argv') k log
logic_op-perm {f} fold size name s t argv argv' k log p =
    logic_op_fold fold size name s argv k log
    ∙ (rw (
      combine-perm fold p,
      fold_status_of_length (pos 0) (combine f (t ∷ argv')) argv argv'
          (omega (arith, length-perm p)),
    ))
    ∙ sym (logic_op_fold fold size name t argv' k log)

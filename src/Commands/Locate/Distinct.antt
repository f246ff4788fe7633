-- ===== src/Commands/Locate/Distinct.antt =====
-- Whether the names of a table are distinct, decided by comparing each with all that follow.
use iotools.Base.{◌≡◌, ◌≢◌, Bool, true, not, ◌&&◌, List, [], ◌∷◌, arith, All}
use iotools.Libc.Text.{Text, str_eq, str_eq_iff}
use iotools.Command.{CmdInfo}
use iotools.Commands.Locate.Laws.{DistinctNames}

unfoldable pub is_fresh : Text → List CmdInfo → Bool
is_fresh name [] = true
is_fresh name (c ∷ cs) = not (str_eq c.name name) && is_fresh name cs

unfoldable pub distinct_names : List CmdInfo → Bool
unfolding is_fresh
distinct_names [] = true
distinct_names (c ∷ cs) = is_fresh c.name cs && distinct_names cs

is_fresh-All :
    (name : Text) (cs : List CmdInfo)
    → is_fresh name cs ≡ true
    → All (λ (d : CmdInfo). d.name ≢ name) cs
unfolding is_fresh
is_fresh-All name [] h = tt
is_fresh-All name (c ∷ cs) h =
    (ground (arith, str_eq_iff c.name name), is_fresh-All name cs (ground arith))

pub distinct_names-DistinctNames : (cs : List CmdInfo) → distinct_names cs ≡ true → DistinctNames cs
unfolding distinct_names
distinct_names-DistinctNames [] h = tt
distinct_names-DistinctNames (c ∷ cs) h =
    (is_fresh-All c.name cs (ground arith), distinct_names-DistinctNames cs (ground arith))

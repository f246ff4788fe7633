-- ===== src/Commands/Locate/Laws.antt =====
-- `locate_command` finds the first command of the name, and the order in which the groups were
-- registered does not matter as long as no name is used twice.
use mathlib.Core.Path.{subst, subst₂}
use mathlib.Core.List.{Permᴰ}
use mathlib.Core.List.Permᴰ.{nil, cons, swap, trans}
use mathlib.Core.List.Permᴰ
use iotools.Base.{
  ◌≡◌, refl, ◌∙◌, sym, ◌↔◌, ◌≢◌, inl, inr, List, [], ◌∷◌, ◌++◌, none, some, arith, All, Bool-cases,
  append_assoc,
}
use iotools.Libc.Text.{Text, str_eq, str_eq_iff}
use iotools.Command.{CmdInfo, CmdGroup}
use iotools.Commands.Locate.{find_command, locate_command}

-- The commands of all groups, in the order in which they are searched.
abbrev pub all_commands : List CmdGroup → List CmdInfo
all_commands [] = []
all_commands (g ∷ gs) = g.commands ++ all_commands gs

-- `c` is the first command called `cmd`.
pub data FirstNamed (cmd : Text) (c : CmdInfo) : List CmdInfo → Type 0 where
  here : {cs : List CmdInfo} → cmd ≡ c.name → FirstNamed cmd c (c ∷ cs)
  there :
      {d : CmdInfo} {cs : List CmdInfo}
      → cmd ≢ d.name
      → FirstNamed cmd c cs
      → FirstNamed cmd c (d ∷ cs)

find_command-append :
    (cmd : Text) (cs ds : List CmdInfo)
    → find_command cmd (cs ++ ds)
      ≡ elim (find_command cmd cs) [ some c ↦ some c | none ↦ find_command cmd ds ]
unfolding find_command
find_command-append cmd [] ds = refl
find_command-append cmd (c ∷ cs) ds = ground (arith, find_command-append cmd cs ds)

locate-eq-find :
    (gs : List CmdGroup) (cmd : Text) → locate_command gs cmd ≡ find_command cmd (all_commands gs)
unfolding locate_command
locate-eq-find [] cmd = refl
locate-eq-find (g ∷ gs) cmd =
    ground (arith, find_command-append cmd g.commands (all_commands gs), locate-eq-find gs cmd)

find_command-first :
    (cmd : Text) (cs : List CmdInfo) (c : CmdInfo)
    → find_command cmd cs ≡ some c
    → FirstNamed cmd c cs
unfolding find_command
find_command-first cmd [] c h = cc
find_command-first cmd (d ∷ cs) c h = elim (Bool-cases (str_eq cmd d.name)) [
  | inl e ↦
      let found : d ≡ c = ground arith in
      subst (λ x. FirstNamed cmd x (d ∷ cs)) found (FirstNamed.here ((str_eq_iff cmd d.name).0 e))
  | inr e ↦
      FirstNamed.there (λ same. cc ((str_eq_iff cmd d.name).1 same))
        (find_command-first cmd cs c (ground arith))
]

first-find_command :
    (cmd : Text) (c : CmdInfo) {cs : List CmdInfo}
    → FirstNamed cmd c cs
    → find_command cmd cs ≡ some c
unfolding find_command
first-find_command cmd c (FirstNamed.here e) = rw ((str_eq_iff cmd c.name).1 e)
first-find_command cmd c (FirstNamed.there {d} ne rest) =
    ground (arith, str_eq_iff cmd d.name, first-find_command cmd c rest)

-- `locate_command` returns a command exactly if it is the first of the name in the search order.
pub locate_command_iff :
    (gs : List CmdGroup) (cmd : Text) (c : CmdInfo)
    → (locate_command gs cmd ≡ some c) ↔ FirstNamed cmd c (all_commands gs)
locate_command_iff gs cmd c = (
  λ h. find_command-first cmd (all_commands gs) c (sym (locate-eq-find gs cmd) ∙ h),
  λ f. locate-eq-find gs cmd ∙ first-find_command cmd c f,
)

-- No two commands have the same name.
abbrev pub DistinctNames : List CmdInfo → Type 0
DistinctNames [] = Unit
DistinctNames (c ∷ cs) = All (λ (d : CmdInfo). d.name ≢ c.name) cs × DistinctNames cs

pub All-perm {κ} : (P : CmdInfo → Type κ) {cs ds : List CmdInfo} → Permᴰ cs ds → All P cs → All P ds
All-perm P nil h = h
All-perm P (cons e p) (hc, h) = (subst P e hc, All-perm P p h)
All-perm P (swap e e') (ha, (hb, h)) = (subst P e' hb, (subst P e ha, h))
All-perm P (trans p q) h = All-perm P q (All-perm P p h)

DistinctNames-perm : {cs ds : List CmdInfo} → Permᴰ cs ds → DistinctNames cs → DistinctNames ds
DistinctNames-perm nil h = h
DistinctNames-perm (cons {a} {b} {l₂} e p) (fresh, h) = (
  subst (λ x. All (λ d. d.name ≢ x.name) l₂) e (All-perm (λ d. d.name ≢ a.name) p fresh),
  DistinctNames-perm p h,
)
DistinctNames-perm (swap {a} {b} {l} e e') ((ne, ha), (hb, h)) =
    subst₂ (λ x y. DistinctNames (x ∷ y ∷ l)) e' e (((λ q. ne (sym q)), hb), (ha, h))
DistinctNames-perm (trans p q) h = DistinctNames-perm q (DistinctNames-perm p h)

find_command-perm :
    (cmd : Text) {cs ds : List CmdInfo}
    → Permᴰ cs ds
    → DistinctNames cs
    → find_command cmd cs ≡ find_command cmd ds
unfolding find_command
find_command-perm cmd nil h = refl
find_command-perm cmd (cons e p) h = rw (e, find_command-perm cmd p h.1)
find_command-perm cmd (swap {a} {b} e e') h =
    rw (← e, ← e') (ground (arith, str_eq_iff cmd a.name, str_eq_iff cmd b.name, h.0.0))
find_command-perm cmd (trans p q) h =
    find_command-perm cmd p h ∙ find_command-perm cmd q (DistinctNames-perm p h)

pub all_commands-perm :
    {gs hs : List CmdGroup} → Permᴰ gs hs → Permᴰ (all_commands gs) (all_commands hs)
all_commands-perm nil = nil
all_commands-perm (cons {a} e p) = rw (← e) (Permᴰ.append_left a.commands (all_commands-perm p))
all_commands-perm (swap {a} {b} {l} e e') =
    let L = all_commands l in
    rw (← e, ← e', ← append_assoc a.commands b.commands L, ← append_assoc b.commands a.commands L)
      (Permᴰ.append_right L (Permᴰ.append_comm a.commands b.commands))
all_commands-perm (trans p q) = trans (all_commands-perm p) (all_commands-perm q)

-- Constructor functions register the groups in an order that the linker chooses. Whatever it is,
-- a name means the same command, if no two commands share a name.
pub locate_command-perm :
    (gs hs : List CmdGroup) (cmd : Text)
    → Permᴰ gs hs
    → DistinctNames (all_commands gs)
    → locate_command gs cmd ≡ locate_command hs cmd
locate_command-perm gs hs cmd p distinct =
    locate-eq-find gs cmd
    ∙ find_command-perm cmd (all_commands-perm p) distinct
    ∙ sym (locate-eq-find hs cmd)

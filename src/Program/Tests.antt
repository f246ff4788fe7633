-- ===== src/Program/Tests.antt =====
-- The whole program on concrete lines.
use mathlib.Core.List.{Permᴰ}
use mathlib.Core.List.Permᴰ
use mathlib.Core.List.Permᴰ.{swap}
use iotools.Base.{true, ◌≡◌, refl, List, [], ◌∷◌, some}
use iotools.Libc.Text.{Text, text, str_eq}
use iotools.Libc.Strtoul.{strtoul}
use iotools.Kernel.{Kernel, undefined}
use iotools.Kernel.Sample.{failing}
use iotools.Command.{CmdGroup}
use iotools.Iotools.Main.{main}
use iotools.Scom.Cpu.{Locals}
use iotools.Scom.Cpu.Laws.{pir_text}
use iotools.Program.{power, program_groups, register_all}
use iotools.Program.Order.{main_in_any_order}
use iotools.Program.Safety.{is_risky}
use iotools.Program.Uses.Lines.{main-Orderly}
use iotools.Kernel.Uses.{uses_open, Orderly}
use iotools.Program.Safety.Sharp.{main-undefined}

abbrev junk : Locals
junk = record { pir_str = 65 ∷ []; chipid = 1 ∷ [] }

-- The binary lies in /sbin, and every register reads 40.
abbrev running_linux : Kernel
running_linux = record failing {
  readlink = λ log path. some (text "/sbin/iotools");
  open_file = λ log path flags. some 3;
  read = λ log fd count. some (pir_text 40);
}

-- The first two groups registered the other way round.
abbrev turned : List CmdGroup → List CmdGroup
turned [] = []
turned (g ∷ []) = g ∷ []
turned (g ∷ h ∷ gs) = h ∷ g ∷ gs

turned-perm : (gs : List CmdGroup) → Permᴰ gs (turned gs)
turned-perm [] = Permᴰ.refl []
turned-perm (g ∷ []) = Permᴰ.refl (g ∷ [])
turned-perm (g ∷ h ∷ gs) = swap refl refl

abbrev power_groups : List CmdGroup
power_groups = program_groups power junk 7

main_in_any_order_example :
    main
      (register_all (turned power_groups) [])
      (text "iotools" ∷ text "cputoex" ∷ text "0" ∷ [])
      running_linux
      []
    ≡ main power_groups (text "iotools" ∷ text "cputoex" ∷ text "0" ∷ []) running_linux []
main_in_any_order_example =
    main_in_any_order power junk 7 (turned power_groups) (text "iotools")
      (text "cputoex" ∷ text "0" ∷ []) running_linux [] (turned-perm power_groups) refl

abbrev shift_args : List Text
shift_args = text "1" ∷ text "63" ∷ []

bit_too_high : is_risky (text "bts") (text "0" ∷ text "32" ∷ []) ≡ true
unfolding is_risky str_eq strtoul
bit_too_high = refl

main-undefined_example :
    main
      (register_all (turned power_groups) [])
      (text "iotools" ∷ text "bts" ∷ text "0" ∷ text "32" ∷ [])
      running_linux
      []
    ≡ undefined
main-undefined_example =
    main-undefined power junk 7 (turned power_groups) (text "iotools") (text "bts") (text "0")
      (text "32") running_linux [] (turned-perm power_groups) bit_too_high

main-Orderly_example : Orderly (
    main
      (register_all (turned power_groups) [])
      (text "iotools" ∷ text "cputoex" ∷ text "0" ∷ [])
      running_linux
      [])
main-Orderly_example =
    main-Orderly power junk 7 (turned power_groups)
      (text "iotools" ∷ text "cputoex" ∷ text "0" ∷ []) running_linux [] (turned-perm power_groups)
      (unfold uses_open in refl)

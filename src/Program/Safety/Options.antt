-- ===== src/Program/Safety/Options.antt =====
-- The options of the binary itself are safe, with the links on a system that answers as documented.
use iotools.Base.{◌<◌, ◌≡◌, refl, true, List, [], ◌∷◌, ◌++◌, Option, none, some, arith, length, ltb}
use iotools.Base.Int.{pos}
use iotools.Libc.Text.{Text, text, strrchr}
use iotools.Kernel.{Kernel, Log, M, resolved, printed}
use iotools.Kernel.Calls.{◌>>◌, pure, print, for_each}
use iotools.Command.{CmdInfo, CmdGroup}
use iotools.Commands.Links.{
  filename_max, link_all, unlink_all, locate_path_of_binary, split_binary, make_link, remove_link,
  make_command_links, clean_command_links, list_commands, heading,
}
use iotools.Iotools.Fallback.{usage, version, run_option, iotools_fallback}
use iotools.Commands.Safety.{Defined}
use iotools.Commands.Safety.Steps.{Defined-then, for_each-Defined}
use iotools.Program.Safety.{IsLinux}

-- The last '/' of an absolute path is found.
strrchr-absolute : (s : Text) → (t : Text) × (strrchr b'/' (b'/' ∷ s) ≡ some t)
unfolding strrchr
strrchr-absolute s = go (strrchr b'/' s)
  where
    go :
        (r : Option Text)
        → (t : Text) × ((elim r as (λ _. Option Text) [ some t ↦ some t | none ↦ some (b'/' ∷ s) ])
            ≡ some t)
    go none = (b'/' ∷ s, refl)
    go (some t) = (t, refl)

module _ (k : Kernel) (linux : IsLinux k) where
  locate_path-Defined : (log : Log) → Defined (locate_path_of_binary k log)
  unfolding locate_path_of_binary
  locate_path-Defined log = go (k.readlink log (text "/proc/self/exe")) (linux.exe log)
    where
      go :
          (r : Option Text)
          → ((path : Text)
              → r ≡ some path
              → (s : Text) × (path ≡ b'/' ∷ s) × (length path < filename_max))
          → Defined (split_binary r k (resolved (text "/proc/self/exe") r ∷ log))
      go none h = tt
      go (some path) h =
          let (s, e, short) = h path refl in
          let (t, found) = strrchr-absolute s in
          let fits : ltb (length path) filename_max ≡ true = ground arith in
          rw (Defined, fits) (rw (Defined, e, found) tt)

  looping-Defined :
      (gs : List CmdGroup) (body : CmdInfo → M (Unit {0})) (log : Log)
      → ((c : CmdInfo) (log' : Log) → Defined (body c k log'))
      → Defined ((for_each gs (λ g. for_each g.commands body) >> pure (pos 0)) k log)
  looping-Defined gs body log each =
      Defined-then (for_each gs (λ g. for_each g.commands body)) (λ _. pure (pos 0)) k log
        (for_each-Defined (λ g. for_each g.commands body) gs k log
          (λ g log'. for_each-Defined body g.commands k log' each))
        (λ _ log'. tt)

  make_command_links-Defined :
      (gs : List CmdGroup) (log : Log) → Defined (make_command_links gs k log)
  unfolding make_command_links make_link
  make_command_links-Defined gs log =
      Defined-then locate_path_of_binary (link_all gs) k log (locate_path-Defined log) go
    where
      go : (r : Option (Text × Text)) (log' : Log) → Defined (link_all gs r k log')
      go none log' = tt
      go (some (path_to_bin, bin_name)) log' =
          looping-Defined gs (make_link path_to_bin bin_name) log' (λ c log''. ground arith)

  clean_command_links-Defined :
      (gs : List CmdGroup) (log : Log) → Defined (clean_command_links gs k log)
  unfolding clean_command_links remove_link
  clean_command_links-Defined gs log =
      Defined-then locate_path_of_binary (unlink_all gs) k log (locate_path-Defined log) go
    where
      go : (r : Option (Text × Text)) (log' : Log) → Defined (unlink_all gs r k log')
      go none log' = tt
      go (some (path_to_bin, bin_name)) log' =
          looping-Defined gs (remove_link path_to_bin) log' (λ c log''. ground arith)

  list_commands-Defined : (gs : List CmdGroup) (log : Log) → Defined (list_commands gs k log)
  unfolding list_commands
  list_commands-Defined gs log =
      Defined-then (for_each gs group) (λ _. pure (pos 0)) k log
        (for_each-Defined group gs k log (λ g log'.
          for_each-Defined line g.commands k (printed (heading g) ∷ log') (λ c log''. tt)))
        (λ _ log'. tt)
    where
      line : CmdInfo → M (Unit {0})
      line c = print (text "  " ++ (c.name ++ text "\n"))

      group : CmdGroup → M (Unit {0})
      group g = print (heading g) >> for_each g.commands line

  run_option-Defined :
      (gs : List CmdGroup) (name option : Text) (log : Log)
      → Defined (run_option gs name option k log)
  unfolding run_option usage version
  run_option-Defined gs name option log = ground (
    arith,
    make_command_links-Defined gs log,
    clean_command_links-Defined gs log,
    list_commands-Defined gs log,
  )

  pub iotools_fallback-Defined :
      (gs : List CmdGroup) (path : Text) (args : List Text) (log : Log)
      → Defined (iotools_fallback gs (path ∷ args) k log)
  unfolding iotools_fallback usage
  iotools_fallback-Defined gs path [] log = tt
  iotools_fallback-Defined gs path (s ∷ []) log = run_option-Defined gs path s log
  iotools_fallback-Defined gs path (s ∷ t ∷ args) log = ground arith

-- ===== src/Program/Uses/Lists.antt =====
-- pci_list, and the options of the binary: they use no descriptor.
use iotools.Base.{
  ◌≡◌, ℕ, refl, false, true, Bool, List, [], ◌∷◌, ◌++◌, Option, none, some, arith, if◌then◌else◌,
}
use iotools.Base.Int.{ℤ, pos, negsuc, is_negative}
use iotools.Libc.Text.{Text, text}
use iotools.Libc.Scan.{scan_hex}
use iotools.Kernel.{Kernel, Log, M, listed}
use iotools.Kernel.Calls.{for_each, print, pure, ◌>>◌}
use iotools.Kernel.Devices.{open_count}
use iotools.Kernel.Uses.{
  uses_open, Orderly, Quietly, Quietly-Orderly, Quietly-bind, Quietly-for_each, Orderly-bind,
}
use iotools.Command.{CmdInfo, CmdGroup}
use iotools.Commands.Links.{
  link_all, unlink_all, locate_path_of_binary, make_link, remove_link, make_command_links,
  clean_command_links, list_commands, heading,
}
use iotools.Iotools.Fallback.{usage, version, run_option, iotools_fallback}
use iotools.Pci.Listing.{
  pci_list, pci_list_sysfs, pci_list_procfs, list_buses, list_bus, opendir_failed, procfs_entry,
  sysfs_entry, procfs_base_dir, sysfs_base_dir,
}
use iotools.Program.Uses.{IsOrderly}

-- A loop and what follows it.
loop_then :
    {A B : Type 0} (body : A → M (Unit {0})) (xs : List A) (after : M B) (k : Kernel) (log : Log)
    → uses_open log ≡ true
    → ((x : A) (log' : Log) → Quietly 0 log' (body x k log'))
    → ((log' : Log) → uses_open log' ≡ true → Orderly (after k log'))
    → Orderly ((for_each xs body >> after) k log)
loop_then body xs after k log h each rest =
    Orderly-bind (for_each xs body) (λ _. after) k log
      (Quietly-Orderly log (for_each xs body k log) (Quietly-for_each body xs k log 0 each) h)
      (λ _ log' h'. rest log' h')

sysfs_entry-Quietly :
    (e : Text × Bool) (k : Kernel) (log : Log) → Quietly 0 log (sysfs_entry e k log)
unfolding open_count uses_open
sysfs_entry-Quietly (d_name, is_dir) k log = ground arith

procfs_entry-Quietly :
    (bus : ℕ) (e : Text × Bool) (k : Kernel) (log : Log) → Quietly 0 log (procfs_entry bus e k log)
unfolding open_count uses_open
procfs_entry-Quietly bus (d_name, is_dir) k log = ground arith

list_bus-Orderly :
    (bus : ℕ) (path : Text) (after : M ℤ) (k : Kernel) (log : Log)
    → uses_open log ≡ true
    → ((log' : Log) → uses_open log' ≡ true → Orderly (after k log'))
    → Orderly (list_bus bus path after k log)
unfolding uses_open
list_bus-Orderly bus path after k log h rest = go (k.list_dir log path)
  where
    go :
        (dir : Option (List (Text × Bool)))
        → Orderly (
            elim dir as (λ _. M ℤ) [
              | none ↦ opendir_failed path
              | some entries ↦ for_each entries (procfs_entry bus) >> after
            ]
              k
              (listed path dir ∷ log))
    go none = h
    go (some entries) =
        loop_then (procfs_entry bus) entries after k (listed path (some entries) ∷ log) h
          (λ e log'. procfs_entry-Quietly bus e k log') rest

list_buses-Orderly :
    (entries : List (Text × Bool)) (k : Kernel) (log : Log)
    → uses_open log ≡ true
    → Orderly (list_buses entries k log)
unfolding list_buses
list_buses-Orderly [] k log h = h
list_buses-Orderly ((d_name, is_dir) ∷ entries) k log h =
    go (scan_hex 2 d_name) is_dir (λ log' h'. list_buses-Orderly entries k log' h')
  where
    path : Text
    path = procfs_base_dir ++ (text "/" ++ d_name)

    go :
        (r : Option (ℕ × Text)) (dir : Bool)
        → ((log' : Log) → uses_open log' ≡ true → Orderly (list_buses entries k log'))
        → Orderly (
            elim r as (λ _. M ℤ) [
              | none ↦ list_buses entries
              | some (bus, s) ↦
                  if dir then list_bus bus path (list_buses entries) else list_buses entries
            ]
              k log)
    go none dir rest = rest log h
    go (some (bus, s)) true rest = list_bus-Orderly bus path (list_buses entries) k log h rest
    go (some (bus, s)) false rest = rest log h

pci_list_procfs-Orderly :
    (k : Kernel) (log : Log) → uses_open log ≡ true → Orderly (pci_list_procfs k log)
unfolding pci_list_procfs uses_open
pci_list_procfs-Orderly k log h = go (k.list_dir log procfs_base_dir)
  where
    go :
        (dir : Option (List (Text × Bool)))
        → Orderly (
            elim dir as (λ _. M ℤ) [
              | none ↦ opendir_failed procfs_base_dir
              | some entries ↦ list_buses entries
            ]
              k
              (listed procfs_base_dir dir ∷ log))
    go none = h
    go (some entries) = list_buses-Orderly entries k (listed procfs_base_dir (some entries) ∷ log) h

pci_list_sysfs-Orderly :
    (k : Kernel) (log : Log) → uses_open log ≡ true → Orderly (pci_list_sysfs k log)
unfolding pci_list_sysfs uses_open
pci_list_sysfs-Orderly k log h = go (k.list_dir log sysfs_base_dir)
  where
    go :
        (dir : Option (List (Text × Bool)))
        → Orderly (
            elim dir as (λ _. M ℤ) [
              | none ↦ opendir_failed sysfs_base_dir
              | some entries ↦ for_each entries sysfs_entry >> pure (pos 0)
            ]
              k
              (listed sysfs_base_dir dir ∷ log))
    go none = h
    go (some entries) =
        loop_then sysfs_entry entries (pure (pos 0)) k (listed sysfs_base_dir (some entries) ∷ log)
          h (λ e log'. sysfs_entry-Quietly e k log') (λ log' h'. h')

pub pci_list-IsOrderly : IsOrderly pci_list
unfolding pci_list
pci_list-IsOrderly size argv k log h =
    Orderly-bind pci_list_sysfs (λ ret. if is_negative ret then pci_list_procfs else pure ret) k log
      (pci_list_sysfs-Orderly k log h) go
  where
    go :
        (ret : ℤ) (log' : Log)
        → uses_open log' ≡ true
        → Orderly ((if is_negative ret then pci_list_procfs else pure ret) k log')
    go (pos n) log' h' = h'
    go (negsuc n) log' h' = pci_list_procfs-Orderly k log' h'

module _ (gs : List CmdGroup) (k : Kernel) where
  looping-Orderly :
      (body : CmdInfo → M (Unit {0})) (log : Log)
      → uses_open log ≡ true
      → ((c : CmdInfo) (log' : Log) → Quietly 0 log' (body c k log'))
      → Orderly ((for_each gs (λ g. for_each g.commands body) >> pure (pos 0)) k log)
  looping-Orderly body log h each =
      loop_then (λ g. for_each g.commands body) gs (pure (pos 0)) k log h
        (λ g log'. Quietly-for_each body g.commands k log' 0 each) (λ log' h'. h')

  locate_path-Orderly : (log : Log) → uses_open log ≡ true → Orderly (locate_path_of_binary k log)
  unfolding locate_path_of_binary uses_open
  locate_path-Orderly log h = ground arith

  make_command_links-Orderly :
      (log : Log) → uses_open log ≡ true → Orderly (make_command_links gs k log)
  unfolding make_command_links make_link open_count uses_open
  make_command_links-Orderly log h =
      Orderly-bind locate_path_of_binary (link_all gs) k log (locate_path-Orderly log h) go
    where
      go :
          (r : Option (Text × Text)) (log' : Log)
          → uses_open log' ≡ true
          → Orderly (link_all gs r k log')
      go none log' h' = h'
      go (some (path_to_bin, bin_name)) log' h' =
          looping-Orderly (make_link path_to_bin bin_name) log' h' (λ c log''. ground arith)

  clean_command_links-Orderly :
      (log : Log) → uses_open log ≡ true → Orderly (clean_command_links gs k log)
  unfolding clean_command_links remove_link open_count uses_open
  clean_command_links-Orderly log h =
      Orderly-bind locate_path_of_binary (unlink_all gs) k log (locate_path-Orderly log h) go
    where
      go :
          (r : Option (Text × Text)) (log' : Log)
          → uses_open log' ≡ true
          → Orderly (unlink_all gs r k log')
      go none log' h' = h'
      go (some (path_to_bin, bin_name)) log' h' =
          looping-Orderly (remove_link path_to_bin) log' h' (λ c log''. ground arith)

  list_commands-Orderly : (log : Log) → uses_open log ≡ true → Orderly (list_commands gs k log)
  unfolding list_commands open_count uses_open
  list_commands-Orderly log h =
      loop_then group gs (pure (pos 0)) k log h
        (λ g log'.
          Quietly-bind (print (heading g)) (λ _. for_each g.commands line) k log' 0 (refl, refl)
            (λ _ log''. Quietly-for_each line g.commands k log'' 0 (λ c l. (refl, refl))))
        (λ log' h'. h')
    where
      line : CmdInfo → M (Unit {0})
      line c = print (text "  " ++ (c.name ++ text "\n"))

      group : CmdGroup → M (Unit {0})
      group g = print (heading g) >> for_each g.commands line

  run_option-Orderly :
      (name option : Text) (log : Log)
      → uses_open log ≡ true
      → Orderly (run_option gs name option k log)
  unfolding run_option usage version uses_open
  run_option-Orderly name option log h = ground (
    arith,
    make_command_links-Orderly log h,
    clean_command_links-Orderly log h,
    list_commands-Orderly log h,
  )

  pub iotools_fallback-Orderly :
      (argv : List Text) (log : Log)
      → uses_open log ≡ true
      → Orderly (iotools_fallback gs argv k log)
  unfolding iotools_fallback usage uses_open
  iotools_fallback-Orderly [] log h = tt
  iotools_fallback-Orderly (path ∷ []) log h = h
  iotools_fallback-Orderly (path ∷ s ∷ []) log h = run_option-Orderly path s log h
  iotools_fallback-Orderly (path ∷ s ∷ t ∷ args) log h = ground arith

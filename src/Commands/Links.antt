-- ===== src/Commands/Links.antt =====
-- commands.c: the symbolic links, one for each command, and the listing.
pub mod Laws
use iotools.Base.{
  ℕ, ◌-◌, Bool, true, false, not, ◌&&◌, List, [], ◌∷◌, ◌++◌, Option, none, some, ltb, ◌==◌,
  if◌then◌else◌, length, take, drop,
}
use iotools.Base.Int.{ℤ, pos, minus_one}
use iotools.Libc.Text.{Text, text, strrchr}
use iotools.Kernel.{M}
use iotools.Kernel.Calls.{
  pure, fault, ◌>>=◌, ◌>>◌, for_each, print, complain, errno, complain_errno, symlink, unlink,
  readlink,
}
use iotools.Command.{CmdInfo, CmdGroup}

abbrev pub filename_max : ℕ
filename_max = 4096

-- Cut at the last '/': `*lbin_name++ = '\0'` follows a null pointer if there is none.
abbrev pub split_path : Text → M (Text × Text)
split_path fullpath = elim (strrchr b'/' fullpath) [
  | none ↦ fault
  | some t ↦ pure (take (length fullpath - length t) fullpath, drop 1 t)
]

abbrev pub split_binary : Option Text → M (Option (Text × Text))
split_binary none = complain (text "Unable to locate currently running binary.\n") >> pure none
split_binary (some bin_fullpath) =
    if ltb (length bin_fullpath) filename_max
    then (split_path bin_fullpath >>= λ p. pure (some p))
    else fault

-- `locate_path_of_binary`: none for -1, else the folder and the name of the binary. A result that
-- fills `bin_fullpath` leaves it without a NUL.
unfoldable pub locate_path_of_binary : M (Option (Text × Text))
locate_path_of_binary = readlink (text "/proc/self/exe") >>= split_binary

-- `build_symlink_name`: snprintf cuts the name off at FILENAME_MAX - 1 bytes.
unfoldable pub build_symlink_name : Text → CmdInfo → Text
build_symlink_name path_to_bin cmd = take (filename_max - 1) (path_to_bin ++ (b'/' ∷ cmd.name))

-- The body of the loops of `make_command_links`.
unfoldable pub make_link : Text → Text → CmdInfo → M (Unit {0})
unfolding build_symlink_name
make_link path_to_bin bin_name cmd = do
  let link_name = build_symlink_name path_to_bin cmd
  print (text "Creating link: " ++ (link_name ++ (text " -> " ++ (bin_name ++ text "\n"))))
  made ← symlink bin_name link_name
  if made
      then pure tt
      else complain (
          text "Unable to create link: " ++ (link_name ++ (text " -> " ++ (bin_name ++ text "\n"))))

abbrev pub link_all : List CmdGroup → Option (Text × Text) → M ℤ
link_all groups none = pure minus_one
link_all groups (some (path_to_bin, bin_name)) =
    for_each groups (λ g. for_each g.commands (make_link path_to_bin bin_name)) >> pure (pos 0)

-- `make_command_links`
unfoldable pub make_command_links : List CmdGroup → M ℤ
unfolding locate_path_of_binary make_link for_each
make_command_links groups = locate_path_of_binary >>= link_all groups

abbrev enoent : ℕ
enoent = 2

-- The body of the loops of `clean_command_links`.
unfoldable pub remove_link : Text → CmdInfo → M (Unit {0})
unfolding build_symlink_name
remove_link path_to_bin cmd = do
  let link_name = build_symlink_name path_to_bin cmd
  gone ← unlink link_name
  number ← errno
  if not gone && not (number == enoent)
      then complain_errno (text "Unable to remove link: " ++ link_name)
      else pure tt

abbrev pub unlink_all : List CmdGroup → Option (Text × Text) → M ℤ
unlink_all groups none = pure minus_one
unlink_all groups (some (path_to_bin, bin_name)) =
    for_each groups (λ g. for_each g.commands (remove_link path_to_bin)) >> pure (pos 0)

-- `clean_command_links`
unfoldable pub clean_command_links : List CmdGroup → M ℤ
unfolding locate_path_of_binary remove_link for_each
clean_command_links groups = locate_path_of_binary >>= unlink_all groups

abbrev pub heading : CmdGroup → Text
heading g = elim g.description [
  | none ↦ g.name ++ text "\n"
  | some d ↦ g.name ++ (text ": " ++ (d ++ text "\n"))
]

-- `list_commands`
unfoldable pub list_commands : List CmdGroup → M ℤ
unfolding for_each
list_commands groups =
    for_each groups (λ g.
      print (heading g) >> for_each g.commands (λ c. print (text "  " ++ (c.name ++ text "\n"))))
    >> pure (pos 0)

-- ===== src/Commands/Links/Laws.antt =====
-- Which links are made and removed.
use mathlib.Core.List.{reverse, map-append}
use iotools.Base.{
  ℕ, zero, suc, ◌≤◌, ap, ◌-◌, length-append, take-length_append, ◌<◌, ◌≡◌, refl, ◌∙◌, ◌≢◌, List, [],
  ◌∷◌, ◌++◌, some, map, arith, lt→ltb, length, take, All,
}
use iotools.Base.Int.{pos}
use iotools.Libc.Text.{Text, text, strrchr_last}
use iotools.Kernel.{linked, removed, resolved, Kernel, Log, done}
use iotools.Kernel.Calls.{for_each, pure}
use iotools.Kernel.Loops.{bind_done, Emits, Emits-for_each, concat_map, log_of, then_done}
use iotools.Command.{CmdInfo, CmdGroup}
use iotools.Commands.Locate.Laws.{all_commands}
use iotools.Commands.Links.{
  link_all, unlink_all, filename_max, split_path, locate_path_of_binary, build_symlink_name,
  make_link, make_command_links, remove_link, clean_command_links,
}

-- The calls of symlink in a log, the newest first: the target and the path of each.
abbrev pub links_made : Log → List (Text × Text)
links_made [] = []
links_made (linked target link r ∷ log) = (target, link) ∷ links_made log
links_made (e ∷ log) = links_made log

-- The calls of unlink in a log, the newest first.
abbrev pub links_removed : Log → List Text
links_removed [] = []
links_removed (removed path r ∷ log) = path ∷ links_removed log
links_removed (e ∷ log) = links_removed log

-- The path of the link of a command, in the folder of the binary.
abbrev pub link_path : Text → CmdInfo → Text
link_path dir c = dir ++ (b'/' ∷ c.name)

-- The path with its NUL fits FILENAME_MAX bytes.
abbrev pub Fits : Text → CmdInfo → Type 0
Fits dir c = length (link_path dir c) < filename_max

take-all : (n : ℕ) (s : Text) → length s ≤ n → take n s ≡ s
take-all zero [] h = refl
take-all (suc n) [] h = refl
take-all zero (x ∷ s) h = absurd (omega arith)
take-all (suc n) (x ∷ s) h = ap (λ (t : Text). x ∷ t) (take-all n s (omega arith))

build_symlink_name_lem :
    (dir : Text) (c : CmdInfo) → Fits dir c → build_symlink_name dir c ≡ link_path dir c
unfolding build_symlink_name
build_symlink_name_lem dir c fits = take-all (filename_max - 1) (link_path dir c) (omega arith)

map-All :
    {A B : Type 0} (P : A → Type 0) (f g : A → B) (xs : List A)
    → ((x : A) → P x → f x ≡ g x)
    → All P xs
    → map f xs ≡ map g xs
map-All P f g [] same h = refl
map-All P f g (x ∷ xs) same h = rw (same x h.0, map-All P f g xs same h.1)

make_link-Emits :
    (k : Kernel) (dir bin : Text) (c : CmdInfo) (log : Log)
    → Emits links_made k (make_link dir bin c) log ((bin, build_symlink_name dir c) ∷ [])
unfolding make_link
make_link-Emits k dir bin c log = (log_of (make_link dir bin c k log), ground arith, ground arith)

remove_link-Emits :
    (k : Kernel) (dir : Text) (c : CmdInfo) (log : Log)
    → Emits links_removed k (remove_link dir c) log (build_symlink_name dir c ∷ [])
unfolding remove_link
remove_link-Emits k dir c log = (log_of (remove_link dir c k log), ground arith, ground arith)

concat_map_singletons :
    {A B : Type 0} (f : A → B) (xs : List A) → concat_map (λ x. f x ∷ []) xs ≡ map f xs
concat_map_singletons f [] = refl
concat_map_singletons f (x ∷ xs) = rw (concat_map_singletons f xs)

map-all_commands :
    {B : Type 0} (f : CmdInfo → B) (gs : List CmdGroup)
    → concat_map (λ g. concat_map (λ c. f c ∷ []) g.commands) gs ≡ map f (all_commands gs)
map-all_commands f [] = refl
map-all_commands f (g ∷ gs) = rw (
  concat_map_singletons f g.commands,
  map-all_commands f gs,
  map-append f g.commands (all_commands gs),
)

-- The folder and the name that the code finds when the link /proc/self/exe reads `dir/bin`.
locate_path_of_binary_lem :
    (k : Kernel) (log : Log) (dir bin : Text)
    → k.readlink log (text "/proc/self/exe") ≡ some (dir ++ (b'/' ∷ bin))
    → length (dir ++ (b'/' ∷ bin)) < filename_max
    → All (λ x. x ≢ b'/') bin
    → locate_path_of_binary k log
      ≡ done (some (dir, bin)) (resolved (text "/proc/self/exe") (some (dir ++ (b'/' ∷ bin))) ∷ log)
unfolding locate_path_of_binary
locate_path_of_binary_lem k log dir bin e fits plain =
    rw (e, lt→ltb _ _ fits, strrchr_last b'/' dir bin plain, split_path) (rw cut)
  where
    all_but : length (dir ++ (b'/' ∷ bin)) - suc (length bin) ≡ length dir
    all_but = omega (arith, length-append dir (b'/' ∷ bin))

    cut : take (length (dir ++ (b'/' ∷ bin)) - suc (length bin)) (dir ++ (b'/' ∷ bin)) ≡ dir
    cut = rw all_but (take-length_append dir (b'/' ∷ bin))

module _ (k : Kernel) (log : Log) (dir bin : Text)
    (self : k.readlink log (text "/proc/self/exe") ≡ some (dir ++ (b'/' ∷ bin)))
    (fits : length (dir ++ (b'/' ∷ bin)) < filename_max) (plain : All (λ x. x ≢ b'/') bin)
    (groups : List CmdGroup) (short : All (Fits dir) (all_commands groups)) where
  abbrev started : Log
  started = resolved (text "/proc/self/exe") (some (dir ++ (b'/' ∷ bin))) ∷ log

  -- When the binary is found as `dir/bin`, for every registered command one link to `bin` is attempted
  -- at `dir/` and the command's name, in the order of the listing, whatever becomes of the earlier
  -- ones, and the result is 0. This needs that these paths fit FILENAME_MAX bytes.
  pub make_command_links_lem :
      (log' : Log) × (make_command_links groups k log ≡ done (pos 0) log')
      × (links_made log'
          ≡ reverse (map (λ c. (bin, link_path dir c)) (all_commands groups)) ++ links_made log)
  unfolding make_command_links
  make_command_links_lem =
      let (log', e, c) =
        Emits-for_each links_made k (λ g. for_each g.commands (make_link dir bin))
          (λ g. concat_map (λ c. (bin, build_symlink_name dir c) ∷ []) g.commands)
          (λ g.
            Emits-for_each links_made k (make_link dir bin)
              (λ c. (bin, build_symlink_name dir c) ∷ []) (make_link-Emits k dir bin) g.commands)
          groups started in
      (
        log',
        bind_done locate_path_of_binary (link_all groups) k
              (locate_path_of_binary_lem k log dir bin self fits plain)
            ∙ then_done (for_each groups (λ g. for_each g.commands (make_link dir bin)))
                (pure (pos 0)) k {log = started} e,
        c
            ∙ (rw
                (
                  map-all_commands {B = Text × Text} (λ c. (bin, build_symlink_name dir c)) groups,
                  map-All {B = Text × Text} (Fits dir) (λ c. (bin, build_symlink_name dir c))
                      (λ c. (bin, link_path dir c)) (all_commands groups)
                      (λ c fits'. ap (λ (p : Text). (bin, p)) (build_symlink_name_lem dir c fits'))
                      short,
                )
                refl),
      )

  -- When the binary is found as `dir/bin`, for every registered command the path `dir/` and the
  -- command's name is removed, in the order of the listing and none besides, whatever becomes of the
  -- earlier ones, and the result is 0. This needs that these paths fit FILENAME_MAX bytes.
  pub clean_command_links_lem :
      (log' : Log) × (clean_command_links groups k log ≡ done (pos 0) log')
      × (links_removed log'
          ≡ reverse (map (link_path dir) (all_commands groups)) ++ links_removed log)
  unfolding clean_command_links
  clean_command_links_lem =
      let (log', e, c) =
        Emits-for_each links_removed k (λ g. for_each g.commands (remove_link dir))
          (λ g. concat_map (λ c. build_symlink_name dir c ∷ []) g.commands)
          (λ g.
            Emits-for_each links_removed k (remove_link dir) (λ c. build_symlink_name dir c ∷ [])
              (remove_link-Emits k dir) g.commands)
          groups started in
      (
        log',
        bind_done locate_path_of_binary (unlink_all groups) k
              (locate_path_of_binary_lem k log dir bin self fits plain)
            ∙ then_done (for_each groups (λ g. for_each g.commands (remove_link dir)))
                (pure (pos 0)) k {log = started} e,
        c
            ∙ (rw
                (
                  map-all_commands (build_symlink_name dir) groups,
                  map-All (Fits dir) (build_symlink_name dir) (link_path dir) (all_commands groups)
                      (build_symlink_name_lem dir) short,
                )
                refl),
      )

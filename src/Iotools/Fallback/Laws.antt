-- ===== src/Iotools/Fallback/Laws.antt =====
-- What is rejected by `iotools_fallback`, and how.
use iotools.Base.{◌≡◌, refl, Bool, false, ◌||◌, List, [], ◌∷◌, ◌++◌, arith}
use iotools.Base.Int.{minus_one}
use iotools.Libc.Text.{Text, text, str_eq}
use iotools.Kernel.{Kernel, Log, Event, done, complained}
use iotools.Command.{CmdGroup}
use iotools.Iotools.Fallback.{iotools_fallback}

-- The options of the binary itself.
abbrev pub is_option : Text → Bool
is_option s =
    str_eq s (text "--help")
    || (str_eq s (text "--make-links")
        || (str_eq s (text "--clean-links")
            || (str_eq s (text "--list-cmds")
                || (str_eq s (text "-v") || str_eq s (text "--version")))))

-- The arguments behind argv[0] are one option.
abbrev pub is_option_line : List Text → Bool
is_option_line [] = false
is_option_line (s ∷ []) = is_option s
is_option_line (s ∷ t ∷ rest) = false

-- The usage text on stderr, the newest event first.
abbrev pub usage_on_stderr : Text → List Event
usage_on_stderr name =
    complained
      (text "  COMMANDS:\n    --make-links\n    --clean-links\n    --list-cmds\n    -v --version\n")
    ∷ complained (text "usage: " ++ (name ++ text " COMMAND\n"))
    ∷ []

-- A lone argument that is no option is named before the usage text.
abbrev pub rejection : Text → List Text → List Event
rejection name (s ∷ []) =
    usage_on_stderr name
    ++ (complained (b'\'' ∷ (s ++ text "' sub-command not supported by iotools\n")) ∷ [])
rejection name rest = usage_on_stderr name

-- Arguments that are not one option end with -1; nothing but the rejection is written, on stderr.
pub iotools_fallback_rejects :
    (groups : List CmdGroup) (name : Text) (rest : List Text) (k : Kernel) (log : Log)
    → is_option_line rest ≡ false
    → iotools_fallback groups (name ∷ rest) k log ≡ done minus_one (rejection name rest ++ log)
unfolding iotools_fallback
iotools_fallback_rejects groups name [] k log h = refl
iotools_fallback_rejects groups name (s ∷ []) k log h = ground arith
iotools_fallback_rejects groups name (s ∷ t ∷ rest) k log h = ground arith

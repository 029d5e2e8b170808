-- ===== src/CommandLine.antt =====
-- client/utils.py: how the arguments of a task become the arguments of a job. `shlex.split` is the
-- POSIX reader of Python's standard library, with no comments and with words split at white space.
pub mod Shlex
pub mod Roundtrip
use Prim.Native.Char.{code}
use Prim.Native.String.{[], ◌∷◌}
use ccp.Prelude.{String, Bool, List, ◌&&◌, map, ◌==◌, if◌then◌else◌}
use ccp.Prelude.Text.{replace}
use ccp.Prelude.Raise.{Result, ok, raised, ◌>>=◌}
use ccp.CommandLine.Shlex.{split}

-- The character that follows, or the final "." that the code puts there.
abbrev is_backtick_next : String → Bool
is_backtick_next [] = ccp.Prelude.false
is_backtick_next (c ∷ s) = code c == b'`'

-- `_shlex_unescape`
unfoldable pub shlex_unescape : String → String
shlex_unescape [] = []
shlex_unescape (c ∷ s) =
    let rest = shlex_unescape s in if code c == 92 && is_backtick_next s then rest else c ∷ rest

unfoldable pub parse_command_line : String → Result (List String)
unfolding shlex_unescape
parse_command_line s = do words ← split s; ok (map shlex_unescape words)

-- `settings.SHARED_DIRECTORY`, `ASSETS_DIR` and `timezone.now().isoformat()`.
pub record Settings : Type 0 where
  pub shared_directory : String
  pub assets_dir : String
  pub now : String

-- The replacements stand in the order of the source's dict.
unfoldable pub replace_task_arguments : Settings → String → String → String → String
unfolding replace
replace_task_arguments env arguments task_uuid task_created_date =
    let a = replace arguments "%sharedPath%" env.shared_directory in
    let b = replace a "%clientAssetsDirectory%" env.assets_dir in
    let c = replace b "%date%" env.now in
    let d = replace c "%taskUUID%" task_uuid in replace d "%jobCreatedDate%" task_created_date

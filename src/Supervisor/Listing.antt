-- ===== src/Supervisor/Listing.antt =====
-- What the supervisor reads off the texts of `ps` and `lsof`, and off a path
-- (src/supervisor/src/lib.rs). Paths are texts without repeated or trailing slashes.
use Prim.Native.Char.{Char, code}
use Prim.Native.String.{◌∷◌ as char_cons, [] as empty_text, len, ◌++◌ as append}
use codex_warden.Prelude.{
  String, Bool, false, not, ◌&&◌, ◌||◌, List, [], ◌∷◌, eqb, leb, ltb, any, contains, starts_with,
  ends_with, ◌==◌, if◌then◌else◌, reverse, count,
}

-- `char::is_whitespace`: the property White_Space of Unicode.
abbrev is_whitespace : Char → Bool
is_whitespace c =
    let n = code c in
    (leb 9 n && leb n 13)
    || eqb n 32
    || eqb n 133
    || eqb n 160
    || eqb n 5760
    || (leb 8192 n && leb n 8202)
    || eqb n 8232
    || eqb n 8233
    || eqb n 8239
    || eqb n 8287
    || eqb n 12288

begins_line : String → Bool
begins_line empty_text = false
begins_line (char_cons c s) = eqb (code c) 10

push_front : Char → List String → List String
push_front c [] = char_cons c empty_text ∷ []
push_front c (line ∷ rest) = char_cons c line ∷ rest

-- `str::lines`: a line ends at `\n` or `\r\n`, and the last one may lack its end.
unfoldable lines : String → List String
unfolding begins_line push_front
lines empty_text = []
lines (char_cons c s) =
    let rest = lines s in
    if eqb (code c) 10
    then "" ∷ rest
    else if eqb (code c) 13 && begins_line s
    then rest
    else push_front c rest

trim_start : String → String
trim_start empty_text = empty_text
trim_start (char_cons c s) =
    let rest = trim_start s in if is_whitespace c then rest else char_cons c s

trim_end : String → String
trim_end empty_text = empty_text
trim_end (char_cons c s) =
    let rest = trim_end s in if rest == "" && is_whitespace c then rest else char_cons c rest

-- `str::trim`.
unfoldable pub trim : String → String
unfolding trim_start trim_end
trim s = trim_end (trim_start s)

split_slash : String → List String
unfolding push_front
split_slash empty_text = "" ∷ []
split_slash (char_cons c s) =
    let rest = split_slash s in if eqb (code c) 47 then "" ∷ rest else push_front c rest

join_slash : List String → String
join_slash [] = ""
join_slash (part ∷ []) = part
join_slash (part ∷ next ∷ rest) = append part (append "/" (join_slash (next ∷ rest)))

-- `path.extension()` is `app`: a name that is all extension has none.
has_extension_app : String → Bool
has_extension_app name = ends_with name ".app" && ltb 4 (len name)

-- The longest ancestor with the extension, of a path's parts with the last one first.
bundle_parts : List String → List String
unfolding has_extension_app
bundle_parts [] = []
bundle_parts (name ∷ parents) =
    let rest = bundle_parts parents in if has_extension_app name then name ∷ parents else rest

unfoldable pub application_bundle : String → String
unfolding split_slash bundle_parts join_slash
application_bundle executable = elim (bundle_parts (reverse (split_slash executable))) [
  | [] ↦ executable
  | part ∷ parts ↦ join_slash (reverse (part ∷ parts))
]

unfoldable pub has_managed_daemon : String → String → Bool
unfolding lines
has_managed_daemon processes codex =
    any
      (λ line.
        contains line codex
        && contains line "app-server"
        && (contains line "daemon" || contains line "--listen unix://"))
      (lines processes)

unfoldable pub gui_running : String → String → Bool
unfolding lines
gui_running processes gui = any (λ line. contains line gui) (lines processes)

unfoldable pub gui_mode_enabled : String → String → Bool
unfolding lines
gui_mode_enabled processes gui =
    any
      (λ line.
        contains line gui
        && contains line "CODEX_APP_SERVER_USE_LOCAL_DAEMON=1"
        && not (contains line "CODEX_APP_SERVER_FORCE_CLI=1")
        && not (contains line "CODEX_CLI_PATH="))
      (lines processes)

-- A line of `lsof` that is neither blank nor the heading.
abbrev is_record : String → Bool
is_record line = let text = trim line in not (text == "") && not (starts_with text "COMMAND")

unfoldable pub has_accepted_socket_connection : String → Bool
unfolding lines trim
has_accepted_socket_connection users = ltb 1 (count is_record (lines users))

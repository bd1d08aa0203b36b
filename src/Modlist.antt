-- ===== src/Modlist.antt =====
-- The profile lists of `MO2Controller` in sky_claw/local/mo2/vfs.py. A file is its text as Python
-- reads it, each newline one character, and whether it begins with a byte order mark. A mod's name is
-- its code points. The sandbox test of the list's path by `PathValidator.validate` and the failures
-- of the file system are arguments.
pub mod Names
pub mod Entries
pub mod Edits
pub mod Toggling
pub mod Removal
pub mod Adding
pub mod Gluing
use sky_claw_gravity.Prelude.{
  Bool, List, Option, [], false, if◌then◌else◌, none, not, some, true, ℕ, ◌&&◌, ◌++◌, ◌==◌, ◌||◌,
  ◌∷◌, nat_eq, string_eq,
}
use sky_claw_gravity.Result.{Result, err, ok}
use sky_claw_gravity.Text.{ends_line, joined, lines_of, newline, rstrip, strip, codes_eq}
use sky_claw_gravity.Paths.{PathViolation, assert_safe_component, outside_sandbox}

pub record ModlistFile : Type 0 where
  pub has_bom : Bool
  pub text : List ℕ

pub data ModlistError : Type 0 where
  violation : PathViolation → ModlistError
  file_not_found write_failed : ModlistError

-- `line[0] in ("+", "-")`
unfoldable pub is_mark : ℕ → Bool
is_mark c = c == b'+' || c == b'-'

-- an entry of a stripped line: the loop of `read_modlist`
unfoldable pub parse_line : List ℕ → Option (List ℕ × Bool)
unfolding is_mark
parse_line [] = none
parse_line (c ∷ cs) =
    if c == b'#'
    then none
    else if c == b'*'
    then none
    else if is_mark c
    then if strip cs == [] then none else some (strip cs, c == b'+')
    else none

-- `yield`, if the line has an entry
unfoldable pub yielded : Option (List ℕ × Bool) → List (List ℕ × Bool) → List (List ℕ × Bool)
yielded none rest = rest
yielded (some entry) rest = entry ∷ rest

-- the entries that the lines yield
unfoldable pub collect : List (List ℕ) → List (List ℕ × Bool)
unfolding parse_line yielded
collect [] = []
collect (raw ∷ lines) = yielded (parse_line (strip raw)) (collect lines)

unfoldable pub entries : List ℕ → List (List ℕ × Bool)
unfolding collect
entries text = collect (lines_of text)

-- the tests before each operation: its names, then the path
unfoldable pub checked : Option PathViolation → Option PathViolation → Option PathViolation
checked none next = next
checked (some v) next = some v

unfoldable pub check_path : Bool → Option PathViolation
check_path true = none
check_path false = some outside_sandbox

unfoldable pub check_names : List ℕ → List ℕ → Bool → Option PathViolation
unfolding checked check_path
check_names mod_name profile is_inside =
    checked (assert_safe_component mod_name)
      (checked (assert_safe_component profile) (check_path is_inside))

-- `read_modlist`
unfoldable pub read_modlist :
    Option ModlistFile → List ℕ → Bool → Result ModlistError (List (List ℕ × Bool))
unfolding entries
read_modlist file profile is_inside =
    elim (checked (assert_safe_component profile) (check_path is_inside)) [
      | some v ↦ err (violation v)
      | none ↦ elim file [ none ↦ err file_not_found | some f ↦ ok (entries f.text) ]
    ]

-- the name on a stripped line, if it is the line of a mod
unfoldable pub name_of : List ℕ → Option (List ℕ)
unfolding is_mark
name_of [] = none
name_of (c ∷ cs) = if is_mark c then some (strip cs) else none

-- `mod_name in existing_names`
unfoldable pub is_present : List ℕ → List (List ℕ) → Bool
unfolding name_of
is_present name [] = false
is_present name (raw ∷ lines) = elim (name_of (strip raw)) [
  | none ↦ is_present name lines
  | some other ↦ other == name || is_present name lines
]

-- the line of a mod
abbrev pub mod_line : ℕ → List ℕ → List ℕ
mod_line mark name = mark ∷ (name ++ newline ∷ [])

-- `add_mod_to_modlist`
unfoldable pub add_mod :
    Option ModlistFile
    → List ℕ
    → List ℕ
    → Bool
    → Option ModlistFile × Result ModlistError (Unit {0})
unfolding check_names is_present
add_mod file name profile is_inside = elim (check_names name profile is_inside) [
  | some v ↦ (file, err (violation v))
  | none ↦ elim file [
    | none ↦ (some (record { has_bom = false; text = mod_line b'+' name }), ok tt)
    | some f ↦
        if is_present name (lines_of f.text)
        then (some f, ok tt)
        else (some (record f { text = f.text ++ mod_line b'+' name }), ok tt)
  ]
]

-- `line.rstrip("\r\n")`
unfoldable pub is_line_end : ℕ → Bool
is_line_end c = c == 13 || c == newline

-- a line as `_write_modlist_atomic` writes it
unfoldable pub normalised : List ℕ → List ℕ
unfolding is_line_end
normalised l = if ends_line l then l else rstrip is_line_end l ++ newline ∷ []

unfoldable pub normalise_all : List (List ℕ) → List (List ℕ)
unfolding normalised
normalise_all [] = []
normalise_all (l ∷ ls) = normalised l ∷ normalise_all ls

-- `_write_modlist_atomic`; the flag is an exception of the write or of the renaming
unfoldable pub write_modlist :
    Option ModlistFile → List (List ℕ) → Bool → Option ModlistFile × Result ModlistError (Unit {0})
unfolding normalise_all
write_modlist file lines true = (file, err write_failed)
write_modlist file lines false =
    (some (record { has_bom = true; text = joined (normalise_all lines) }), ok tt)

-- is this stripped line the one of a mod?
unfoldable pub is_mod_line : List ℕ → List ℕ → Bool
unfolding is_mark
is_mod_line name [] = false
is_mod_line name (c ∷ cs) = strip cs == name && is_mark c

-- the lines without those of a mod
unfoldable pub lines_without : List ℕ → List (List ℕ) → List (List ℕ)
unfolding is_mod_line
lines_without name [] = []
lines_without name (raw ∷ lines) =
    let rest = lines_without name lines in if is_mod_line name (strip raw) then rest else raw ∷ rest

-- was the mod found?
unfoldable pub is_found : List ℕ → List (List ℕ) → Bool
unfolding is_mod_line
is_found name [] = false
is_found name (raw ∷ lines) = is_mod_line name (strip raw) || is_found name lines

-- `remove_mod_from_modlist`
unfoldable pub remove_mod :
    Option ModlistFile
    → List ℕ
    → List ℕ
    → Bool
    → Bool
    → Option ModlistFile × Result ModlistError (Unit {0})
unfolding check_names lines_without is_found write_modlist
remove_mod file name profile is_inside os_error = elim (check_names name profile is_inside) [
  | some v ↦ (file, err (violation v))
  | none ↦ elim file [
    | none ↦ (none, ok tt)
    | some f ↦
        if is_found name (lines_of f.text)
        then write_modlist (some f) (lines_without name (lines_of f.text)) os_error
        else (some f, ok tt)
  ]
]

-- `line[0]` of a line that is not empty
unfoldable pub first_char : List ℕ → ℕ
first_char [] = 0
first_char (c ∷ cs) = c

-- must this line be written anew?
unfoldable pub is_toggled : ℕ → List ℕ → List ℕ → Bool
unfolding is_mod_line first_char
is_toggled mark name raw = is_mod_line name (strip raw) && not (first_char (strip raw) == mark)

unfoldable pub toggle_lines : ℕ → List ℕ → List (List ℕ) → List (List ℕ)
unfolding is_toggled
toggle_lines mark name [] = []
toggle_lines mark name (raw ∷ lines) =
    (if is_toggled mark name raw then mod_line mark name else raw) ∷ toggle_lines mark name lines

unfoldable pub is_changed : ℕ → List ℕ → List (List ℕ) → Bool
unfolding is_toggled
is_changed mark name [] = false
is_changed mark name (raw ∷ lines) = is_toggled mark name raw || is_changed mark name lines

-- the mark of a mod that is enabled, or not
abbrev pub mark_of : Bool → ℕ
mark_of enable = if enable then b'+' else b'-'

-- `toggle_mod_in_modlist`
unfoldable pub toggle_mod :
    Option ModlistFile
    → List ℕ
    → List ℕ
    → Bool
    → Bool
    → Bool
    → Option ModlistFile × Result ModlistError (Unit {0})
unfolding check_names toggle_lines is_changed write_modlist
toggle_mod file name profile enable is_inside os_error = elim (check_names name profile is_inside) [
  | some v ↦ (file, err (violation v))
  | none ↦ elim file [
    | none ↦ (none, ok tt)
    | some f ↦
        if is_changed (mark_of enable) name (lines_of f.text)
        then write_modlist (some f) (toggle_lines (mark_of enable) name (lines_of f.text)) os_error
        else (some f, ok tt)
  ]
]

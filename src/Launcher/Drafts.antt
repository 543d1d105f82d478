-- ===== src/Launcher/Drafts.antt =====
-- apps/rocket/App.cpp: `AppDescription::read` and `readAppFiles`. A file is its content, `none` if it cannot be
-- opened.
use Prim.Native.Char.{Char, code}
use r_m2_stuff_rocket.Base.{
  String, Bool, Option, none, some, List, [], ◌∷◌, ◌==◌, ◌||◌, if◌then◌else◌, same_text, append,
}
use r_m2_stuff_rocket.Launcher.Apps.{AppDescription}

abbrev first_char : Char → List String → List String
first_char c [] = String.◌∷◌ c String.[] ∷ []
first_char c (l ∷ ls) = String.◌∷◌ c l ∷ ls

-- The lines that `std::getline` gives: the last one may lack its end.
unfoldable pub get_lines : String → List String
get_lines String.[] = []
get_lines (String.◌∷◌ c s) =
    let rest = get_lines s in if code c == 10 then "" ∷ rest else first_char c rest

abbrev to_key : Char → Option (String × String) → Option (String × String)
to_key c none = none
to_key c (some (key, value)) = some (String.◌∷◌ c key, value)

-- What is before the first `=` of a line, and what is after it.
unfoldable pub split_line : String → Option (String × String)
split_line String.[] = none
split_line (String.◌∷◌ c s) =
    let rest = split_line s in if code c == 61 then some ("", s) else to_key c rest

unfoldable pub set_member : String → String → AppDescription → AppDescription
set_member key value d =
    if same_text key "name"
    then record d { name = value }
    else if same_text key "desc"
    then record d { description = value }
    else if same_text key "call"
    then record d { command = value }
    else if same_text key "imgFile"
    then record d { icon = value }
    else d

unfoldable pub read_line : String → AppDescription → AppDescription
read_line line d = elim (split_line line) [ none ↦ d | some (key, value) ↦ set_member key value d ]

unfoldable pub read_lines : List String → AppDescription → AppDescription
read_lines [] d = d
read_lines (l ∷ ls) d = read_lines ls (read_line l d)

abbrev pub is_empty_text : String → Bool
is_empty_text s = same_text s ""

abbrev pub new_description : String → AppDescription
new_description path = record {
  path = path;
  name = "";
  description = "";
  command = "";
  icon = "";
  icon_path = "";
}

unfoldable pub finish_description : String → AppDescription → Option AppDescription
finish_description icon_dir d =
    if is_empty_text d.name || is_empty_text d.command
    then none
    else if is_empty_text d.icon
    then some d
    else some (record d { icon_path = append icon_dir (append "/" (append d.icon ".png")) })

unfoldable pub read_description : String → String → Option String → Option AppDescription
read_description path icon_dir none = none
read_description path icon_dir (some content) =
    finish_description icon_dir (read_lines (get_lines content) (new_description path))

abbrev with_description : Option AppDescription → List AppDescription → List AppDescription
with_description none ds = ds
with_description (some d) ds = d ∷ ds

unfoldable read_app_files : String → List (String × Option String) → List AppDescription
read_app_files icon_dir [] = []
read_app_files icon_dir ((path, content) ∷ files) =
    with_description (read_description path icon_dir content) (read_app_files icon_dir files)

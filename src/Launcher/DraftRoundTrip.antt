-- ===== src/Launcher/DraftRoundTrip.antt =====
-- apps/rocket/App.cpp: a description that is written as a draft file is read back.
use Prim.Native.Char.{code}
use r_m2_stuff_rocket.Base.{
  String, Bool, true, false, some, [], ◌∷◌, ◌≡◌, ◌==◌, if◌then◌else◌, append, same_text, refl,
}
use r_m2_stuff_rocket.Launcher.Apps.{AppDescription}
use r_m2_stuff_rocket.Launcher.Drafts.{
  get_lines, split_line, set_member, read_line, read_lines, is_empty_text, new_description,
  finish_description, read_description,
}

-- No end of a line stands in the text.
unfoldable pub OneLine : String → Type 0
OneLine String.[] = Unit {0}
OneLine (String.◌∷◌ c s) = (code c == 10 ≡ false) × OneLine s

unfoldable pub then_text : String → String → String
then_text String.[] t = t
then_text (String.◌∷◌ c s) t = String.◌∷◌ c (then_text s t)

-- A text, the end of a line, and what follows.
unfoldable pub then_line : String → String → String
then_line s rest = then_text s (String.◌∷◌ "\n" rest)

unfoldable pub print_description : AppDescription → String
print_description d = then_line (then_text "name=" d.name) (
    then_line (then_text "desc=" d.description)
      (then_line (then_text "call=" d.command) (then_line (then_text "imgFile=" d.icon) "")))

get_lines-line : (s rest : String) → OneLine s → get_lines (then_line s rest) ≡ s ∷ get_lines rest
unfolding get_lines OneLine then_line then_text
get_lines-line String.[] rest h = refl
get_lines-line (String.◌∷◌ c s) rest h = rw (h.0, get_lines-line s rest h.1) refl

get_lines-print_description :
    (d : AppDescription)
    → OneLine d.name
    → OneLine d.description
    → OneLine d.command
    → OneLine d.icon
    → get_lines (print_description d)
      ≡ then_text "name=" d.name
        ∷ then_text "desc=" d.description
        ∷ then_text "call=" d.command
        ∷ then_text "imgFile=" d.icon
        ∷ []
unfolding print_description OneLine then_text get_lines
get_lines-print_description d hn hd hc hi =
    rw
      (
        get_lines-line (then_text "name=" d.name) _ (refl, (refl, (refl, (refl, (refl, hn))))),
        get_lines-line (then_text "desc=" d.description) _
            (refl, (refl, (refl, (refl, (refl, hd))))),
        get_lines-line (then_text "call=" d.command) _ (refl, (refl, (refl, (refl, (refl, hc))))),
        get_lines-line (then_text "imgFile=" d.icon) _
            (refl, (refl, (refl, (refl, (refl, (refl, (refl, (refl, hi)))))))),
      )
      refl

read_lines-members :
    (path n t c i : String)
    → read_lines
        (then_text "name=" n
          ∷ then_text "desc=" t
          ∷ then_text "call=" c
          ∷ then_text "imgFile=" i
          ∷ [])
        (new_description path)
      ≡ record { path = path; name = n; description = t; command = c; icon = i; icon_path = "" }
unfolding read_lines read_line then_text split_line set_member same_text
read_lines-members path n t c i = refl

some-if :
    (e : Bool) (d : AppDescription) (p : String)
    → (if e then some d else some (record d { icon_path = p }))
      ≡ some (record d { icon_path = if e then d.icon_path else p })
some-if true d p = refl
some-if false d p = refl

-- A description whose members have no end of a line, and whose name and command are not empty, is read back from
-- the draft file written for it, with the path of the icon beside the given folder if it names an icon.
pub read_description-print_description :
    (d : AppDescription) (icon_dir : String)
    → OneLine d.name
    → OneLine d.description
    → OneLine d.command
    → OneLine d.icon
    → is_empty_text d.name ≡ false
    → is_empty_text d.command ≡ false
    → read_description d.path icon_dir (some (print_description d))
      ≡ some (record d {
        icon_path =
            if is_empty_text d.icon
            then ""
            else append icon_dir (append "/" (append d.icon ".png"));
      })
unfolding read_description finish_description
read_description-print_description d icon_dir hn hd hc hi n_set c_set =
    rw
      (
        get_lines-print_description d hn hd hc hi,
        read_lines-members d.path d.name d.description d.command d.icon,
        n_set,
        c_set,
      )
      (some-if (is_empty_text d.icon) (record d { icon_path = "" })
        (append icon_dir (append "/" (append d.icon ".png"))))

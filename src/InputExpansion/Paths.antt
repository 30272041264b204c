-- ===== src/InputExpansion/Paths.antt =====
-- Paths as their components, and what `std::path` does with them (used by
-- crates/luchta-engine/src/input_expansion.rs).
pub mod Within
use Prim.Native.Char.{Char, code}
use luchta.Prelude.{
  ℕ, Bool, true, false, not, ◌&&◌, ◌||◌, Option, none, some, List, [], ◌∷◌, ◌++◌, String, string_eq,
  ◌==◌, PartialEq, ◌≡◌, ◌↔◌, arith, refl, length, leb, nat_beq, if◌then◌else◌,
}
use luchta.Text.{append, is_empty}

-- `Component`, without the prefixes of Windows.
pub data Component : Type 0 where
  root_dir cur_dir parent_dir : Component
  normal : String → Component

abbrev pub component_beq : Component → Component → Bool
component_beq root_dir root_dir = true
component_beq cur_dir cur_dir = true
component_beq parent_dir parent_dir = true
component_beq (normal s) (normal t) = s == t
component_beq _ _ = false

-- The parts between slashes.
abbrev add_char : Char → List String → List String
add_char c [] = String.◌∷◌ c String.[] ∷ []
add_char c (part ∷ parts) = String.◌∷◌ c part ∷ parts

unfoldable pub split_slashes : String → List String
split_slashes String.[] = "" ∷ []
split_slashes (String.◌∷◌ c s) =
    let rest = split_slashes s in if nat_beq (code c) 47 then "" ∷ rest else add_char c rest

-- Empty parts and `.` say nothing.
unfoldable pub parts_components : List String → List Component
parts_components [] = []
parts_components (part ∷ parts) =
    let rest = parts_components parts in
    if is_empty part || part == "."
    then rest
    else if part == ".."
    then parent_dir ∷ rest
    else normal part ∷ rest

abbrev pub starts_with_slash : String → Bool
starts_with_slash String.[] = false
starts_with_slash (String.◌∷◌ c s) = nat_beq (code c) 47

-- A leading `.` is a component of its own.
abbrev pub leading_dot : List String → List Component
leading_dot [] = []
leading_dot (part ∷ parts) = if part == "." then cur_dir ∷ [] else []

-- `Path::components`
unfoldable pub components : String → List Component
unfolding split_slashes parts_components
components path =
    let parts = split_slashes path in
    if starts_with_slash path
    then root_dir ∷ parts_components parts
    else leading_dot parts ++ parts_components parts

abbrev ends_with_slash : String → Bool
ends_with_slash String.[] = false
ends_with_slash (String.◌∷◌ c String.[]) = nat_beq (code c) 47
ends_with_slash (String.◌∷◌ c (String.◌∷◌ d s)) = ends_with_slash (String.◌∷◌ d s)

-- `Path::join`: an absolute path takes the place of the base.
unfoldable pub join : String → String → String
join base path =
    if starts_with_slash path
    then path
    else if is_empty base || ends_with_slash base
    then append base path
    else append base (append "/" path)

-- `Vec::last` and `Vec::pop`
unfoldable pub last : List Component → Option Component
last [] = none
last (c ∷ []) = some c
last (c ∷ d ∷ cs) = last (d ∷ cs)

unfoldable pub pop : List Component → List Component
pop [] = []
pop (c ∷ []) = []
pop (c ∷ d ∷ cs) = c ∷ pop (d ∷ cs)

-- `matches!(components.last(), Some(Component::Normal(_)))`
unfoldable pub ends_normal : List Component → Bool
unfolding last
ends_normal cs = elim (last cs) [ some (normal s) ↦ true | _ ↦ false ]

-- The loop of `lexical_normalize`; the path that is collected at the end has these components.
unfoldable pub normalize : List Component → List Component → List Component
unfolding ends_normal pop
normalize [] components = components
normalize (root_dir ∷ path) components = normalize path (root_dir ∷ [])
normalize (cur_dir ∷ path) components = normalize path components
normalize (parent_dir ∷ path) components =
    let up = normalize path (pop components) in
    let kept = normalize path (components ++ parent_dir ∷ []) in
    if ends_normal components then up else kept
normalize (normal s ∷ path) components = normalize path (components ++ normal s ∷ [])

unfoldable pub lexical_normalize : String → List Component
unfolding components normalize
lexical_normalize path = normalize (components path) []

-- `path_starts_with`, on components: the prefix is no longer, and its components come first.
unfoldable pub starts_with : List Component → List Component → Bool
starts_with path [] = true
starts_with [] (c ∷ prefix) = false
starts_with (d ∷ path) (c ∷ prefix) = component_beq d c && starts_with path prefix

-- ===== src/Base/FilePaths.antt =====
-- `filepath.Join` of two elements, with the lexical cleaning that it does.
use mathlib.Core.Bool.{Bool, ◌||◌}
use mathlib.Core.List.{List, [], ◌∷◌, ◌++◌, reverse}
use brickstor_csi_driver.Base.Tests.{if◌then◌else◌}
use brickstor_csi_driver.Base.Strings.{Text, codes, text_eq, is_empty, split, join, has_prefix}

-- A ".." drops the component before it, which is on top of the stack.
up : Bool → List Text → List Text
up rooted [] = if rooted then [] else codes ".." ∷ []
up rooted (top ∷ stack) = if text_eq top (codes "..") then codes ".." ∷ top ∷ stack else stack

clean_parts : Bool → List Text → List Text → List Text
unfolding up
clean_parts rooted [] stack = stack
clean_parts rooted (c ∷ cs) stack = clean_parts rooted cs (
    if is_empty c || text_eq c (codes ".")
    then stack
    else if text_eq c (codes "..")
    then up rooted stack
    else c ∷ stack)

-- `filepath.Clean`
unfoldable pub clean : Text → Text
unfolding clean_parts
clean path =
    let rooted = has_prefix path (codes "/") in
    let inside = join (codes "/") (reverse (clean_parts rooted (split b'/' path) [])) in
    if rooted then b'/' ∷ inside else if is_empty inside then codes "." else inside

-- `filepath.Join(dir, name)`
unfoldable pub path_join : Text → Text → Text
unfolding clean
path_join dir name =
    if is_empty dir then if is_empty name then [] else clean name else clean (dir ++ b'/' ∷ name)

-- ===== src/Library/Identity/Tests.antt =====
-- A path with every kind of element.
use atrium_go.Text.{join, str_eq}
use atrium_go.Base.{◌≡◌, ◌⊎◌, refl, some, [], All}
use atrium_go.Library.Identity.Clean.{clean_elements-clean, IsName}
use atrium_go.Library.Identity.{clean_elements, slash}
use atrium_go.Text.{codes, split}

cleans : clean_elements (codes "a//./b/../c/") ≡ some (codes "a/c")
unfolding clean_elements split str_eq join
cleans = refl

clean_elements-clean_example :
    (clean_elements (codes "a/c") ≡ some (codes "a/c"))
    × ((codes "a/c" ≡ []) ⊎ All IsName (split slash (codes "a/c")))
clean_elements-clean_example = clean_elements-clean (codes "a//./b/../c/") cleans

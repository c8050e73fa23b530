-- ===== src/Documents/Paths.antt =====
-- What internal/documents/service.go takes from file names and content types: `filepath.Base`,
-- `filepath.Ext` and the text before a semicolon.
use ai_workflow.Base.{String, Bool, false, ◌&&◌, not, ◌||◌, eqb, if◌then◌else◌, ◌≡◌, refl}
use Prim.Native.Char.{code}
use ai_workflow.Base.Text.{is_empty}

pub has_slash : String → Bool
has_slash String.[] = false
has_slash (String.◌∷◌ c s) = eqb (code c) b'/' || has_slash s

pub strip_slashes : String → String
strip_slashes String.[] = String.[]
strip_slashes (String.◌∷◌ c s) =
    let rest = strip_slashes s in
    if eqb (code c) b'/' && is_empty rest then String.[] else String.◌∷◌ c rest

pub last_element : String → String
last_element String.[] = String.[]
last_element (String.◌∷◌ c s) =
    let rest = last_element s in
    if has_slash s then rest else if eqb (code c) b'/' then s else String.◌∷◌ c s

-- `filepath.Base`
unfoldable pub base : String → String
unfolding has_slash strip_slashes last_element
base path =
    let element = last_element (strip_slashes path) in
    if is_empty path then "." else if is_empty element then "/" else element

-- `filepath.Ext`
unfoldable pub extension : String → String
unfolding has_slash
extension String.[] = String.[]
extension (String.◌∷◌ c s) =
    let rest = extension s in
    if not (is_empty rest)
    then rest
    else if eqb (code c) b'.' && not (has_slash s)
    then String.◌∷◌ c s
    else String.[]

-- `contentType[:index]` at the first semicolon.
unfoldable pub before_semicolon : String → String
before_semicolon String.[] = String.[]
before_semicolon (String.◌∷◌ c s) =
    let rest = before_semicolon s in if eqb (code c) b';' then String.[] else String.◌∷◌ c rest

names : (base "a/b.txt/" ≡ "b.txt") × (base "" ≡ ".") × (base "//" ≡ "/")
unfolding base
names = (refl, refl, refl)

extensions : (extension "a.tar.gz" ≡ ".gz") × (extension "a.b/c" ≡ "")
unfolding extension
extensions = (refl, refl)

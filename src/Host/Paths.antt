-- ===== src/Host/Paths.antt =====
-- Equality of paths, as `std::path::Path` has it: by components. Repeated and trailing slashes do
-- not count, nor do `.` components, unless one begins a relative path.
use Prim.Native.Char.{Char, code}
use rlvm.Base.{
  String, Bool, true, false, ◌&&◌, ◌≡◌, refl, ap, List, [], ◌∷◌, ◌==◌, if◌then◌else◌, arith,
}
use rlvm.Base.Text
use text.Mathlib.TextEquality.{eq_iff}

abbrev onto_first : Char → List String → List String
onto_first c [] = []
onto_first c (x ∷ xs) = String.◌∷◌ c x ∷ xs

-- What stands between the slashes.
abbrev segments : String → List String
segments String.[] = "" ∷ []
segments (String.◌∷◌ c s) =
    let rest = segments s in if code c == b'/' then "" ∷ rest else onto_first c rest

abbrev names : List String → List String
names [] = []
names (x ∷ xs) =
    let rest = names xs in
    if Text.is_empty x then rest else if Text.same_text x "." then rest else x ∷ rest

abbrev is_rooted : String → Bool
is_rooted String.[] = false
is_rooted (String.◌∷◌ c s) = code c == b'/'

-- The components of a relative path keep a `.` at the front.
abbrev relative_names : List String → List String
relative_names [] = []
relative_names (x ∷ xs) = if Text.same_text x "." then x ∷ names xs else names (x ∷ xs)

abbrev components : String → List String
components s = if is_rooted s then "/" ∷ names (segments s) else relative_names (segments s)

abbrev same_texts : List String → List String → Bool
same_texts [] [] = true
same_texts [] (y ∷ ys) = false
same_texts (x ∷ xs) [] = false
same_texts (x ∷ xs) (y ∷ ys) = Text.same_text x y && same_texts xs ys

unfoldable pub same_path : String → String → Bool
same_path a b = same_texts (components a) (components b)

same_texts-eq : (xs ys : List String) → same_texts xs ys ≡ true → xs ≡ ys
same_texts-eq [] [] h = refl
same_texts-eq [] (y ∷ ys) h = ground arith
same_texts-eq (x ∷ xs) [] h = ground arith
same_texts-eq (x ∷ xs) (y ∷ ys) h = ground (arith, eq_iff x y, same_texts-eq xs ys)

-- Paths that are the same are the same to every other path.
pub same_path-same : (a b m : String) → same_path a b ≡ true → same_path m a ≡ same_path m b
unfolding same_path
same_path-same a b m h =
    ap (same_texts (components m)) (same_texts-eq (components a) (components b) h)

-- The same on the other side.
pub same_path-same_left : (a b m : String) → same_path a b ≡ true → same_path a m ≡ same_path b m
unfolding same_path
same_path-same_left a b m h =
    ap (λ xs. same_texts xs (components m)) (same_texts-eq (components a) (components b) h)

same_texts_refl : (xs : List String) → same_texts xs xs ≡ true
same_texts_refl [] = refl
same_texts_refl (x ∷ xs) = ground (arith, eq_iff x x, same_texts_refl xs)

pub same_path_refl : (a : String) → same_path a a ≡ true
unfolding same_path
same_path_refl a = same_texts_refl (components a)

trailing_slash : same_path "/mnt//a/./b/" "/mnt/a/b" ≡ true
unfolding same_path
trailing_slash = refl

relative_path : same_path "./a" "a" ≡ false
unfolding same_path
relative_path = refl

-- `mounts.contains(&path.into())`
unfoldable pub contains_path : List String → String → Bool
contains_path [] path = false
contains_path (m ∷ mounts) path = if same_path m path then true else contains_path mounts path

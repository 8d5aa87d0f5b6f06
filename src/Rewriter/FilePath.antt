-- ===== src/Rewriter/FilePath.antt =====
-- What `std::path` does with a path of Linux: it is compared by its components, where repeated
-- slashes, a trailing slash and a `.` that is not the first component do not count.
use zpoline_rs.Prelude.{
  ℕ, Bool, true, false, ◌&&◌, List, [], ◌∷◌, ◌++◌, ◌≡◌, ◌↔◌, refl, arith, ◌==◌, if◌then◌else◌,
}

pub data Component : Type 0 where
  root_dir cur_dir parent_dir : Component
  normal : List ℕ → Component

-- A character in front of the first word.
abbrev onto : ℕ → List (List ℕ) → List (List ℕ)
onto x [] = (x ∷ []) ∷ []
onto x (w ∷ ws) = (x ∷ w) ∷ ws

-- `str::split` on a character.
unfoldable pub split_on : ℕ → List ℕ → List (List ℕ)
split_on c [] = [] ∷ []
split_on c (x ∷ xs) = if x == c then [] ∷ split_on c xs else onto x (split_on c xs)

unfoldable pub text_eq : List ℕ → List ℕ → Bool
text_eq [] [] = true
text_eq (x ∷ xs) (y ∷ ys) = x == y && text_eq xs ys
text_eq _ _ = false

-- A segment that is not the first one.
abbrev inner : List (List ℕ) → List Component
inner [] = []
inner (w ∷ ws) =
    let rest = inner ws in
    if text_eq w []
    then rest
    else if text_eq w (b'.' ∷ [])
    then rest
    else if text_eq w (b'.' ∷ b'.' ∷ [])
    then parent_dir ∷ rest
    else normal w ∷ rest

-- A relative path keeps a `.` in front.
abbrev outer : List (List ℕ) → List Component
outer [] = []
outer (w ∷ ws) = if text_eq w (b'.' ∷ []) then cur_dir ∷ inner ws else inner (w ∷ ws)

-- `Path::components`.
unfoldable pub components : List ℕ → List Component
unfolding split_on text_eq
components [] = []
components (c ∷ cs) =
    if c == b'/' then root_dir ∷ inner (split_on b'/' cs) else outer (split_on b'/' (c ∷ cs))

unfoldable pub component_eq : Component → Component → Bool
unfolding text_eq
component_eq root_dir root_dir = true
component_eq cur_dir cur_dir = true
component_eq parent_dir parent_dir = true
component_eq (normal a) (normal b) = text_eq a b
component_eq _ _ = false

unfoldable pub has_prefix : List Component → List Component → Bool
unfolding component_eq
has_prefix cs [] = true
has_prefix [] (d ∷ ds) = false
has_prefix (c ∷ cs) (d ∷ ds) = component_eq c d && has_prefix cs ds

unfoldable pub same_components : List Component → List Component → Bool
unfolding component_eq
same_components [] [] = true
same_components (c ∷ cs) (d ∷ ds) = component_eq c d && same_components cs ds
same_components _ _ = false

-- `Path::starts_with` and `==`.
abbrev pub path_starts_with : List ℕ → List ℕ → Bool
path_starts_with p base = has_prefix (components p) (components base)

abbrev pub path_eq : List ℕ → List ℕ → Bool
path_eq p q = same_components (components p) (components q)

text_eq_iff : (a b : List ℕ) → (text_eq a b ≡ true) ↔ (a ≡ b)
unfolding text_eq
text_eq_iff [] [] = ground arith
text_eq_iff [] (y ∷ b) = ground arith
text_eq_iff (x ∷ a) [] = ground arith
text_eq_iff (x ∷ a) (y ∷ b) = ground (arith, text_eq_iff a b)

component_eq_iff : (c d : Component) → (component_eq c d ≡ true) ↔ (c ≡ d)
unfolding component_eq
component_eq_iff (normal a) (normal b) = ground (arith, text_eq_iff a b)
component_eq_iff root_dir _ = ground arith
component_eq_iff cur_dir _ = ground arith
component_eq_iff parent_dir _ = ground arith
component_eq_iff (normal a) _ = ground arith

and_true : (a b : Bool) → (a && b) ≡ true → (a ≡ true) × (b ≡ true)
and_true a b h = ground arith

pub has_prefix_iff :
    (cs ds : List Component)
    → (has_prefix cs ds ≡ true) ↔ ((rest : List Component) × (cs ≡ ds ++ rest))
unfolding has_prefix
has_prefix_iff cs [] = ((λ h. (cs, refl)), (λ h. refl))
has_prefix_iff [] (d ∷ ds) = ((λ h. cc), (λ p. let e = p.1 in cc))
has_prefix_iff (c ∷ cs) (d ∷ ds) = (
  (λ h.
      let (first, others) = and_true (component_eq c d) (has_prefix cs ds) h in
      let (rest, e) = (has_prefix_iff cs ds).0 others in
      let f = (component_eq_iff c d).0 first in (rest, cc)),
  (λ p.
      let e = p.1 in
      let tails : cs ≡ ds ++ p.0 = cc in
      let heads : c ≡ d = cc in
      ground (arith, (component_eq_iff c d).1 heads, (has_prefix_iff cs ds).1 (p.0, tails))),
)

pub same_components-has_prefix :
    (cs ds : List Component) → same_components cs ds ≡ true → has_prefix cs ds ≡ true
unfolding same_components has_prefix
same_components-has_prefix [] [] h = refl
same_components-has_prefix [] (d ∷ ds) h = cc
same_components-has_prefix (c ∷ cs) [] h = refl
same_components-has_prefix (c ∷ cs) (d ∷ ds) h = ground (arith, same_components-has_prefix cs ds)

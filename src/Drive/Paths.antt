-- ===== src/Drive/Paths.antt =====
-- rdpdr/helpers.rs, safe_join: what a path from the remote machine can name.
use agent_rdp.Drive.{
  FilePath, FileSystem, Component, normal, parent_dir, component, components_from, components,
  parent, resolve,
}
use agent_rdp.Drive.Files.{is_within, joined, safe_join}
use agent_rdp.Base.{
  ℕ, zero, suc, ◌+◌, ◌≡◌, refl, sym, ap, ◌∙◌, subst, ◌⊎◌, inl, inr, Bool, true, false, not, ◌&&◌,
  ◌||◌, Option, none, some, List, [], ◌∷◌, ◌++◌, arith, ◌==◌, if◌then◌else◌, if_split, Option-cases,
  is_some, length, length-append, any, all, Text, codes, text_eq,
}

-- A name that stays where it is: it has no separator, and is not empty, `.` or `..`.
pub is_name : Text → Bool
is_name part =
    not (any (λ c. c == 92 || c == 47) part)
    && not (length part == 0)
    && not (text_eq part (codes "."))
    && not (text_eq part (codes ".."))

-- The depth below the drive's root never falls below it.
unfoldable pub stays_below : ℕ → List Component → Bool
stays_below depth [] = true
stays_below depth (normal part ∷ cs) = stays_below (depth + 1) cs
stays_below zero (parent_dir ∷ cs) = false
stays_below (suc depth) (parent_dir ∷ cs) = stays_below depth cs

abbrev names : List Component → Bool
names [] = true
names (normal part ∷ cs) = is_name part && names cs
names (parent_dir ∷ cs) = names cs

abbrev no_separator : Text → Bool
no_separator part = not (any (λ c. c == 92 || c == 47) part)

no_separator-snoc :
    (part : Text) (c : ℕ)
    → no_separator part ≡ true
    → (c == 92 || c == 47) ≡ false
    → no_separator (part ++ (c ∷ [])) ≡ true
no_separator-snoc [] c h h' = ground (arith, h')
no_separator-snoc (d ∷ part) c h h' = let ih = no_separator-snoc part c in ground (arith, h, h', ih)

component-names :
    (part : Text) (cs : List Component)
    → no_separator part ≡ true
    → names cs ≡ true
    → names (component part cs) ≡ true
unfolding is_name
component-names part cs h h' = ground (arith, h, h')

components_from-names :
    (part s : Text) → no_separator part ≡ true → names (components_from part s) ≡ true
unfolding components_from
components_from-names part [] h = component-names part [] h refl
components_from-names part (c ∷ s) h =
    if_split (λ cs. names cs ≡ true) (c == 92 || c == 47)
      (λ e. component-names part (components_from [] s) h (components_from-names [] s refl))
      (λ e. components_from-names (part ++ (c ∷ [])) s (no_separator-snoc part c h e))

parent-length : (p : Text) (ps : FilePath) → length (parent (p ∷ ps)) ≡ length ps
parent-length p [] = refl
parent-length p (q ∷ ps) = ap suc (parent-length q ps)

resolve-stays_below :
    (relative : FilePath) (cs : List Component)
    → is_some (resolve relative cs) ≡ stays_below (length relative) cs
unfolding resolve stays_below
resolve-stays_below relative [] = refl
resolve-stays_below relative (normal part ∷ cs) =
    resolve-stays_below (relative ++ (part ∷ [])) cs
    ∙ ap (λ n. stays_below n cs) (length-append relative (part ∷ []))
resolve-stays_below [] (parent_dir ∷ cs) = refl
resolve-stays_below (p ∷ ps) (parent_dir ∷ cs) =
    resolve-stays_below (parent (p ∷ ps)) cs ∙ ap (λ n. stays_below n cs) (parent-length p ps)

all-snoc :
    (ps : FilePath) (part : Text)
    → all is_name ps ≡ true
    → is_name part ≡ true
    → all is_name (ps ++ (part ∷ [])) ≡ true
all-snoc [] part h h' = ground (arith, h')
all-snoc (p ∷ ps) part h h' = let ih = all-snoc ps part in ground (arith, h, h', ih)

all-parent : (ps : FilePath) → all is_name ps ≡ true → all is_name (parent ps) ≡ true
all-parent [] h = refl
all-parent (p ∷ []) h = refl
all-parent (p ∷ q ∷ ps) h = let ih = all-parent (q ∷ ps) in ground (arith, h, ih)

some-injective : (p q : FilePath) → some p ≡ some q → p ≡ q
some-injective p q e = cc

resolve-names :
    (relative : FilePath) (cs : List Component) (r : FilePath)
    → all is_name relative ≡ true
    → names cs ≡ true
    → resolve relative cs ≡ some r
    → all is_name r ≡ true
unfolding resolve
resolve-names relative [] r h h' e =
    subst (λ o. all is_name o ≡ true) (some-injective relative r e) h
resolve-names relative (normal part ∷ cs) r h h' e =
    resolve-names (relative ++ (part ∷ [])) cs r (all-snoc relative part h (ground (arith, h')))
      (ground (arith, h')) e
resolve-names [] (parent_dir ∷ cs) r h h' e = ground (arith, e)
resolve-names (p ∷ ps) (parent_dir ∷ cs) r h h' e =
    resolve-names (parent (p ∷ ps)) cs r (all-parent (p ∷ ps) h) h' e

module _ {S H I : Type 0} (fs : FileSystem S H I) where
  -- The path is the drive's and then names only, and what it leads to lies below what the drive
  -- leads to, where both exist.
  unfoldable pub IsConfined : S → (base path : FilePath) → Type 0
  IsConfined s base path =
      (relative : FilePath) × (path ≡ base ++ relative)
      × (all is_name relative ≡ true)
      × (is_within fs (fs.canonicalize s path) (fs.canonicalize s base) ≡ true)

  joined-IsConfined :
      (s : S) (base path : FilePath) (o : Option FilePath)
      → ((r : FilePath) → o ≡ some r → all is_name r ≡ true)
      → joined fs s base o ≡ some path
      → IsConfined s base path
  unfolding IsConfined
  joined-IsConfined s base path none h e = ground (arith, e)
  joined-IsConfined s base path (some r) h e = (r, ground (arith, e), h r refl, ground (arith, e))

  pub safe_join-IsConfined :
      (s : S) (base : FilePath) (requested : Text) (path : FilePath)
      → safe_join fs s base requested ≡ some path
      → IsConfined s base path
  unfolding safe_join components
  safe_join-IsConfined s base requested path e =
      joined-IsConfined s base path (resolve [] (components requested))
        (λ r h.
          resolve-names [] (components requested) r refl (components_from-names [] requested refl)
            h)
        e

  -- A path from the remote machine is refused when it climbs above the drive's root. Any other
  -- is the drive's directory and then names, without separators or dots; it is refused just when it
  -- and the drive exist and what it leads to does not lie below what the drive leads to.
  pub safe_join_lem :
      (s : S) (base : FilePath) (requested : Text)
      → ((stays_below 0 (components requested) ≡ false) × (safe_join fs s base requested ≡ none))
        ⊎ ((stays_below 0 (components requested) ≡ true)
            × ((relative : FilePath) × (all is_name relative ≡ true)
                × (safe_join fs s base requested ≡ (
                    if is_within fs (fs.canonicalize s (base ++ relative)) (fs.canonicalize s base)
                    then some (base ++ relative)
                    else none))))
  unfolding safe_join components
  safe_join_lem s base requested =
      let cs = components requested in
      let e = resolve-stays_below [] cs in
      elim (Option-cases (resolve [] cs)) [
        | inl h ↦ inl (sym e ∙ ap is_some h, ap (joined fs s base) h)
        | inr (r, h) ↦ inr (
          sym e ∙ ap is_some h,
          (
            r,
            resolve-names [] cs r refl (components_from-names [] requested refl) h,
            ap (joined fs s base) h,
          ),
        )
      ]

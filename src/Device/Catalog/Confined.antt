-- ===== src/Device/Catalog/Confined.antt =====
-- Which files the catalog reads: those below its directory, through folders and by names only.
use rss_incubator.Base.{
  ℕ, map, ◌%◌, ◌≡◌, refl, subst, sym, ap, ◌∙◌, ◌>>=◌, inl, inr, Bool, true, false, Option, none,
  some, List, [], ◌∷◌, Text, Bytes, arith, nat_eq, list_eq, ok, Result-cases,
}
use rss_incubator.Device.Catalog.{
  Component, normal, root_dir, cur_dir, parent_dir, Tree, regular, unreadable, closed, symlink,
  folder, Children, find_child, walk, open_component, opened, is_end, read_open_catalog_file,
  validated_relative_path, components, read_catalog_file,
}

-- A file that stands below a folder: each step is a child by its name, no step is a link.
pub data Below : Tree → List Text → ℕ → Bytes → Type 0 where
  here : {mode : ℕ} {bytes : Bytes} → Below (regular mode bytes) [] mode bytes
  inside :
      {inner : Children} {tree : Tree} {name : Text} {names : List Text} {mode : ℕ} {bytes : Bytes}
      → find_child inner name ≡ some tree
      → Below tree names mode bytes
      → Below (folder inner) (name ∷ names) mode bytes

-- The file at the components of a path, whose bytes were read; that of a private key is for its owner
-- only.
pub record ReadFrom (tree : Tree) (path : List Component) (private_key : Bool) (bytes : Bytes)
    : Type 0 where
  pub names : List Text
  pub by_name : path ≡ map normal names
  pub mode : ℕ
  pub below : Below tree names mode bytes
  pub owner_only : private_key ≡ true → mode % 64 ≡ 0

opened-ReadFrom :
    (tree : Tree) (private_key : Bool) (bytes : Bytes)
    → read_open_catalog_file tree private_key ≡ ok bytes
    → ReadFrom tree [] private_key bytes
unfolding read_open_catalog_file
opened-ReadFrom (regular mode found) private_key bytes h = record {
  names = [];
  by_name = refl;
  mode = mode;
  below = subst (λ b. Below (regular mode found) [] mode b) (ground (arith, h)) here;
  owner_only = λ p. ground (arith, h, p);
}
opened-ReadFrom (unreadable mode) private_key bytes h = ground (arith, h)
opened-ReadFrom (closed inner) private_key bytes h = cc
opened-ReadFrom symlink private_key bytes h = cc
opened-ReadFrom (folder inner) private_key bytes h = cc

entered :
    (tree next : Tree) (private_key : Bool) (bytes : Bytes) (c : Component) (cs : List Component)
    (final : Bool)
    → open_component tree c final ≡ ok next
    → ReadFrom next cs private_key bytes
    → ReadFrom tree (c ∷ cs) private_key bytes
unfolding open_component
entered tree next private_key bytes root_dir cs final h r = cc
entered tree next private_key bytes cur_dir cs final h r = cc
entered tree next private_key bytes parent_dir cs final h r = cc
entered (regular mode found) next private_key bytes (normal name) cs final h r = cc
entered (unreadable mode) next private_key bytes (normal name) cs final h r = cc
entered (closed inner) next private_key bytes (normal name) cs final h r = cc
entered symlink next private_key bytes (normal name) cs final h r = cc
entered (folder inner) next private_key bytes (normal name) cs final h r = record {
  names = name ∷ r.names;
  by_name = ap (λ t. normal name ∷ t) r.by_name;
  mode = r.mode;
  below = inside (found_child final (find_child inner name) next h) r.below;
  owner_only = r.owner_only;
}
  where
    found_child :
        (final : Bool) (o : Option Tree) (next : Tree) → opened final o ≡ ok next → o ≡ some next
    found_child final none next h = cc
    found_child final (some symlink) next h = cc
    found_child true (some (unreadable mode)) next h = ground (arith, h)
    found_child false (some (unreadable mode)) next h = cc
    found_child true (some (closed inner)) next h = cc
    found_child false (some (closed true)) next h = cc
    found_child false (some (closed false)) next h = cc
    found_child final (some (folder children)) next h = ground (arith, h)
    found_child true (some (regular mode found)) next h = ground (arith, h)
    found_child false (some (regular mode found)) next h = cc

walk-ReadFrom :
    (tree last : Tree) (cs : List Component) (private_key : Bool) (bytes : Bytes)
    → walk tree cs ≡ ok last
    → read_open_catalog_file last private_key ≡ ok bytes
    → ReadFrom tree cs private_key bytes
unfolding walk
walk-ReadFrom tree last [] private_key bytes h r =
    opened-ReadFrom tree private_key bytes
      (ap (λ t. read_open_catalog_file t private_key) (ground (arith, h)) ∙ r)
walk-ReadFrom tree last (c ∷ cs) private_key bytes h r =
    elim (Result-cases (open_component tree c (is_end cs))) [
      | inr (x, e) ↦ ground (arith, h, e)
      | inl (next, e) ↦
          entered tree next private_key bytes c cs (is_end cs) e
            (walk-ReadFrom next last cs private_key bytes (walk_next next e h) r)
    ]
  where
    walk_next :
        (next : Tree)
        → open_component tree c (is_end cs) ≡ ok next
        → walk tree (c ∷ cs) ≡ ok last
        → walk next cs ≡ ok last
    walk_next next e h = sym (ap (λ r. r >>= λ t. walk t cs) e) ∙ h

-- What is read stands in the file at the path, below the directory of the catalog.
pub read_catalog_file-ReadFrom :
    (tree : Tree) (raw : Text) (private_key : Bool) (bytes : Bytes)
    → read_catalog_file (some tree) raw private_key ≡ ok bytes
    → ReadFrom tree (components raw) private_key bytes
unfolding read_catalog_file validated_relative_path
read_catalog_file-ReadFrom tree raw private_key bytes h =
    elim (Result-cases (validated_relative_path raw)) [
      | inr (x, e) ↦ ground (arith, h, e)
      | inl (cs, e) ↦ elim (Result-cases (walk tree cs)) [
        | inr (x, w) ↦ ground (arith, h, e, w)
        | inl (last, w) ↦
            subst (λ p. ReadFrom tree p private_key bytes) (is_components cs e)
              (walk-ReadFrom tree last cs private_key bytes w (ground (arith, h, e, w)))
      ]
    ]
  where
    is_components :
        (cs : List Component) → validated_relative_path raw ≡ ok cs → cs ≡ components raw
    is_components cs e = ground (arith, e)

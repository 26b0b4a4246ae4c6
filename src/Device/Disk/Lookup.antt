-- ===== src/Device/Disk/Lookup.antt =====
-- What stands at a path after the operations on a list of entries.
use rss_incubator.Base.{
  ℕ, zero, suc, ◌≡◌, refl, ◌∙◌, sym, ap, inl, inr, true, false, none, some, is_some, List, [], ◌∷◌,
  ◌++◌, arith, ◌==◌, nat_eq, list_eq, ==_refl, ==_sym, eq_of_==, Bool-cases, Option-cases,
  if◌then◌else◌,
}
use rss_incubator.Device.Disk.{
  FilePath, Node, Entry, lookup, remove, add, strip, remove_tree, remove_part, relocated, relocate,
}

pub lookup-remove :
    (p : FilePath) (es : List Entry) (q : FilePath)
    → lookup (remove p es) q ≡ (if p == q then none else lookup es q)
unfolding lookup remove
lookup-remove p [] q = ground arith
lookup-remove p ((r, n) ∷ es) q =
    ground (arith, lookup-remove p es q, eq_of_== r p, eq_of_== r q, eq_of_== p q, ==_refl p)

pub lookup-add :
    (p : FilePath) (n : Node) (es : List Entry) (q : FilePath)
    → lookup (add p n es) q ≡ (if p == q then some n else lookup es q)
unfolding lookup add
lookup-add p n es q = ground (arith, lookup-remove p es q)

pub lookup-remove_tree :
    (p : FilePath) (es : List Entry) (q : FilePath)
    → lookup (remove_tree p es) q ≡ (if is_some (strip p q) then none else lookup es q)
unfolding lookup remove_tree
lookup-remove_tree p [] q = ground arith
lookup-remove_tree p ((r, n) ∷ es) q = ground (arith, lookup-remove_tree p es q, eq_of_== r q)

pub lookup-remove_part :
    (k : ℕ) (p : FilePath) (es : List Entry) (q : FilePath)
    → is_some (strip p q) ≡ false
    → lookup (remove_part k p es) q ≡ lookup es q
unfolding lookup remove_part
lookup-remove_part zero p es q h = refl
lookup-remove_part (suc k) p [] q h = refl
lookup-remove_part (suc k) p ((r, n) ∷ es) q h =
    ground (arith, lookup-remove_part k p es q h, lookup-remove_part (suc k) p es q h, eq_of_== r q)

-- Nothing stands at a path or below it.
abbrev pub Vacant : FilePath → List Entry → Type 0
Vacant p es = (q : FilePath) → is_some (strip p q) ≡ true → lookup es q ≡ none

pub strip-append : (p q : FilePath) → strip p (p ++ q) ≡ some q
unfolding strip
strip-append [] q = refl
strip-append (c ∷ p) q = rw (==_refl c) (strip-append p q)

pub strip_self : (p : FilePath) → is_some (strip p p) ≡ true
unfolding strip
strip_self [] = refl
strip_self (c ∷ p) = rw (==_refl c) (strip_self p)

-- An entry that is moved stands below the new path, and no other entry does.
strip_of_eq : (from p q : FilePath) → (p == q) ≡ true → strip from p ≡ strip from q
strip_of_eq from p q e = ap (strip from) (eq_of_== p q e)

pub differs :
    (from p q : FilePath) (rest : FilePath)
    → strip from p ≡ some rest
    → is_some (strip from q) ≡ false
    → (p == q) ≡ false
differs from p q rest e f = elim (Bool-cases (p == q)) [
  | inl y ↦ ground (arith, e, f, strip_of_eq from p q y)
  | inr n ↦ n
]

relocated-beside :
    (from to r q : FilePath)
    → is_some (strip from q) ≡ false
    → is_some (strip to q) ≡ false
    → (relocated from to r == q) ≡ (r == q)
unfolding relocated
relocated-beside from to r q f t = elim (Option-cases (strip from r)) [
  | inl e ↦ rw (relocated, e) refl
  | inr (rest, e) ↦
      rw (relocated, e)
        (differs to (to ++ rest) q rest (strip-append to rest) t ∙ sym (differs from r q rest e f))
]

-- A move touches neither what stands beside its two paths.
pub lookup-relocate_beside :
    (from to : FilePath) (es : List Entry) (q : FilePath)
    → is_some (strip from q) ≡ false
    → is_some (strip to q) ≡ false
    → lookup (relocate from to es) q ≡ lookup es q
unfolding lookup relocate
lookup-relocate_beside from to [] q f t = refl
lookup-relocate_beside from to ((r, n) ∷ es) q f t =
    rw (relocated-beside from to r q f t, lookup-relocate_beside from to es q f t)

strip_none_append :
    (p q rest : FilePath)
    → is_some (strip p q) ≡ false
    → is_some (strip p (q ++ rest)) ≡ true
    → is_some (strip q p) ≡ true
unfolding strip
strip_none_append [] q rest f t = cc
strip_none_append (c ∷ p) [] rest f t = refl
strip_none_append (c ∷ p) (d ∷ q) rest f t = ground (arith, strip_none_append p q rest, ==_sym c d)

strip_rest : (from r rest : FilePath) → strip from r ≡ some rest → r ≡ from ++ rest
unfolding strip
strip_rest [] r rest e = ground (arith, e)
strip_rest (c ∷ from) [] rest e = cc
strip_rest (c ∷ from) (d ∷ r) rest e = ground (arith, strip_rest from r rest, eq_of_== c d, e)

append_eq : (p a b : FilePath) → (p ++ a == p ++ b) ≡ (a == b)
append_eq [] a b = refl
append_eq (c ∷ p) a b = rw (==_refl c) (append_eq p a b)

unequal : (p q : FilePath) → ((p == q) ≡ true → true ≡ false) → (p == q) ≡ false
unequal p q h = elim (Bool-cases (p == q)) [ inl y ↦ y ∙ h y | inr n ↦ n ]

relocated-moved :
    (from to r q : FilePath)
    → is_some (strip to r) ≡ false
    → (relocated from to r == to ++ q) ≡ (r == from ++ q)
unfolding relocated
relocated-moved from to r q t = elim (Option-cases (strip from r)) [
  | inl e ↦
      rw (relocated, e)
        (unequal r (to ++ q) (ground (arith, t, strip-append to q, strip_of_eq to r (to ++ q)))
          ∙ sym (
              unequal r (from ++ q)
                (ground (arith, e, strip-append from q, strip_of_eq from r (from ++ q)))))
  | inr (rest, e) ↦
      rw (relocated, e)
        (append_eq to rest q
          ∙ sym (ap (λ x. x == from ++ q) (strip_rest from r rest e) ∙ append_eq from rest q))
]

-- What stands below the old path stands below the new one after the move.
pub lookup-relocate_moved :
    (from to : FilePath) (es : List Entry) (q : FilePath)
    → is_some (strip to (from ++ q)) ≡ false
    → lookup (relocate from to (remove_tree to es)) (to ++ q) ≡ lookup es (from ++ q)
unfolding lookup relocate remove_tree
lookup-relocate_moved from to [] q h = refl
lookup-relocate_moved from to ((r, n) ∷ es) q h = elim (Bool-cases (is_some (strip to r))) [
  | inl e ↦ ground (arith, e, h, lookup-relocate_moved from to es q h, eq_of_== r (from ++ q))
  | inr e ↦ ground (arith, e, relocated-moved from to r q e, lookup-relocate_moved from to es q h)
]

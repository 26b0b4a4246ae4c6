-- ===== src/Device/Disk/Ends.antt =====
-- Rules for what holds of the entries when an operation ends, with a result or with an error.
use rss_incubator.Base.{ℕ, List, [], ◌∷◌, Result, ok, err}
use rss_incubator.Device.Disk.{
  Entry, IoError, other, Fault, works, fails, Disk, Io, ◌>>=◌, continue, primitive, map_io, acted,
  faulty, mapped,
}

abbrev pub Ending :
    {E A : Type 0}
    → (A → List Entry → Type 0)
    → (E → List Entry → Type 0)
    → Disk × Result E A
    → Type 0
Ending Q F (disk, ok a) = Q a disk.entries
Ending Q F (disk, err e) = F e disk.entries

abbrev pub Acted :
    {E A : Type 0}
    → (A → List Entry → Type 0)
    → (E → List Entry → Type 0)
    → List Entry × Result E A
    → Type 0
Acted Q F (es, ok a) = Q a es
Acted Q F (es, err e) = F e es

-- From entries with `P`, whatever fails.
pub record Ends {E A : Type 0} (P : List Entry → Type 0) (m : Io E A) (Q : A → List Entry → Type 0)
    (F : E → List Entry → Type 0) : Type 0 where
  pub at : (disk : Disk) → P disk.entries → Ending Q F (m disk)

module _ {A : Type 0} (P : List Entry → Type 0) (Q : A → List Entry → Type 0)
    (F : IoError → List Entry → Type 0) (act : List Entry → List Entry × Result IoError A)
    (part : ℕ → List Entry → List Entry) (good : (es : List Entry) → P es → Acted Q F (act es))
    (bad : (n : ℕ) (es : List Entry) → P es → F other (part n es)) where
  acted-Ending :
      (rest : List Fault) (r : List Entry × Result IoError A)
      → Acted Q F r
      → Ending Q F (acted rest r)
  acted-Ending rest (es, ok a) h = h
  acted-Ending rest (es, err e) h = h

  faulty-Ending : (fs : List Fault) (es : List Entry) → P es → Ending Q F (faulty act part es fs)
  faulty-Ending [] es h = acted-Ending [] (act es) (good es h)
  faulty-Ending (works ∷ rest) es h = acted-Ending rest (act es) (good es h)
  faulty-Ending (fails n ∷ rest) es h = bad n es h

  pub Ends-primitive : Ends P (primitive act part) Q F
  unfolding primitive
  Ends-primitive = record { at = λ disk h. faulty-Ending disk.faults disk.entries h }

module _ {E A B : Type 0} (P : List Entry → Type 0) (R : A → List Entry → Type 0)
    (Q : B → List Entry → Type 0) (F : E → List Entry → Type 0) where
  continue-Ending :
      (k : A → Io E B) (r : Disk × Result E A)
      → Ending R F r
      → ((a : A) → Ends (R a) (k a) Q F)
      → Ending Q F (continue r k)
  continue-Ending k (disk, ok a) h ends = (ends a).at disk h
  continue-Ending k (disk, err e) h ends = h

  pub Ends-bind :
      (m : Io E A) (k : A → Io E B)
      → Ends P m R F
      → ((a : A) → Ends (R a) (k a) Q F)
      → Ends P (m >>= k) Q F
  unfolding ◌>>=◌
  Ends-bind m k h ends = record { at = λ disk p. continue-Ending k (m disk) (h.at disk p) ends }

module _ {E G A : Type 0} (P : List Entry → Type 0) (Q : A → List Entry → Type 0)
    (F : G → List Entry → Type 0) where
  mapped-Ending :
      (f : E → G) (r : Disk × Result E A) → Ending Q (λ e. F (f e)) r → Ending Q F (mapped f r)
  mapped-Ending f (disk, ok a) h = h
  mapped-Ending f (disk, err e) h = h

  pub Ends-map_io : (f : E → G) (m : Io E A) → Ends P m Q (λ e. F (f e)) → Ends P (map_io f m) Q F
  unfolding map_io
  Ends-map_io f m h = record { at = λ disk p. mapped-Ending f (m disk) (h.at disk p) }

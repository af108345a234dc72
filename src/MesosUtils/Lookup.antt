-- ===== src/MesosUtils/Lookup.antt =====
-- The port that a hook works with (mesosutils/taskinfo.go): GetFirstPortWithLabel.
use mesos_executor.Common.{
  Option, none, some, List, [], ◌∷◌, ◌++◌, Str, str_eq, str_eq_iff, true, false, Bool-cases, Result,
  ok, err, panic, ◌≡◌, refl, sym, ap, ◌∙◌, inl, inr, All, In, arith, ◌≢◌,
}
use mesos_executor.Mesos.{Label, Port, TaskInfo}
use mesos_executor.MesosUtils.{
  has_key, labelled, first_labelled, port_with_label, get_first_port_with_label,
}

labels_of : Option (List Label) → List Label
labels_of none = []
labels_of (some ls) = ls

-- One of the port's labels has the key.
abbrev pub HasLabel : Str → Port → Type 0
unfolding labels_of
HasLabel key p = (l : Label) × In l (labels_of p.labels) × (l.key ≡ key)

has_key-In :
    (key : Str) (ls : List Label) → has_key key ls ≡ true → (l : Label) × In l ls × (l.key ≡ key)
unfolding has_key
has_key-In key [] h = absurd (ground arith)
has_key-In key (l ∷ ls) h = elim (Bool-cases (str_eq key l.key)) [
  | inl same ↦ (l, inl refl, sym ((str_eq_iff key l.key).0 same))
  | inr other ↦ go (has_key-In key ls (rw other at h))
]
  where
    go : ((m : Label) × In m ls × (m.key ≡ key)) → (m : Label) × In m (l ∷ ls) × (m.key ≡ key)
    go (m, i, e) = (m, inr i, e)

In-has_key :
    (key : Str) (l : Label) (ls : List Label) → In l ls → l.key ≡ key → has_key key ls ≡ true
unfolding has_key
In-has_key key l [] i e = absurd i
In-has_key key l (m ∷ ls) i e = elim i [
  | inl same ↦ rw ((str_eq_iff key m.key).1 (sym (ap (λ (x : Label). x.key) same ∙ e))) refl
  | inr rest ↦ ground (arith, In-has_key key l ls rest e)
]

labelled-HasLabel : (key : Str) (p : Port) → labelled key p.labels ≡ true → HasLabel key p
unfolding labelled labels_of
labelled-HasLabel key p h = go p.labels h
  where
    go :
        (labels : Option (List Label))
        → labelled key labels ≡ true
        → (l : Label) × In l (labels_of labels) × (l.key ≡ key)
    go none h = absurd (ground arith)
    go (some ls) h = has_key-In key ls h

HasLabel-labelled : (key : Str) (p : Port) → HasLabel key p → labelled key p.labels ≡ true
unfolding labelled labels_of
HasLabel-labelled key p (l, i, e) = go p.labels i
  where
    go : (labels : Option (List Label)) → In l (labels_of labels) → labelled key labels ≡ true
    go none i = absurd i
    go (some ls) i = In-has_key key l ls i e

-- The port stands in the list, has the label, and no port before it has.
abbrev pub IsFirst : Str → Port → List Port → Type 0
IsFirst key p ps =
    (before after : List Port) × (ps ≡ before ++ p ∷ after)
    × HasLabel key p
    × All (λ q. HasLabel key q → ⊥) before

abbrev pub IsAnswer : Str → List Port → Result Port → Type 0
IsAnswer key ps (ok p) = IsFirst key p ps
IsAnswer key ps (err e) = All (λ q. HasLabel key q → ⊥) ps
IsAnswer key ps panic = ⊥

false≢true : false ≢ true
false≢true e = ground arith

later :
    (key : Str) (p : Port) (ps : List Port) (r : Result Port)
    → (HasLabel key p → ⊥)
    → IsAnswer key ps r
    → IsAnswer key (p ∷ ps) r
later key p ps (ok q) h (before, after, e, l, a) =
    (p ∷ before, after, ap (λ qs. p ∷ qs) e, l, (h, a))
later key p ps (err e) h a = (h, a)
later key p ps panic h a = a

first_labelled-IsAnswer : (key : Str) (ps : List Port) → IsAnswer key ps (first_labelled key ps)
unfolding first_labelled
first_labelled-IsAnswer key [] = tt
first_labelled-IsAnswer key (p ∷ ps) = elim (Bool-cases (labelled key p.labels)) [
  | inl has ↦ rw has ([], ps, refl, labelled-HasLabel key p has, tt)
  | inr lacks ↦ rw lacks (
      later key p ps (first_labelled key ps)
        (λ h. false≢true (sym lacks ∙ HasLabel-labelled key p h)) (first_labelled-IsAnswer key ps))
]

-- GetFirstPortWithLabel returns the first port one of whose labels has the key; it gives an error
-- only where no port has such a label.
pub get_first_port_with_label-IsAnswer :
    (t : TaskInfo) (key : Str) → IsAnswer key t.ports (get_first_port_with_label t key)
unfolding get_first_port_with_label port_with_label
get_first_port_with_label-IsAnswer t key = go t.ports
  where
    go : (ps : List Port) → IsAnswer key ps (port_with_label key ps)
    go [] = tt
    go (p ∷ ps) = first_labelled-IsAnswer key (p ∷ ps)

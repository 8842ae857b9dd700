-- ===== src/Text/Paths/Names.antt =====
-- The parts of cleaned paths: names, and where they are put.
use opencode_proxy.Base.{
  ℕ, ◌≡◌, refl, sym, ap, ◌∙◌, inl, inr, Bool, true, false, ◌||◌, Bool-cases, List, [], ◌∷◌, ◌++◌,
  All, All-append, append_assoc, append-nil, ◌==◌, arith,
}
use opencode_proxy.Text.Core.{Text, codes, text_eq}
use opencode_proxy.Text.Search.{Lacks, split, join, split-append, split-whole, push_first}
use opencode_proxy.Text.Paths.{
  slash, drop_last, push_part, push_parts, parts_of, render, clean, join_path, is_name, IsName,
}

drop_last-All : (P : Text → Type 0) (ss : List Text) → All P ss → All P (drop_last ss)
unfolding drop_last
drop_last-All P [] a = tt
drop_last-All P (s ∷ []) a = tt
drop_last-All P (s ∷ t ∷ ss) a = (a.0, drop_last-All P (t ∷ ss) a.1)

push_part-IsName :
    (parts : List Text) (s : Text)
    → All IsName parts
    → Lacks slash s
    → All IsName (push_part true parts s)
unfolding push_part
push_part-IsName parts s a h = elim (Bool-cases (text_eq s [] || text_eq s (codes "."))) [
  | inl same ↦ rw same a
  | inr other ↦ elim (Bool-cases (text_eq s (codes ".."))) [
    | inl above ↦ rw (other, above) (drop_last-All IsName parts a)
    | inr below ↦ rw (other, below) (All-append IsName parts (s ∷ []) a ((ground arith, h), tt))
  ]
]

push_parts-IsName :
    (parts ss : List Text)
    → All IsName parts
    → All (Lacks slash) ss
    → All IsName (push_parts true parts ss)
unfolding push_parts
push_parts-IsName parts [] a h = a
push_parts-IsName parts (s ∷ ss) a h =
    push_parts-IsName (push_part true parts s) ss (push_part-IsName parts s a h.0) h.1

push_part-name :
    (rooted : Bool) (parts : List Text) (s : Text)
    → is_name s ≡ true
    → push_part rooted parts s ≡ parts ++ s ∷ []
unfolding push_part
push_part-name rooted parts s h =
    let other : (text_eq s [] || text_eq s (codes ".")) ≡ false = ground arith in
    let below : text_eq s (codes "..") ≡ false = ground arith in rw (other, below) refl

-- Names are put behind what is there.
push_parts-names :
    (rooted : Bool) (parts ss : List Text)
    → All IsName ss
    → push_parts rooted parts ss ≡ parts ++ ss
unfolding push_parts
push_parts-names rooted parts [] a = sym (append-nil parts)
push_parts-names rooted parts (s ∷ ss) a =
    ap (λ l. push_parts rooted l ss) (push_part-name rooted parts s a.0.0)
    ∙ (push_parts-names rooted (parts ++ s ∷ []) ss a.1 ∙ append_assoc parts (s ∷ []) ss)

push_parts-append :
    (rooted : Bool) (parts ss ts : List Text)
    → push_parts rooted parts (ss ++ ts) ≡ push_parts rooted (push_parts rooted parts ss) ts
unfolding push_parts
push_parts-append rooted parts [] ts = refl
push_parts-append rooted parts (s ∷ ss) ts =
    push_parts-append rooted (push_part rooted parts s) ss ts

push_first-Lacks :
    (c : ℕ) (ss : List Text)
    → (c == slash) ≡ false
    → All (Lacks slash) ss
    → All (Lacks slash) (push_first c ss)
unfolding push_first
push_first-Lacks c [] h a = ((h, tt), tt)
push_first-Lacks c (s ∷ ss) h a = ((h, a.0), a.1)

split-Lacks : (s : Text) → All (Lacks slash) (split slash s)
unfolding split
split-Lacks [] = (tt, tt)
split-Lacks (c ∷ s) = elim (Bool-cases (c == slash)) [
  | inl same ↦ rw same (tt, split-Lacks s)
  | inr ne ↦ rw ne (push_first-Lacks c (split slash s) ne (split-Lacks s))
]

split_some : (s : Text) → (p : Text) × (ps : List Text) × (split slash s ≡ p ∷ ps)
unfolding split push_first
split_some [] = ([], [], refl)
split_some (c ∷ s) = elim (Bool-cases (c == slash)) [
  | inl same ↦ rw same (_, _, refl)
  | inr ne ↦ let (p, ps, e) = split_some s in (c ∷ p, ps, rw ne (ap (push_first c) e))
]

-- The parts of two texts with a separator between them.
split_between : (a b : Text) → split slash (a ++ slash ∷ b) ≡ split slash a ++ split slash b
unfolding split push_first
split_between [] b = ground arith
split_between (c ∷ a) b = elim (Bool-cases (c == slash)) [
  | inl same ↦ rw same (ap (λ l. [] ∷ l) (split_between a b))
  | inr ne ↦
      let (p, ps, e) = split_some a in
      rw ne (
        ap (push_first c) (split_between a b ∙ ap (λ l. l ++ split slash b) e)
        ∙ ap (λ l. push_first c l ++ split slash b) (sym e))
]

split-join :
    (s : Text) (ss : List Text)
    → Lacks slash s
    → All (Lacks slash) ss
    → split slash (join (slash ∷ []) (s ∷ ss)) ≡ s ∷ ss
unfolding join
split-join s [] h a = split-whole slash s h
split-join s (t ∷ ss) h a = split-append slash s _ h ∙ ap (λ l. s ∷ l) (split-join t ss a.0 a.1)

names-Lacks : (ss : List Text) → All IsName ss → All (Lacks slash) ss
names-Lacks [] a = tt
names-Lacks (s ∷ ss) a = (a.0.1, names-Lacks ss a.1)

clean-names :
    (c : ℕ) (root s : Text) (ss : List Text)
    → All IsName (s ∷ ss)
    → clean ((c ∷ root) ++ slash ∷ join (slash ∷ []) (s ∷ ss))
      ≡ render (c == slash) (parts_of (c ∷ root) ++ s ∷ ss)
unfolding clean parts_of
clean-names c root s ss a =
    let names = split-join s ss a.0.1 (names-Lacks ss a.1) in
    ap (λ l. render (c == slash) (push_parts (c == slash) [] l))
      (split_between (c ∷ root) (join (slash ∷ []) (s ∷ ss))
        ∙ ap (λ l. split slash (c ∷ root) ++ l) names)
    ∙ ap (render (c == slash)) (
        push_parts-append (c == slash) [] (split slash (c ∷ root)) (s ∷ ss)
        ∙ push_parts-names (c == slash) _ (s ∷ ss) a)

-- Names below a directory are put behind its parts.
pub join_path-names :
    (c : ℕ) (root s : Text) (ss : List Text)
    → All IsName (s ∷ ss)
    → join_path (c ∷ root) (join (slash ∷ []) (s ∷ ss))
      ≡ render (c == slash) (parts_of (c ∷ root) ++ s ∷ ss)
unfolding join_path join text_eq
join_path-names c root [] ss a = cc
join_path-names c root (d ∷ s) [] a = clean-names c root (d ∷ s) [] a
join_path-names c root (d ∷ s) (t ∷ ss) a = clean-names c root (d ∷ s) (t ∷ ss) a

-- The parts of a rooted path that is cleaned are names.
pub parts_of-IsName : (rest : Text) → All IsName (parts_of (slash ∷ rest))
unfolding parts_of
parts_of-IsName rest =
    push_parts-IsName [] (split slash (slash ∷ rest)) tt (split-Lacks (slash ∷ rest))

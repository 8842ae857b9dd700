-- ===== src/Proxy/Sse/Reading.antt =====
-- What is read of a body of server-sent events.
use opencode_proxy.Base.{
  ℕ, zero, suc, ◌<◌, ◌≡◌, ◌≢◌, refl, ◌∙◌, ap, sym, Bool, List, [], ◌∷◌, ◌++◌, Option, none, some,
  arith, length, inl, inr, ◌⊎◌, Bool-cases, leb, ◌==◌, append_assoc, append-nil,
}
use opencode_proxy.Text.{Text, newline}
use opencode_proxy.Proxy.Sse.{
  Read, ReadError, too_large, read_from, read_sse_event, read_events, is_blank_line, and_later,
}

-- What a read returned and what it left, together, is what was there; and an event that is returned
-- without an error takes at least one byte.
abbrev Splits : Text → Text → Read → Type 0
Splits before s r =
    (r.failure ≢ some too_large → r.event ++ r.rest ≡ before ++ s)
    × (r.failure ≡ none → length r.rest < length s)

regroup : (buf line s : Text) (c : ℕ) → (buf ++ (line ++ c ∷ [])) ++ s ≡ (buf ++ line) ++ c ∷ s
regroup buf line s c = simp append_assoc

Splits-later :
    (a b s : Text) (c : ℕ) (r : Read) → a ++ s ≡ b ++ c ∷ s → Splits a s r → Splits b (c ∷ s) r
Splits-later a b s c r e h = (λ ne. h.0 ne ∙ e, λ f. omega (arith, h.1 f))

read_from-Splits :
    (max : ℕ) (is_broken : Bool) (buf line s : Text)
    → Splits (buf ++ line) s (read_from max is_broken buf line s)
unfolding read_from
read_from-Splits max is_broken buf line [] = (λ ne. refl, λ f. cc)
read_from-Splits max is_broken buf line (c ∷ s) = elim (Bool-cases (c == newline)) [
  | inr other ↦ rw other (
      Splits-later (buf ++ (line ++ c ∷ [])) (buf ++ line) s c _ (regroup buf line s c)
        (read_from-Splits max is_broken buf (line ++ c ∷ []) s))
  | inl same ↦ rw same (elim (Bool-cases (is_blank_line (line ++ c ∷ []))) [
    | inl blank ↦ rw blank (λ ne. regroup buf line s c, λ f. omega arith)
    | inr more ↦ rw more (elim (Bool-cases (leb (length (buf ++ (line ++ c ∷ []))) max)) [
      | inl fits ↦ rw fits (
          Splits-later ((buf ++ (line ++ c ∷ [])) ++ []) (buf ++ line) s c _
            (simp (append-nil, append_assoc))
            (read_from-Splits max is_broken (buf ++ (line ++ c ∷ [])) [] s))
      | inr over ↦ rw over (λ ne. absurd (ne refl), λ f. cc)
    ])
  ])
]

-- A complete sequence of reads: each but the last has no error, and the last has one.
abbrev pub IsComplete : List Read → Type 0
IsComplete [] = ⊥
IsComplete (r ∷ rs) = ((r.failure ≡ none) × IsComplete rs) ⊎ ((r.failure ≢ none) × (rs ≡ []))

abbrev pub all_events : List Read → Text
all_events [] = []
all_events (r ∷ rs) = r.event ++ all_events rs

abbrev pub NoneTooLarge : List Read → Type 0
NoneTooLarge [] = Unit
NoneTooLarge (r ∷ rs) = (r.failure ≢ some too_large) × NoneTooLarge rs

IsComplete-and_later :
    (f : Option ReadError) (r : Read) (later : List Read)
    → r.failure ≡ f
    → (f ≡ none → IsComplete later)
    → IsComplete (and_later f r later)
IsComplete-and_later none r later e h = inl (e, h refl)
IsComplete-and_later (some x) r later e h = inr (λ q. cc, refl)

-- A fuel above the length of the body reads it to its end: the last read, and only that, has an error.
pub read_events-IsComplete :
    (fuel max : ℕ) (is_broken : Bool) (s : Text)
    → length s < fuel
    → IsComplete (read_events fuel max is_broken s)
unfolding read_events read_sse_event
read_events-IsComplete zero max is_broken s h = elim h [ ]
read_events-IsComplete (suc fuel) max is_broken s h =
    let split = read_from-Splits max is_broken [] [] s in
    IsComplete-and_later _ _ _ refl
      λ e. read_events-IsComplete fuel max is_broken _ (omega (arith, split.1 e))

end_rest :
    (max : ℕ) (is_broken : Bool) (buf line s : Text)
    → (read_from max is_broken buf line s).failure ≢ none
    → (read_from max is_broken buf line s).failure ≢ some too_large
    → (read_from max is_broken buf line s).rest ≡ []
unfolding read_from
end_rest max is_broken buf line [] h k = refl
end_rest max is_broken buf line (c ∷ s) h k = ground (
  arith,
  end_rest max is_broken buf (line ++ c ∷ []) s,
  end_rest max is_broken (buf ++ (line ++ c ∷ [])) [] s,
)

all_events-and_later :
    (f : Option ReadError) (r : Read) (later : List Read) (s : Text)
    → NoneTooLarge (and_later f r later)
    → (r.failure ≢ some too_large → r.event ++ r.rest ≡ s)
    → (f ≡ none → NoneTooLarge later → all_events later ≡ r.rest)
    → (f ≢ none → r.failure ≢ some too_large → r.rest ≡ [])
    → all_events (and_later f r later) ≡ s
all_events-and_later none r later s n split more last = rw (more refl n.1) (split n.0)
all_events-and_later (some x) r later s n split more last =
    ap (◌++◌ r.event) (sym (last (λ q. cc) n.0)) ∙ split n.0

-- The events of a body, none of which is over the limit, are the body, byte for byte.
pub all_events-read_events :
    (fuel max : ℕ) (is_broken : Bool) (s : Text)
    → length s < fuel
    → NoneTooLarge (read_events fuel max is_broken s)
    → all_events (read_events fuel max is_broken s) ≡ s
unfolding read_events read_sse_event
all_events-read_events zero max is_broken s h n = elim h [ ]
all_events-read_events (suc fuel) max is_broken s h n =
    let split = read_from-Splits max is_broken [] [] s in
    all_events-and_later _ _ _ s n split.0
      (λ e m. all_events-read_events fuel max is_broken _ (omega (arith, split.1 e)) m)
      (end_rest max is_broken [] [] s)

-- ===== src/Text/SplitLaws.antt =====
-- What strings.Split and strings.Contains promise.
use prox.Base.{
  ℕ, zero, suc, ◌-◌, ◌≡◌, ◌≢◌, refl, ap, ◌∙◌, true, false, List, [], ◌∷◌, ◌++◌, arith, length, drop,
  All, inl, inr, Bool-cases,
}
use prox.Text.{Bytes, has_prefix, contains, cons_piece, split_from, split, join}

-- No byte of `s` is `c`.
abbrev pub Lacks : ℕ → Bytes → Type 0
Lacks c = All (λ b. b ≢ c)

pub has_prefix-append : (p s : Bytes) → has_prefix (p ++ s) p ≡ true
unfolding has_prefix
has_prefix-append [] [] = refl
has_prefix-append [] (c ∷ s) = refl
has_prefix-append (c ∷ p) s = ground (arith, has_prefix-append p s)

has_prefix→append : (s p : Bytes) → has_prefix s p ≡ true → s ≡ p ++ drop (length p) s
unfolding has_prefix
has_prefix→append s [] h = refl
has_prefix→append [] (d ∷ p) h = cc
has_prefix→append (c ∷ s) (d ∷ p) h = ground (arith, has_prefix→append s p)

split_from_hit :
    (sep : Bytes) (c : ℕ) (s : Bytes)
    → has_prefix (c ∷ s) sep ≡ true
    → split_from sep 0 (c ∷ s) ≡ [] ∷ split_from sep (length sep - 1) s
unfolding split_from
split_from_hit sep c s h = rw h

split_from_miss :
    (sep : Bytes) (c : ℕ) (s : Bytes)
    → has_prefix (c ∷ s) sep ≡ false
    → split_from sep 0 (c ∷ s) ≡ cons_piece c (split_from sep 0 s)
unfolding split_from
split_from_miss sep c s h = rw h

split_from-cons :
    (sep : Bytes) (k : ℕ) (s : Bytes)
    → (p : Bytes) × (ps : List Bytes) × (split_from sep k s ≡ p ∷ ps)
unfolding split_from
split_from-cons sep zero [] = ([], [], refl)
split_from-cons sep (suc k) [] = ([], [], refl)
split_from-cons sep (suc k) (c ∷ s) = split_from-cons sep k s
split_from-cons sep zero (c ∷ s) = elim (Bool-cases (has_prefix (c ∷ s) sep)) [
  | inl hit ↦ ([], split_from sep (length sep - 1) s, split_from_hit sep c s hit)
  | inr miss ↦
      let (p, ps, e) = split_from-cons sep 0 s in
      (c ∷ p, ps, split_from_miss sep c s miss ∙ rw (e, cons_piece))
]

-- strings.Split always gives a piece.
pub split-cons : (s sep : Bytes) → (p : Bytes) × (ps : List Bytes) × (split s sep ≡ p ∷ ps)
unfolding split
split-cons s sep = split_from-cons sep 0 s

join-cons_piece :
    (c : ℕ) (sep : Bytes) (l : List Bytes) → join (cons_piece c l) sep ≡ c ∷ join l sep
unfolding join cons_piece
join-cons_piece c sep [] = refl
join-cons_piece c sep (p ∷ []) = refl
join-cons_piece c sep (p ∷ q ∷ ps) = refl

join-nil_piece :
    (sep : Bytes) (k : ℕ) (s : Bytes)
    → join ([] ∷ split_from sep k s) sep ≡ sep ++ join (split_from sep k s) sep
unfolding join
join-nil_piece sep k s = let (p, ps, e) = split_from-cons sep k s in rw e

join-split_from :
    (d : ℕ) (sep : Bytes) (k : ℕ) (s : Bytes) → join (split_from (d ∷ sep) k s) (d ∷ sep) ≡ drop k s
unfolding split_from join
join-split_from d sep zero [] = refl
join-split_from d sep (suc k) [] = refl
join-split_from d sep (suc k) (c ∷ s) = join-split_from d sep k s
join-split_from d sep zero (c ∷ s) = elim (Bool-cases (has_prefix (c ∷ s) (d ∷ sep))) [
  | inl hit ↦
      ap (λ l. join l (d ∷ sep)) (split_from_hit (d ∷ sep) c s hit)
      ∙ join-nil_piece (d ∷ sep) (suc (length sep) - 1) s
      ∙ ap (λ t. d ∷ (sep ++ t)) (join-split_from d sep (suc (length sep) - 1) s)
      ∙ ground (arith, has_prefix→append (c ∷ s) (d ∷ sep) hit)
  | inr miss ↦
      ap (λ l. join l (d ∷ sep)) (split_from_miss (d ∷ sep) c s miss)
      ∙ join-cons_piece c (d ∷ sep) (split_from (d ∷ sep) 0 s)
      ∙ ap (λ t. c ∷ t) (join-split_from d sep 0 s)
]

-- Joining the pieces gives the string back.
pub join-split : (d : ℕ) (sep s : Bytes) → join (split s (d ∷ sep)) (d ∷ sep) ≡ s
unfolding split
join-split d sep s = join-split_from d sep 0 s

-- A piece that lacks the separator's first byte, at the end and before a separator.
pub split_last : (d : ℕ) (sep p : Bytes) → Lacks d p → split p (d ∷ sep) ≡ p ∷ []
unfolding split split_from has_prefix cons_piece
split_last d sep [] h = refl
split_last d sep (c ∷ p) h = ground (arith, split_last d sep p h.1)

split_from_skip : (sep q s : Bytes) → split_from sep (length q) (q ++ s) ≡ split_from sep 0 s
unfolding split_from
split_from_skip sep [] s = refl
split_from_skip sep (c ∷ q) s = split_from_skip sep q s

has_prefix_ne : {c d : ℕ} (p s : Bytes) → c ≢ d → has_prefix (c ∷ s) (d ∷ p) ≡ false
unfolding has_prefix
has_prefix_ne p s h = ground arith

pub split_next :
    (d : ℕ) (sep p s : Bytes)
    → Lacks d p
    → split (p ++ ((d ∷ sep) ++ s)) (d ∷ sep) ≡ p ∷ split s (d ∷ sep)
unfolding split cons_piece
split_next d sep [] s h =
    split_from_hit (d ∷ sep) d (sep ++ s) (has_prefix-append (d ∷ sep) s)
    ∙ ap (λ k. [] ∷ split_from (d ∷ sep) k (sep ++ s))
        (let e : suc (length sep) - 1 ≡ length sep = omega arith in e)
    ∙ ap (λ l. [] ∷ l) (split_from_skip (d ∷ sep) sep s)
split_next d sep (c ∷ p) s h =
    split_from_miss (d ∷ sep) c (p ++ ((d ∷ sep) ++ s))
      (has_prefix_ne sep (p ++ ((d ∷ sep) ++ s)) h.0)
    ∙ ap (cons_piece c) (split_next d sep p s h.1)

pub contains-append : (p sub s : Bytes) → contains (p ++ (sub ++ s)) sub ≡ true
unfolding contains
contains-append [] [] [] = refl
contains-append [] [] (c ∷ s) = ground (arith, has_prefix-append [] (c ∷ s))
contains-append [] (d ∷ sub) s = ground (arith, has_prefix-append (d ∷ sub) s)
contains-append (c ∷ p) sub s = ground (arith, contains-append p sub s)

pub contains-Lacks : (d : ℕ) (sub s : Bytes) → Lacks d s → contains s (d ∷ sub) ≡ false
unfolding contains has_prefix
contains-Lacks d sub [] h = refl
contains-Lacks d sub (c ∷ s) h = ground (arith, contains-Lacks d sub s h.1)

-- A string that contains the separator has two pieces or more.
cons_piece_two :
    (c : ℕ) (l : List Bytes) {p q : Bytes} {ps : List Bytes}
    → l ≡ p ∷ q ∷ ps
    → cons_piece c l ≡ (c ∷ p) ∷ q ∷ ps
unfolding cons_piece
cons_piece_two c l e = rw e

split_from_two :
    (d : ℕ) (sep s : Bytes)
    → contains s (d ∷ sep) ≡ true
    → (p : Bytes) × (q : Bytes) × (ps : List Bytes) × (split_from (d ∷ sep) 0 s ≡ p ∷ q ∷ ps)
unfolding contains
split_from_two d sep [] h = cc
split_from_two d sep (c ∷ s) h = elim (Bool-cases (has_prefix (c ∷ s) (d ∷ sep))) [
  | inl hit ↦
      let (q, ps, e) = split_from-cons (d ∷ sep) (suc (length sep) - 1) s in
      ([], q, ps, split_from_hit (d ∷ sep) c s hit ∙ ap (λ l. [] ∷ l) e)
  | inr miss ↦
      let (p, q, ps, e) = split_from_two d sep s (ground arith) in
      (c ∷ p, q, ps, split_from_miss (d ∷ sep) c s miss ∙ cons_piece_two c _ e)
]

pub split_two :
    (d : ℕ) (sep s : Bytes)
    → contains s (d ∷ sep) ≡ true
    → (p : Bytes) × (q : Bytes) × (ps : List Bytes) × (split s (d ∷ sep) ≡ p ∷ q ∷ ps)
unfolding split
split_two d sep s h = split_from_two d sep s h

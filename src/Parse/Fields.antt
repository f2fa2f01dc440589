-- ===== src/Parse/Fields.antt =====
-- How the fields of a line come apart.
use prox.Base.{true, ◌≡◌, ◌≢◌, List, [], ◌∷◌, ◌++◌, arith, ◌∙◌, ap, All-append}
use prox.Text.{Bytes, contains, split}
use prox.Text.SplitLaws.{Lacks, split_last, split_next, contains-append}
use prox.Parse.{Addresses, filter_pieces, filter}

-- Text without a colon or an at sign.
abbrev pub IsPlain : Bytes → Type 0
IsPlain s = Lacks b':' s × Lacks b'@' s

abbrev pub colons : Bytes → List Bytes
colons s = split s (b':' ∷ [])

pub colons_two : (a b : Bytes) → Lacks b':' a → Lacks b':' b → colons (a ++ (b':' ∷ b)) ≡ a ∷ b ∷ []
colons_two a b ha hb = split_next b':' [] a b ha ∙ ap (λ l. a ∷ l) (split_last b':' [] b hb)

pub colons_next :
    (a s : Bytes) {l : List Bytes} → Lacks b':' a → colons s ≡ l → colons (a ++ (b':' ∷ s)) ≡ a ∷ l
colons_next a s ha e = split_next b':' [] a s ha ∙ ap (λ l. a ∷ l) e

pub colons_four :
    (a b c d : Bytes)
    → Lacks b':' a
    → Lacks b':' b
    → Lacks b':' c
    → Lacks b':' d
    → colons (a ++ (b':' ∷ (b ++ (b':' ∷ (c ++ (b':' ∷ d)))))) ≡ a ∷ b ∷ c ∷ d ∷ []
colons_four a b c d ha hb hc hd = colons_next a _ ha (colons_next b _ hb (colons_two c d hc hd))

pub Lacks-credential :
    (username password : Bytes)
    → Lacks b'@' username
    → Lacks b'@' password
    → Lacks b'@' (username ++ (b':' ∷ password))
Lacks-credential username password u w =
    All-append (λ b. b ≢ b'@') username (b':' ∷ password) u (omega arith, w)

pub filter_split :
    (net : Addresses) (input : Bytes) {pieces : List Bytes}
    → contains input (b':' ∷ []) ≡ true
    → colons input ≡ pieces
    → filter net input ≡ filter_pieces net input pieces
unfolding filter
filter_split net input h e = rw (h, e)

pub filter-colons :
    (net : Addresses) (a s : Bytes) {pieces : List Bytes}
    → colons (a ++ (b':' ∷ s)) ≡ pieces
    → filter net (a ++ (b':' ∷ s)) ≡ filter_pieces net (a ++ (b':' ∷ s)) pieces
filter-colons net a s e = filter_split net (a ++ (b':' ∷ s)) (contains-append a (b':' ∷ []) s) e

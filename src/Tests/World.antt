-- ===== src/Tests/World.antt =====
-- Small implementations of what the program imports.
use prox.Base.{
  ◌≢◌, ◌==◌, ℕ, ◌≡◌, refl, ap, sym, subst, ◌∙◌, Bool, true, false, not, ◌&&◌, ◌||◌, List, [], ◌∷◌,
  Option, none, some, ℤ, pos, arith, ltb_ℤ, length, All, if◌then◌else◌, is_some, Bool-cases, inl,
  inr, Option-cases,
}
use prox.Text.{Bytes, same, same→eq, same_refl, is_empty}
use prox.Parse.{Addresses}
use prox.Parse.Fields.{IsPlain}
use prox.Text.SplitLaws.{Lacks}
use prox.Scaler.{Ants}
use prox.Scaler.Bounds.{IsTunable}
use prox.Engine.{Engine, Limiter, Plot, engine_with}
use prox.Daemons.MapLaws.{PlotLaws, or_value}

-- A pool is its capacity.
instance abbrev pub capacity_ants : Ants ℤ
capacity_ants = record {
  new_pool = λ n. some n;
  release = λ n. n;
  reboot = λ n. n;
  cap = λ n. n;
  tune = λ n size. if ltb_ℤ (pos 0) size then size else n;
  is_closed = λ n. false;
}

pub capacity_ants-IsTunable : IsTunable capacity_ants
capacity_ants-IsTunable = record {
  cap-tune = λ pool size h. ground arith;
  cap-reboot = λ pool. refl;
  cap-release = λ pool. refl;
}

abbrev pub has_key : List Bytes → Bytes → Bool
has_key [] k = false
has_key (j ∷ l) k = same j k || has_key l k

-- A limiter that limits a key from its second Check on.
instance abbrev pub seen_limiter : Limiter (List Bytes)
seen_limiter = record {
  new_limiter = λ policy. [];
  check = λ l k. (k ∷ l, has_key l k);
  peek = λ l k. has_key l k;
  delete_expired = λ l. l;
  item_count = λ l. pos (length l);
}

abbrev pub Table : Type 0
Table = List (Bytes × ℕ)

abbrev pub find : Table → Bytes → Option ℕ
find [] k = none
find ((j, v) ∷ t) k = if same j k then some v else find t k

abbrev pub remove_key : Table → Bytes → Table
remove_key [] k = []
remove_key ((j, v) ∷ t) k =
    let rest : Table = remove_key t k in if same j k then rest else (j, v) ∷ rest

abbrev pub insert_absent : Table → Bytes → ℕ → Table
insert_absent t k v = if is_some (find t k) then t else (k, v) ∷ t

-- The table with the entries that a lookup finds.
abbrev pub distinct : Table → Table
distinct [] = []
distinct ((k, v) ∷ t) = (k, v) ∷ remove_key (distinct t) k

instance abbrev pub table_plot : Plot Table
table_plot = record {
  new_plot = [];
  set_if_absent = insert_absent;
  get = find;
  remove = remove_key;
  clear = λ t. [];
  count = λ t. pos (length (distinct t));
  entries = distinct;
}

find-insert_absent :
    (t : Table) (k j : Bytes) (v : ℕ)
    → find (insert_absent t k v) j ≡ (if same k j then some (or_value (find t k) v) else find t j)
find-insert_absent t k j v = elim (Option-cases (find t k)) [
  | inl new ↦ rw (new, find)
  | inr (w, old) ↦ elim (Bool-cases (same k j)) [
    | inl equal ↦
        (let k≡j : k ≡ j = same→eq k j equal in rw (equal, old) (ap (find t) (sym k≡j) ∙ old))
    | inr apart ↦ rw (apart, old)
  ]
]

find-remove_key :
    (t : Table) (k j : Bytes) → find (remove_key t k) j ≡ (if same k j then none else find t j)
find-remove_key [] k j = ground arith
find-remove_key ((i, v) ∷ t) k j =
    ground (
      arith,
      find-remove_key t k j,
      same→eq i k,
      same→eq i j,
      same→eq k j,
      same_refl i,
      same_refl k,
    )

abbrev Finds : Table → Bytes × ℕ → Type 0
Finds t (k, v) = find t k ≡ some v

remove_key_drops :
    (l : Table) (j k : Bytes) (w : ℕ) → same j k ≡ true → remove_key ((j, w) ∷ l) k ≡ remove_key l k
remove_key_drops l j k w h = ground arith

remove_key_keeps :
    (l : Table) (j k : Bytes) (w : ℕ)
    → same j k ≡ false
    → remove_key ((j, w) ∷ l) k ≡ (j, w) ∷ remove_key l k
remove_key_keeps l j k w h = ground arith

same_flip : (k j : Bytes) → same j k ≡ false → same k j ≡ false
same_flip k j h = ground (arith, same→eq k j, same_refl j)

remove_key-Finds :
    (t l : Table) (k : Bytes) (v : ℕ) → All (Finds t) l → All (Finds ((k, v) ∷ t)) (remove_key l k)
remove_key-Finds t [] k v h = tt
remove_key-Finds t ((j, w) ∷ l) k v h = elim (Bool-cases (same j k)) [
  | inl equal ↦
      subst (All (Finds ((k, v) ∷ t))) (sym (remove_key_drops l j k w equal))
        (remove_key-Finds t l k v h.1)
  | inr apart ↦
      subst (All (Finds ((k, v) ∷ t))) (sym (remove_key_keeps l j k w apart))
        (rw (same_flip k j apart) h.0, remove_key-Finds t l k v h.1)
]

distinct-Finds : (t : Table) → All (Finds t) (distinct t)
distinct-Finds [] = tt
distinct-Finds ((k, v) ∷ t) =
    (ground (arith, same_refl k), remove_key-Finds t (distinct t) k v (distinct-Finds t))

pub table_plot-PlotLaws : PlotLaws table_plot
table_plot-PlotLaws = record {
  get-new = λ k. refl;
  get-set_if_absent = find-insert_absent;
  get-remove = find-remove_key;
  get-clear = λ m k. refl;
  count-entries = λ m. refl;
  entries-get = distinct-Finds;
}

-- Parsers that take every text but the empty one.
abbrev pub lenient : Addresses
lenient = record {
  parse_addr_port = λ s. if is_empty s then none else some s;
  is_domain_name = λ s. not (is_empty s);
}

abbrev pub World : Type 0
World = Engine ℤ (List Bytes) Table

-- An engine at its start, with debugging off.
unfoldable pub start_world : World
unfolding engine_with
start_world = engine_with 0 (record { enabled = false; last_bad_announced = []; log = [] }) (pos 20)

abbrev pub lacks : ℕ → Bytes → Bool
lacks c [] = true
lacks c (b ∷ s) = not (b == c) && lacks c s

pub lacks-Lacks : (c : ℕ) (s : Bytes) → lacks c s ≡ true → Lacks c s
lacks-Lacks c [] h = tt
lacks-Lacks c (b ∷ s) h = (ground arith, lacks-Lacks c s (ground arith))

abbrev pub is_plain : Bytes → Bool
is_plain s = lacks b':' s && lacks b'@' s

pub is_plain-IsPlain : (s : Bytes) → is_plain s ≡ true → IsPlain s
is_plain-IsPlain s h = (lacks-Lacks b':' s (ground arith), lacks-Lacks b'@' s (ground arith))

abbrev pub filled : Bytes → Bool
filled [] = false
filled (_ ∷ _) = true

pub filled_lem : (s : Bytes) → filled s ≡ true → s ≢ []
filled_lem [] h = cc
filled_lem (c ∷ s) h = λ e. cc

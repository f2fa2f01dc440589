-- ===== src/Load/Scanning.antt =====
-- The tokens of the scanner, for a text of lines.
use prox.Base.{
  if◌then◌else◌, ℕ, ◌+◌, ◌<◌, ◌≡◌, refl, ap, sym, ◌∙◌, false, List, [], ◌∷◌, ◌++◌, map, length,
  length-append, append_assoc, append-nil, arith, All, ◌==◌,
}
use prox.Text.{Bytes}
use prox.Text.SplitLaws.{Lacks}
use prox.Engine.{Engine, Plot}
use prox.Load.{
  load_single_proxy, load_lines, load_multi_line_string, scan, scan_from, drop_cr,
  max_scan_token_size,
}

-- A line that the scanner can hold.
pub record IsLine (l : Bytes) : Type 0 where
  pub one_line : Lacks b'\n' l
  pub short : length l < max_scan_token_size

-- Lines with a line feed behind each.
unfoldable pub unlines : List Bytes → Bytes
unlines [] = []
unlines (l ∷ rest) = l ++ (b'\n' ∷ unlines rest)

-- The token of what stands behind the last line feed.
abbrev pub last_token : Bytes → List Bytes
last_token [] = []
last_token (c ∷ s) = drop_cr (c ∷ s) ∷ []

scan_from_step :
    (c : ℕ) (s line : Bytes)
    → length line < max_scan_token_size
    → (c == b'\n') ≡ false
    → scan_from (c ∷ s) line (length line)
      ≡ scan_from s (line ++ (c ∷ [])) (length (line ++ (c ∷ [])))
unfolding scan_from
scan_from_step c s line short other = ground (arith, length-append line (c ∷ []))

scan_from_feed :
    (s line : Bytes)
    → length line < max_scan_token_size
    → scan_from (b'\n' ∷ s) line (length line) ≡ drop_cr line ∷ scan_from s [] 0
unfolding scan_from
scan_from_feed s line short = ground arith

scan_from_line :
    (l s line : Bytes)
    → Lacks b'\n' l
    → length line + length l < max_scan_token_size
    → scan_from (l ++ (b'\n' ∷ s)) line (length line) ≡ drop_cr (line ++ l) ∷ scan_from s [] 0
scan_from_line [] s line lacks short =
    scan_from_feed s line (omega arith)
    ∙ ap (λ x. drop_cr x ∷ scan_from s [] 0) (sym (append-nil line))
scan_from_line (c ∷ l) s line lacks short =
    scan_from_step c (l ++ (b'\n' ∷ s)) line (omega arith) (ground (arith, lacks.0))
    ∙ scan_from_line l s (line ++ (c ∷ [])) lacks.1 (omega (arith, length-append line (c ∷ [])))
    ∙ ap (λ x. drop_cr x ∷ scan_from s [] 0) (append_assoc line (c ∷ []) l)

scan_from_end :
    (l line : Bytes)
    → Lacks b'\n' l
    → length line + length l < max_scan_token_size
    → scan_from l line (length line) ≡ last_token (line ++ l)
unfolding scan_from
scan_from_end [] [] lacks short = refl
scan_from_end [] (c ∷ line) lacks short = ground (arith, append-nil line)
scan_from_end (c ∷ l) line lacks short =
    scan_from_step c l line (omega arith) (ground (arith, lacks.0))
    ∙ scan_from_end l (line ++ (c ∷ [])) lacks.1 (omega (arith, length-append line (c ∷ [])))
    ∙ ap last_token (append_assoc line (c ∷ []) l)

-- The scanner gives back the lines of a text.
scan-unlines :
    (lines : List Bytes) (last : Bytes)
    → All IsLine lines
    → IsLine last
    → scan (unlines lines ++ last) ≡ map drop_cr lines ++ last_token last
unfolding scan unlines
scan-unlines [] last h k = scan_from_end last [] k.one_line (omega (arith, k.short))
scan-unlines (l ∷ rest) last h k =
    ap scan (append_assoc l (b'\n' ∷ unlines rest) last)
    ∙ scan_from_line l (unlines rest ++ last) [] h.0.one_line (omega (arith, h.0.short))
    ∙ ap (λ x. drop_cr l ∷ x) (scan-unlines rest last h.1 k)

-- The rest of a text behind its last line feed is a line unless it is empty.
abbrev pub unempty : Bytes → List Bytes
unempty [] = []
unempty (c ∷ s) = (c ∷ s) ∷ []

tokens :
    (lines : List Bytes) (last : Bytes)
    → map drop_cr (lines ++ unempty last) ≡ map drop_cr lines ++ last_token last
tokens [] [] = refl
tokens [] (c ∷ s) = refl
tokens (l ∷ lines) last = ap (λ x. drop_cr l ∷ x) (tokens lines last)

module _ {P L M : Type 0} ⦃plots : Plot M⦄ where
  -- One after another, each line is loaded by itself, and those that were loaded are counted.
  abbrev pub load_each : List Bytes → Engine P L M → Engine P L M × ℕ
  load_each [] e = (e, 0)
  load_each (line ∷ rest) e =
      let (f, loaded) = load_single_proxy (drop_cr line) e in
      let (g, count) = load_each rest f in (g, if loaded then count + 1 else count)

  load_lines-load_each :
      (lines : List Bytes) (count : ℕ) (e : Engine P L M)
      → load_lines (map drop_cr lines) count e
        ≡ ((load_each lines e).0, count + (load_each lines e).1)
  unfolding load_lines
  load_lines-load_each [] count e = ap (λ n. (e, n)) (omega arith)
  load_lines-load_each (line ∷ rest) count e =
      let (f, loaded) = load_single_proxy (drop_cr line) e in
      load_lines-load_each rest (if loaded then count + 1 else count) f
      ∙ ap (λ n. ((load_each rest f).0, n)) (ground arith)

  -- LoadMultiLineString loads the lines of a text one after another and counts those that were loaded,
  -- each without the carriage return at its end, as long as each is shorter than the scanner's buffer:
  -- those with a line feed behind them, empty ones included, and what stands behind the last line feed,
  -- unless that is empty.
  pub load_multi_line_string-load_each :
      (lines : List Bytes) (last : Bytes) (e : Engine P L M)
      → All IsLine lines
      → IsLine last
      → load_multi_line_string (unlines lines ++ last) e ≡ load_each (lines ++ unempty last) e
  unfolding load_multi_line_string
  load_multi_line_string-load_each lines last e h k =
      ap (λ l. load_lines l 0 e) (scan-unlines lines last h k ∙ sym (tokens lines last))
      ∙ load_lines-load_each (lines ++ unempty last) 0 e
      ∙ ap (λ n. ((load_each (lines ++ unempty last) e).0, n)) (omega arith)

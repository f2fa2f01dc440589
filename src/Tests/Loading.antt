-- ===== src/Tests/Loading.antt =====
-- Loading, the map and the recycler.
use prox.Base.{List, ◌≡◌, refl, true, [], ◌∷◌, ◌++◌, arith}
use mathlib.Core.List.{Perm}
use mathlib.Core.List.Perm
use prox.Text.{Bytes, codes}
use prox.Daemons.MapLaws.{IsKnown}
use prox.Daemons.Recycling.{Recycles}
use prox.Load.{drop_cr, load_single_proxy, load_multi_line_string, scan}
use prox.Load.Scanning.{IsLine, unlines, unempty, load_each, load_multi_line_string-load_each}
use prox.Load.Book.{Call, load_line, load_text, delete, clear, book, perform_all, meaning_all}
use prox.Load.Forgetful.{ledger, load_multi_line_string-ledger}
use prox.Load.Refines.{perform_all-book}
use prox.Tests.World.{
  lacks-Lacks, World, Table, start_world, table_plot, table_plot-PlotLaws, seen_limiter,
}

abbrev test_line : Bytes
test_line = codes "127.0.0.1:1080"

-- An engine that has loaded one line.
abbrev loaded_world : World
loaded_world = (load_single_proxy test_line start_world).0

start_world-IsKnown : IsKnown start_world
unfolding start_world
start_world-IsKnown = record { exists = λ k p h. cc; keyed = λ k p h. cc; queued = tt }

-- An engine whose recycler has ticked.
abbrev due_world : World
due_world = record start_world { plot = (test_line, 0) ∷ []; recycle_tick = true }

due_world-Recycles : Recycles (λ l. l) due_world
unfolding start_world
due_world-Recycles = (refl, refl, omega arith, refl)

-- A text whose first line is kept twice, then cleared, then a line and its deletion.
abbrev test_calls : List Call
test_calls =
    load_text (codes "a:1" ++ (10 ∷ (codes "a:1" ++ (10 ∷ []))))
    ∷ clear
    ∷ load_line (test_line, true)
    ∷ delete (codes "a:1")
    ∷ []

perform_all-book_example :
    book (perform_all test_calls start_world) ≡ meaning_all test_calls (book start_world)
perform_all-book_example =
    perform_all-book table_plot-PlotLaws test_calls start_world start_world-IsKnown

line_a_lem : IsLine (codes "a:1")
line_a_lem = record { one_line = lacks-Lacks 10 (codes "a:1") refl; short = omega arith }

load_multi_line_string-load_each_example :
    load_multi_line_string (unlines (codes "a:1" ∷ codes "a:1" ∷ []) ++ codes "a:1") start_world
    ≡ load_each ((codes "a:1" ∷ codes "a:1" ∷ []) ++ unempty (codes "a:1")) start_world
load_multi_line_string-load_each_example =
    load_multi_line_string-load_each (codes "a:1" ∷ codes "a:1" ∷ []) (codes "a:1") start_world
      (line_a_lem, (line_a_lem, tt)) line_a_lem

-- Two lines, in both orders.
abbrev two_lines : Bytes
two_lines = codes "a:1" ++ (10 ∷ codes "b:2")

abbrev two_lines_turned : Bytes
two_lines_turned = codes "b:2" ++ (10 ∷ codes "a:1")

turned : Perm (scan two_lines) (scan two_lines_turned)
unfolding scan drop_cr
turned = Perm.swap (codes "b:2") (codes "a:1") []

load_multi_line_string-ledger_example :
    ledger (load_multi_line_string two_lines start_world).0
    ≡ ledger (load_multi_line_string two_lines_turned start_world).0
load_multi_line_string-ledger_example =
    load_multi_line_string-ledger table_plot-PlotLaws two_lines two_lines_turned start_world
      start_world-IsKnown turned

-- An engine with two entries whose recycler has ticked, and a shuffle that turns two entries around.
abbrev crowded_world : World
crowded_world = record due_world { plot = (test_line, 0) ∷ (codes "b:2", 1) ∷ [] }

abbrev turn_two : Table → Table
turn_two (x ∷ y ∷ l) = y ∷ x ∷ l
turn_two l = l

turn_two-perm : (l : Table) → Perm (turn_two l) l
turn_two-perm [] = Perm.refl []
turn_two-perm (x ∷ []) = Perm.refl (x ∷ [])
turn_two-perm (x ∷ y ∷ l) = Perm.swap x y l

-- ===== src/Example/Window.antt =====
-- example/main.go: the text of the window. The updates that are queued run in their order.
use prox.Base.{
  ◌≡◌, refl, ap, sym, ◌∙◌, Bool, true, not, ◌&&◌, List, [], ◌∷◌, ◌++◌, Option, none, some, arith,
  Bool-cases, inl, inr, if_true, if◌then◌else◌,
}
use prox.Text.{Bytes, codes, same, same→eq, is_empty}

-- Whether main has made the app, the last message, the text of the window, and the updates that are queued,
-- by their messages.
pub record Window : Type 0 where
  pub app : Bool
  pub last : Bytes
  pub shown : Bytes
  pub queued : List Bytes

-- socksLogger.Print, and an update of main's ticker.
unfoldable pub print : Bytes → Window → Window
print str w = if w.app then record w { queued = w.queued ++ (str ∷ []) } else w

-- socksLogger.Printf, and Errorf, with what fmt makes of the format and its arguments.
unfoldable pub printf : Bytes → Window → Window
unfolding print
printf msg w = if w.app then if is_empty msg then w else print msg w else w

-- currentString: `render` is what fmt makes of statsFmt with the statistics of the engine and a message,
-- and is none while there is no engine. The first is the new value of `last`.
unfoldable pub current_string : Option (Bytes → Bytes) → Bytes → Bytes → Bytes × Bytes
current_string render last_message last =
    let last' =
      if not (same last_message last) && not (is_empty last_message) then last_message else last in
    let message = if is_empty last_message then last' else last_message in
    elim render [ none ↦ (last', []) | some fill ↦ (last', fill message) ]

-- main: the app is made, and the window starts with a first text.
unfoldable pub opened : (Bytes → Bytes) → Window
unfolding current_string
opened render =
    let (last, shown) = current_string (some render) (codes "Initialize") [] in
    record { app = true; last = last; shown = shown; queued = [] }

-- The updates that are queued run.
unfoldable run_updates : (Bytes → Bytes) → List Bytes → Window → Window
unfolding current_string
run_updates render [] w = w
run_updates render (msg ∷ rest) w =
    let (last, shown) = current_string (some render) msg w.last in
    run_updates render rest (record w { last = last; shown = shown })

unfoldable pub draw : (Bytes → Bytes) → Window → Window
unfolding run_updates
draw render w = run_updates render w.queued (record w { queued = [] })

-- The last message that is not empty.
abbrev pub latest : List Bytes → Bytes → Bytes
latest [] last = last
latest (msg ∷ rest) last = latest rest (if is_empty msg then last else msg)

-- Both tests of currentString come to one.
current_string_lem :
    (render : Bytes → Bytes) (msg last : Bytes)
    → let next = if is_empty msg then last else msg in
      current_string (some render) msg last ≡ (next, render next)
unfolding current_string
current_string_lem render [] last = ground arith
current_string_lem render (c ∷ msg) last = elim (Bool-cases (same (c ∷ msg) last)) [
  | inl equal ↦ rw equal (ap (λ l. (l, render (c ∷ msg))) (sym (same→eq (c ∷ msg) last equal)))
  | inr apart ↦ rw apart refl
]

run_updates_lem :
    (render : Bytes → Bytes) (msg : Bytes) (rest : List Bytes) (w : Window)
    → let v = run_updates render (msg ∷ rest) w in
      (v.last ≡ latest (msg ∷ rest) w.last)
      × (v.shown ≡ render (latest (msg ∷ rest) w.last))
      × (v.queued ≡ w.queued)
      × (v.app ≡ w.app)
unfolding run_updates
run_updates_lem render msg [] w =
    let same = current_string_lem render msg w.last in
    (ap (λ (r : Bytes × Bytes). r.0) same, ap (λ (r : Bytes × Bytes). r.1) same, refl, refl)
run_updates_lem render msg (next ∷ rest) w =
    let now = current_string (some render) msg w.last in
    let (last, shown, queued, app) =
      run_updates_lem render next rest (record w { last = now.0; shown = now.1 }) in
    let first = ap (λ (r : Bytes × Bytes). r.0) (current_string_lem render msg w.last) in
    (
      last ∙ ap (latest (next ∷ rest)) first,
      shown ∙ ap (λ l. render (latest (next ∷ rest) l)) first,
      queued,
      app,
    )

-- What happens to the window while the app runs.
pub data Event : Type 0 where
  prints printfs : Bytes → Event
  draws : (Bytes → Bytes) → Event

unfoldable pub happens : List Event → Window → Window
unfolding print printf draw
happens [] w = w
happens (prints str ∷ rest) w = happens rest (print str w)
happens (printfs msg ∷ rest) w = happens rest (printf msg w)
happens (draws render ∷ rest) w = happens rest (draw render w)

-- The messages of the events.
abbrev pub messages : List Event → List Bytes
messages [] = []
messages (prints str ∷ rest) = str ∷ messages rest
messages (printfs msg ∷ rest) = msg ∷ messages rest
messages (draws render ∷ rest) = messages rest

latest-append : (l m : List Bytes) (last : Bytes) → latest (l ++ m) last ≡ latest m (latest l last)
latest-append [] m last = refl
latest-append (msg ∷ l) m last = latest-append l m (if is_empty msg then last else msg)

-- The message that the window comes to show once its updates have run.
abbrev pub due : Window → Bytes
due w = latest w.queued w.last

run_updates-due :
    (render : Bytes → Bytes) (l : List Bytes) (w : Window)
    → let v = run_updates render l (record w { queued = [] }) in
      (due v ≡ latest l w.last) × (v.app ≡ w.app)
unfolding run_updates
run_updates-due render [] w = (refl, refl)
run_updates-due render (msg ∷ rest) w =
    let v : Window = run_updates render (msg ∷ rest) (record w { queued = [] }) in
    let (last, _, queued, app) = run_updates_lem render msg rest (record w { queued = [] }) in
    (ap (λ q. latest q v.last) queued ∙ last, app)

draw-due :
    (render : Bytes → Bytes) (w : Window)
    → (due (draw render w) ≡ due w) × ((draw render w).app ≡ w.app)
unfolding draw
draw-due render w = run_updates-due render w.queued w

print_running :
    (str : Bytes) (w : Window)
    → w.app ≡ true
    → print str w ≡ record w { queued = w.queued ++ (str ∷ []) }
unfolding print
print_running str w running = if_true w.app _ _ running

print-due :
    (str : Bytes) (w : Window)
    → w.app ≡ true
    → (due (print str w) ≡ latest (str ∷ []) (due w)) × ((print str w).app ≡ true)
print-due str w running =
    let said = print_running str w running in
    (ap due said ∙ latest-append w.queued (str ∷ []) w.last, ap (λ x. x.app) said ∙ running)

printf-due :
    (msg : Bytes) (w : Window)
    → w.app ≡ true
    → (due (printf msg w) ≡ latest (msg ∷ []) (due w)) × ((printf msg w).app ≡ true)
unfolding printf
printf-due [] w running =
    let same = if_true w.app w w running in (ap due same, ap (λ x. x.app) same ∙ running)
printf-due (c ∷ msg) w running =
    let said = if_true w.app (print (c ∷ msg) w) w running in
    let (later, on) = print-due (c ∷ msg) w running in
    (ap due said ∙ later, ap (λ x. x.app) said ∙ on)

happens-due :
    (l : List Event) (w : Window)
    → w.app ≡ true
    → (due (happens l w) ≡ latest (messages l) (due w)) × ((happens l w).app ≡ true)
unfolding happens
happens-due [] w running = (refl, running)
happens-due (prints str ∷ rest) w running =
    let (later, on) = print-due str w running in
    let (last, still) = happens-due rest (print str w) on in
    (last ∙ ap (latest (messages rest)) later, still)
happens-due (printfs msg ∷ rest) w running =
    let (later, on) = printf-due msg w running in
    let (last, still) = happens-due rest (printf msg w) on in
    (last ∙ ap (latest (messages rest)) later, still)
happens-due (draws render ∷ rest) w running =
    let (later, on) = draw-due render w in
    let (last, still) = happens-due rest (draw render w) (on ∙ running) in
    (last ∙ ap (latest (messages rest)) later, still)

ticked :
    (render : Bytes → Bytes) (l : List Bytes) (w : Window)
    → (run_updates render (l ++ ([] ∷ [])) w).shown ≡ render (latest l w.last)
ticked render [] w = (run_updates_lem render [] [] w).1
ticked render (msg ∷ rest) w =
    (run_updates_lem render msg (rest ++ ([] ∷ [])) w).1
    ∙ ap render (latest-append (msg ∷ rest) ([] ∷ []) w.last)

-- While the app runs, after any prints and any draws in any order, the next update of the ticker, once it
-- has run, leaves the window with what fmt then makes of the last message that is not empty, among those
-- that were waiting at the start and those that were printed since, or of the one before them if they
-- are all empty.
pub happens-ticked :
    (l : List Event) (w : Window) (render : Bytes → Bytes)
    → w.app ≡ true
    → (draw render (print [] (happens l w))).shown ≡ render (latest (w.queued ++ messages l) w.last)
unfolding draw
happens-ticked l w render running =
    let v : Window = happens l w in
    let (last, on) = happens-due l w running in
    ap (λ x. (draw render x).shown) (print_running [] v on)
    ∙ ticked render v.queued (record v { queued = [] })
    ∙ ap render (last ∙ sym (latest-append w.queued (messages l) w.last))

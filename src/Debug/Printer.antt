-- ===== src/Debug/Printer.antt =====
-- debug.go: the logger that an engine starts with, and the channel of debug messages.
use prox.Base.{
  ℕ, ◌≤◌, ◌≡◌, refl, ◌∙◌, Bool, true, false, not, ltb, List, [], ◌∷◌, ◌++◌, Option, none, some,
  length, length-append, ◌⊎◌, append_assoc, arith, if◌then◌else◌, Bool-cases, inl, inr,
}
use prox.Text.{Bytes}

-- `useDebugChannel`, and the messages in `debugChan`, oldest first.
pub record Printer : Type 0 where
  pub use_channel : Bool
  pub channel : List Bytes

abbrev pub channel_size : ℕ
channel_size = 100

-- DebugChannel: a new channel.
unfoldable pub debug_channel : Printer → Printer
debug_channel p = record { use_channel = true; channel = [] }

-- basicPrinter.Print of the texts of its arguments, joined by `sprint`; `none` blocks. What is built
-- for the console is given back to the pool of buffers and goes nowhere.
unfoldable pub print : (List Bytes → Bytes) → List Bytes → Printer → Option Printer
print sprint [] p = some p
print sprint (a ∷ args) p =
    if not p.use_channel
    then some p
    else if ltb (length p.channel) channel_size
    then some (record p { channel = p.channel ++ (sprint (a ∷ args) ∷ []) })
    else none

-- basicPrinter.Printf and Errorf of a text that fmt.Sprintf has made.
unfoldable pub printf_text : (List Bytes → Bytes) → Bytes → Printer → Option Printer
unfolding print
printf_text sprint text p = print sprint (text ∷ []) p

-- A message is received.
unfoldable pub receive : Printer → Printer × Option Bytes
receive p = elim p.channel [ [] ↦ (p, none) | m ∷ rest ↦ (record p { channel = rest }, some m) ]

-- Messages one after another, while nobody receives: those before the first that blocks are sent.
unfoldable printf_all : (List Bytes → Bytes) → List Bytes → Printer → Printer × List Bytes
unfolding printf_text
printf_all sprint [] p = (p, [])
printf_all sprint (text ∷ rest) p = elim (printf_text sprint text p) [
  | none ↦ (p, text ∷ rest)
  | some q ↦ printf_all sprint rest q
]

module _ (sprint : List Bytes → Bytes) (plain : (t : Bytes) → sprint (t ∷ []) ≡ t) where
  printf_text_sent :
      (t : Bytes) (p : Printer)
      → p.use_channel ≡ true
      → ltb (length p.channel) channel_size ≡ true
      → printf_text sprint t p ≡ some (record p { channel = p.channel ++ (t ∷ []) })
  unfolding printf_text print
  printf_text_sent t p on room = rw (on, room, plain t) refl

  printf_text_blocks :
      (t : Bytes) (p : Printer)
      → p.use_channel ≡ true
      → ltb (length p.channel) channel_size ≡ false
      → printf_text sprint t p ≡ none
  unfolding printf_text print
  printf_text_blocks t p on full = rw (on, full) refl

  -- While the debug channel is in use and nobody receives from it, no message is lost and none
  -- overtakes another: what is in the channel afterwards, followed by the messages that still wait, is
  -- what was in it before, followed by all the messages; and a message waits only once the channel
  -- holds a hundred. (`plain` says that fmt.Sprint of one text is that text.)
  printf_all_lem :
      (texts : List Bytes) (p : Printer)
      → p.use_channel ≡ true
      → length p.channel ≤ channel_size
      → let (q, waiting) = printf_all sprint texts p in
        (q.channel ++ waiting ≡ p.channel ++ texts)
        × (length q.channel ≤ channel_size)
        × ((waiting ≡ []) ⊎ (length q.channel ≡ channel_size))
  unfolding printf_all
  printf_all_lem [] p on fits = (refl, fits, inl refl)
  printf_all_lem (t ∷ rest) p on fits = elim (Bool-cases (ltb (length p.channel) channel_size)) [
    | inl room ↦
        let q : Printer = record p { channel = p.channel ++ (t ∷ []) } in
        let (kept, bound, waits) =
          printf_all_lem rest q on (ground (arith, room, length-append p.channel (t ∷ []))) in
        rw (printf_text_sent t p on room, printf_all)
          (kept ∙ append_assoc p.channel (t ∷ []) rest, bound, waits)
    | inr full ↦
        rw (printf_text_blocks t p on full, printf_all)
          (refl, fits, inr (ground (arith, full, fits)))
  ]

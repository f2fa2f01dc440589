-- ===== src/Debug/Redaction.antt =====
-- What the debug messages tell of an address when redaction is on.
use prox.Base.{◌≡◌, ap, sym, ◌∙◌, Bool, true, [], ◌∷◌, ◌++◌, if◌then◌else◌}
use mathlib.Core.List.{append_cancel_left, append_cancel_right, head-eq_of_cons-eq}
use prox.Text.{Bytes}
use prox.Debug.{Debug, Line, simple_string, dbg_print, announce_dial}

-- The line that is printed when a dial begins.
announce_line : Bool → Bytes → Bytes → Line
announce_line redact network addr = record {
  format =
      simple_string "prox5 dialing: "
      ++ (network
          ++ (simple_string "://"
              ++ ((if redact then simple_string "[redacted]" else addr)
                  ++ (addr ++ simple_string "..."))));
  args = [];
}

announce_dial_on :
    (redact : Bool) (network addr : Bytes) (d : Debug)
    → d.enabled ≡ true
    → (announce_dial redact network addr d).log ≡ d.log ++ (announce_line redact network addr ∷ [])
unfolding announce_dial dbg_print announce_line
announce_dial_on redact network addr d h = rw h

-- With redaction and debugging on, the message at the start of a dial still tells the target: two
-- dials that leave the same log have the same target.
pub announce_dial_injective :
    (network addr other : Bytes) (d : Debug)
    → d.enabled ≡ true
    → (announce_dial true network addr d).log ≡ (announce_dial true network other d).log
    → addr ≡ other
unfolding announce_line
announce_dial_injective network addr other d h same =
    let lines : d.log ++ (announce_line true network addr ∷ [])
        ≡ d.log ++ (announce_line true network other ∷ []) =
      sym (announce_dial_on true network addr d h)
      ∙ same
      ∙ announce_dial_on true network other d h in
    let formats : (announce_line true network addr).format
        ≡ (announce_line true network other).format =
      ap (λ l. l.format) (head-eq_of_cons-eq (append_cancel_left d.log _ _ lines)) in
    append_cancel_right addr other (simple_string "...") (
      append_cancel_left (simple_string "[redacted]") _ _ (
        append_cancel_left (simple_string "://") _ _ (
          append_cancel_left network _ _
            (append_cancel_left (simple_string "prox5 dialing: ") _ _ formats))))

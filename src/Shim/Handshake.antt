-- ===== src/Shim/Handshake.antt =====
-- internal/randtls/shim.go, HandshakeContext: the handshake runs in a goroutine, and the caller waits for
-- it or for its context.
use prox.Base.{◌≡◌, refl, ◌∙◌, Bool, true, false, ◌⊎◌, inl, inr, Option, none, some}
use prox.Text.{Bytes}

-- Whether the goroutine still runs, the buffer of errch, and what the call returned.
pub record Shake : Type 0 where
  pub pending : Bool
  pub errch : Option (Option Bytes)
  pub returned : Option (Option Bytes)

abbrev pub begun : Shake
begun = record { pending = true; errch = none; returned = none }

some_inj : {A : Type 0} (x y : A) → some x ≡ some y → y ≡ x
some_inj x y h = cc h

module _ (handshake : Option Bytes) (ctx_err : Bytes) where
  -- The goroutine sends the error of Handshake, which waits while the buffer of one error is full; or the
  -- select takes an error that was sent, or finds that the context is done.
  pub data Move (s : Shake) : Shake → Type 0 where
    sends :
        s.pending ≡ true
        → s.errch ≡ none
        → Move s (record s { pending = false; errch = some handshake })
    receives :
        (err : Option Bytes)
        → s.returned ≡ none
        → s.errch ≡ some err
        → Move s (record s { errch = none; returned = some err })
    cancels : s.returned ≡ none → Move s (record s { returned = some (some ctx_err) })

  pub data Moves (s : Shake) : Shake → Type 0 where
    still : Moves s s
    moved : {t u : Shake} → Moves s t → Move t u → Moves s u

  -- The call returns the error of the handshake or that of the context; the goroutine is never stuck on its
  -- send; and while the call has not returned, a handshake that is over can be received.
  pub record IsKept (s : Shake) : Type 0 where
    pub told :
        (err : Option Bytes) → s.returned ≡ some err → (err ≡ handshake) ⊎ (err ≡ some ctx_err)
    pub buffered : (err : Option Bytes) → s.errch ≡ some err → err ≡ handshake
    pub unstuck : s.pending ≡ true → s.errch ≡ none
    pub waiting : s.returned ≡ none → s.pending ≡ false → s.errch ≡ some handshake

  Move-IsKept : (s t : Shake) → Move s t → IsKept s → IsKept t
  Move-IsKept s _ (sends pending room) v = record {
    told = v.told;
    buffered = λ e h. some_inj handshake e h;
    unstuck = λ h. absurd (cc h);
    waiting = λ h k. refl;
  }
  Move-IsKept s _ (receives err open_call full) v = record {
    told = λ e h. inl (some_inj err e h ∙ v.buffered err full);
    buffered = λ e h. absurd (cc h);
    unstuck = λ h. refl;
    waiting = λ h k. absurd (cc h);
  }
  Move-IsKept s _ (cancels open_call) v = record {
    told = λ e h. inr (some_inj (some ctx_err) e h);
    buffered = v.buffered;
    unstuck = v.unstuck;
    waiting = λ h k. absurd (cc h);
  }

  -- After any moves from the start of HandshakeContext: the call has returned nothing but the error of the
  -- handshake or that of the context, so that it returns none only if the handshake succeeded; the
  -- goroutine does not wait to send, even if the call has returned before; and while the call has not
  -- returned, the error of a handshake that is over is there to receive.
  pub Moves-IsKept : {s : Shake} → Moves begun s → IsKept s
  Moves-IsKept still = record {
    told = λ err h. absurd (cc h);
    buffered = λ e h. absurd (cc h);
    unstuck = λ h. refl;
    waiting = λ h k. absurd (cc k);
  }
  Moves-IsKept {s} (moved {t} {u} before step) = Move-IsKept t u step (Moves-IsKept before)

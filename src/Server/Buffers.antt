-- ===== src/Server/Buffers.antt =====
-- socks5_server.go: the pool of buffers that the SOCKS5 server copies with. It is a sync.Pool, and the
-- server, which is that of go-socks5, decides when it takes a buffer and when it gives one back.
use prox.Base.{ℕ, zero, suc, ◌*◌, ◌≡◌, refl, ap, ◌∙◌, List, [], ◌∷◌, ◌++◌, length, All}
use prox.Base.Pool.{pool_get, pool_put, pool_get-All}
use prox.Text.{Bytes}

-- make([]byte, size): a buffer of zeros.
unfoldable make_bytes : ℕ → Bytes
make_bytes zero = []
make_bytes (suc size) = 0 ∷ make_bytes size

make_bytes-length : (size : ℕ) → length (make_bytes size) ≡ size
unfolding make_bytes
make_bytes-length zero = refl
make_bytes-length (suc size) = ap suc (make_bytes-length size)

-- cpool: the size of the buffers that New makes, and those that the pool holds.
pub record Cpool : Type 0 where
  pub size : ℕ
  pub idle : List Bytes

unfoldable pub bufs : Cpool
bufs = record { size = 32 * 1024; idle = [] }

-- The choice is that of sync.Pool.
unfoldable pub get : ℕ → Cpool → Cpool × Bytes
unfolding make_bytes
get choice c =
    let (cc, rest) = pool_get choice (make_bytes c.size) c.idle in (record c { idle = rest }, cc)

unfoldable pub put : Bytes → Cpool → Cpool
put cc c = record c { idle = pool_put cc c.idle }

-- The pool, and the buffers that the server has taken and not given back.
abbrev pub Held : Type 0
Held = Cpool × List Bytes

-- What the server does: it takes a buffer, or it gives one back, whatever it has written into it.
pub data Use : Held → Held → Type 0 where
  takes :
      {c : Cpool} {held : List Bytes} (choice : ℕ)
      → Use (c, held) ((get choice c).0, (get choice c).1 ∷ held)
  returns :
      {c : Cpool} (before : List Bytes) (cc written : Bytes) (after : List Bytes)
      → length written ≡ length cc
      → Use (c, before ++ cc ∷ after) (put written c, before ++ after)

pub data Uses : Held → Held → Type 0 where
  unused : {h : Held} → Uses h h
  used : {h k l : Held} → Uses h k → Use k l → Uses h l

abbrev Fits : ℕ → Bytes → Type 0
Fits size cc = length cc ≡ size

abbrev AllFit : ℕ → Held → Type 0
AllFit size (c, held) = (c.size ≡ size) × All (Fits size) c.idle × All (Fits size) held

All-middle :
    (size : ℕ) (before : List Bytes) (cc : Bytes) (after : List Bytes)
    → All (Fits size) (before ++ cc ∷ after)
    → Fits size cc × All (Fits size) (before ++ after)
All-middle size [] cc after h = h
All-middle size (b ∷ before) cc after h =
    let (fit, rest) = All-middle size before cc after h.1 in (fit, (h.0, rest))

Use-AllFit : (size : ℕ) (h k : Held) → Use h k → AllFit size h → AllFit size k
unfolding get put
Use-AllFit size _ _ (takes {c} {held} choice) (sized, idle, out) =
    let (fit, rest) =
      pool_get-All (Fits size) choice (make_bytes c.size) c.idle (make_bytes-length c.size ∙ sized)
        idle in
    (sized, rest, (fit, out))
Use-AllFit size _ _ (returns before cc written after same) (sized, idle, out) =
    let (fit, rest) = All-middle size before cc after out in (sized, (same ∙ fit, idle), rest)

Uses-AllFit : (size : ℕ) (h k : Held) → Uses h k → AllFit size h → AllFit size k
Uses-AllFit size _ _ unused a = a
Uses-AllFit size _ _ (used {h} {k} {l} before step) a =
    Use-AllFit size k l step (Uses-AllFit size h k before a)

-- Whatever the server has done with the pool from its start, with buffers that keep their length while
-- it holds them: every buffer that it holds, and the next one that Get gives it, has 32 KiB.
pub Uses-bufs :
    {c : Cpool} {held : List Bytes} (choice : ℕ)
    → Uses (bufs, []) (c, held)
    → All (λ cc. length cc ≡ 32 * 1024) ((get choice c).1 ∷ held)
unfolding bufs
Uses-bufs {c} {held} choice uses =
    let a = Uses-AllFit (32 * 1024) (bufs, []) (c, held) uses (refl, tt, tt) in
    let (sized, idle, out) = Use-AllFit (32 * 1024) (c, held) _ (takes choice) a in out

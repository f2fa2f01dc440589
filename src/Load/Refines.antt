-- ===== src/Load/Refines.antt =====
-- The loader does what it promises.
use prox.Base.{
  ◌+◌, ℕ, ◌<◌, ◌≡◌, refl, ap, ◌∙◌, fun_ext, Bool, true, false, ◌||◌, List, [], ◌∷◌, ◌++◌, is_some,
  arith, All, if◌then◌else◌, Option-cases, inl, inr,
}
use prox.Text.{Bytes, same, same_refl}
use prox.Proxy.{Proxy}
use prox.Engine.{Engine, Plot}
use prox.Daemons.{map_add, map_delete, map_clear}
use prox.Daemons.MapLaws.{PlotLaws, IsKnown, map_delete_lem, map_delete-IsKnown}
use prox.Load.{
  load_single_proxy, load_filtered, load_lines, load_multi_line_string, clear_socks_list, scan, say,
}
use prox.Load.Outcome.{
  address_of, load_single_proxy_eq, load_single_proxy_lem, load_single_proxy-IsKnown,
  load_lines_step,
}
use prox.Load.Book.{
  Book, Call, load_line, load_text, delete, clear, enter, enter_all, meaning, meaning_all,
  endpoints, book, perform, perform_all,
}

endpoints_same :
    (h g : ℕ → Proxy) (n : ℕ) (l : List ℕ)
    → ((p : ℕ) → p < n → (g p).endpoint ≡ (h p).endpoint)
    → All (λ p. p < n) l
    → endpoints g l ≡ endpoints h l
endpoints_same h g n [] same_ends v = refl
endpoints_same h g n (p ∷ l) same_ends v =
    rw (same_ends p v.0, endpoints_same h g n l same_ends v.1) refl

endpoints-append :
    (h : ℕ → Proxy) (l r : List ℕ) → endpoints h (l ++ r) ≡ endpoints h l ++ endpoints h r
endpoints-append h [] r = refl
endpoints-append h (p ∷ l) r = ap (λ x. (h p).endpoint ∷ x) (endpoints-append h l r)

module _ {P L M : Type 0} ⦃plots : Plot M⦄ where
  module _ (laws : PlotLaws plots) where
    -- An engine and a book agree, and the engine is in order.
    Agrees : Engine P L M → Book → Type 0
    Agrees e b = (book e ≡ b) × IsKnown e

    loaded_heap :
        (sock : Bytes) (e : Engine P L M) (p : ℕ)
        → p < e.next_address
        → ((load_single_proxy sock e).0.heap p).endpoint ≡ (e.heap p).endpoint
    unfolding map_add
    loaded_heap sock e p old = rw (load_single_proxy_eq laws sock e) (ground arith)

    loaded_known :
        (sock k : Bytes) (e : Engine P L M)
        → (book (load_single_proxy sock e).0).known k ≡ (same sock k || (book e).known k)
    unfolding book
    loaded_known sock k e =
        let (_, _, entries) = load_single_proxy_lem laws sock k e in ground (arith, entries)

    loaded_endpoint :
        (sock : Bytes) (e : Engine P L M)
        → IsKnown e
        → ((load_single_proxy sock e).0.heap (address_of laws sock e)).endpoint ≡ sock
    loaded_endpoint sock e v =
        let (_, _, entries) = load_single_proxy_lem laws sock sock e in
        (load_single_proxy-IsKnown laws sock e v).keyed sock (address_of laws sock e)
          (ground (arith, entries, same_refl sock))

    loaded_queue :
        (sock : Bytes) (e : Engine P L M)
        → IsKnown e
        → (book (load_single_proxy sock e).0).queue ≡ (book e).queue ++ (sock ∷ [])
    unfolding book
    loaded_queue sock e v =
        let f : Engine P L M = (load_single_proxy sock e).0 in
        let (_, queue, _) = load_single_proxy_lem laws sock sock e in
        ap (endpoints f.heap) queue
        ∙ endpoints-append f.heap e.pending (address_of laws sock e ∷ [])
        ∙ rw
            (
              endpoints_same e.heap f.heap e.next_address e.pending (loaded_heap sock e) v.queued,
              loaded_endpoint sock e v,
            )
            refl

    load_single_proxy-Agrees :
        (sock : Bytes) (e : Engine P L M)
        → IsKnown e
        → Agrees (load_single_proxy sock e).0 (enter sock (book e))
    unfolding Agrees enter
    load_single_proxy-Agrees sock e v = (
      ap (λ k. record { known = k; queue = (book (load_single_proxy sock e).0).queue })
            (fun_ext (λ k. loaded_known sock k e))
          ∙ ap (λ q. record { known = λ k. same sock k || (book e).known k; queue = q })
              (loaded_queue sock e v),
      load_single_proxy-IsKnown laws sock e v,
    )

    say-Agrees : (message : Bytes) (e : Engine P L M) → IsKnown e → Agrees (say message e) (book e)
    unfolding Agrees book
    say-Agrees message e v =
        (refl, record { exists = v.exists; keyed = v.keyed; queued = v.queued })

    load_filtered-Agrees :
        (line : Bytes × Bool) (e : Engine P L M)
        → IsKnown e
        → Agrees (load_filtered line e).0 (meaning (load_line line) (book e))
    unfolding load_filtered meaning
    load_filtered-Agrees (sock, false) e v = say-Agrees _ e v
    load_filtered-Agrees (sock, true) e v =
        rw (load_single_proxy_lem laws sock sock e).0 (load_single_proxy-Agrees sock e v)

    load_lines-Agrees :
        (lines : List Bytes) (n : ℕ) (e : Engine P L M) (b : Book)
        → Agrees e b
        → Agrees (load_lines lines n e).0 (enter_all lines b)
    unfolding load_lines enter_all Agrees
    load_lines-Agrees [] n e b v = v
    load_lines-Agrees (line ∷ rest) n e b (same_book, v) =
        let f : Engine P L M = (load_single_proxy line e).0 in
        let (loaded, known) = load_single_proxy-Agrees line e v in
        rw (load_lines_step laws line rest n e) (
          load_lines-Agrees rest (n + 1) f (enter line b)
            (loaded ∙ ap (enter line) same_book, known))

    map_delete_queue :
        (sock : Bytes) (e : Engine P L M) → (book (map_delete sock e).0).queue ≡ (book e).queue
    unfolding book map_delete
    map_delete_queue sock e = elim (Option-cases (plots.get e.plot sock)) [
      | inl missing ↦ rw (missing, map_delete) refl
      | inr (p, found) ↦ rw (found, map_delete) refl
    ]

    map_delete_known :
        (sock k : Bytes) (e : Engine P L M)
        → (book (map_delete sock e).0).known k ≡ (if same sock k then false else (book e).known k)
    unfolding book
    map_delete_known sock k e = ground (arith, (map_delete_lem laws sock k e).0)

    perform-Agrees :
        (c : Call) (e : Engine P L M) → IsKnown e → Agrees (perform c e) (meaning c (book e))
    unfolding perform meaning Agrees load_multi_line_string clear_socks_list map_clear book
    perform-Agrees (load_line line) e v = load_filtered-Agrees line e v
    perform-Agrees (load_text socks) e v = load_lines-Agrees (scan socks) 0 e (book e) (refl, v)
    perform-Agrees (delete sock) e v = (
      ap (λ k. record { known = k; queue = (book (map_delete sock e).0).queue })
            (fun_ext (λ k. map_delete_known sock k e))
          ∙ ap
              (λ q. record {
                known = λ k. if same sock k then false else (book e).known k;
                queue = q;
              })
              (map_delete_queue sock e),
      map_delete-IsKnown laws sock e v,
    )
    perform-Agrees clear e v = (
      ap (λ k. record { known = k; queue = (book e).queue })
          (fun_ext (λ k. ap is_some (laws.get-clear e.plot k))),
      record {
        exists = λ k p h. absurd (cc (h, laws.get-clear e.plot k));
        keyed = λ k p h. absurd (cc (h, laws.get-clear e.plot k));
        queued = v.queued;
      },
    )

    -- One call.
    pub perform-book :
        (c : Call) (e : Engine P L M) → IsKnown e → book (perform c e) ≡ meaning c (book e)
    unfolding Agrees
    perform-book c e v = (perform-Agrees c e v).0

    perform_all-Agrees :
        (calls : List Call) (e : Engine P L M) (b : Book)
        → Agrees e b
        → Agrees (perform_all calls e) (meaning_all calls b)
    unfolding perform_all meaning_all Agrees
    perform_all-Agrees [] e b v = v
    perform_all-Agrees (c ∷ calls) e b (same_book, v) =
        let (next, known) = perform-Agrees c e v in
        perform_all-Agrees calls (perform c e) (meaning c b)
          (next ∙ ap (meaning c) same_book, known)

    -- From an engine whose map and Pending are in order, any sequence of calls (a line behind the
    -- filter, a text of lines, the deletion of one endpoint or of all) does to the engine what it means:
    -- the endpoints that are known afterwards, and those on Pending in their order, are those of the
    -- specification, in which a line that is loaded becomes known and is queued, and a deletion
    -- forgets and leaves the queue alone.
    pub perform_all-book :
        (calls : List Call) (e : Engine P L M)
        → IsKnown e
        → book (perform_all calls e) ≡ meaning_all calls (book e)
    unfolding Agrees
    perform_all-book calls e v = (perform_all-Agrees calls e (book e) (refl, v)).0
